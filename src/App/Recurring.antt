-- ===== src/App/Recurring.antt =====
-- src/queuefy/app.py: `materialize`, which writes the next slot of every recurring task.
pub mod Turns
pub mod Twice
use queuefy.Prelude.{ℕ, ◌++◌, Bool, false, Option, none, some, List, [], ◌∷◌, ltb, if◌then◌else◌}
use queuefy.Prelude.Text.{Text, ◌==◌ as text_eq}
use queuefy.Errors.{Result, ok, err, ◌>>=◌}
use queuefy.Value.{Float, text, dict, end}
use queuefy.Run.{Run, Instant}
use queuefy.Clock.{Stamp}
use queuefy.Trigger.{Trigger}
use queuefy.Task.{Task}
use queuefy.App.Guards.{occurrence_key}
use queuefy.App.Registry.{Tasks}
use queuefy.App.Enqueue.{Writing, build}

-- The slot that each task was last asked to write, by its name.
abbrev pub Written : Type 0
Written = List (Text × Instant)

unfoldable pub slot_of : Text → Written → Option Instant
slot_of name [] = none
slot_of name ((n, t) ∷ rest) =
    let older = slot_of name rest in if text_eq n name then some t else older

unfoldable pub remember : Text → Instant → Written → Written
remember name t written = (name, t) ∷ written

abbrev pub is_ahead : Option Instant → Instant → Bool
is_ahead none moment = false
is_ahead (some t) moment = ltb moment t

-- An instant of utc, as the caller of `build` hands it over.
abbrev pub in_utc : Instant → Option Stamp
in_utc t = some (record { clock = t; offset = none })

-- The world, what the process remembers, and the outcome: an exception leaves both as they were
-- when it was raised.
abbrev pub Pass : Type 0 → Type 0
Pass W = W × Written × Result (List Run)

abbrev pub with_slot : Option Run → List Run → List Run
with_slot none runs = runs
with_slot (some r) runs = runs ++ r ∷ []

module _ (repr_float : Float → Text) where
  -- The run that a slot is written as.
  unfoldable pub slot_run : Task → Trigger → Instant → Instant → Result (Instant × Run)
  slot_run task trigger moment now = do
    due_at ← trigger.next_after moment
    run ←
        build repr_float task (in_utc due_at) (dict end)
          (some (text (occurrence_key task.name due_at))) none now
    ok (due_at, run)

  module _ {W : Type 0} (store : Writing W) (moment now : Instant) where
    unfoldable pub write_slots : Tasks → W → Written → List Run → Pass W
    write_slots [] w written runs = (w, written, ok runs)
    write_slots (task ∷ tasks) w written runs = elim task.trigger [
      | none ↦ write_slots tasks w written runs
      | some trigger ↦
          let skip = write_slots tasks w written runs in
          if is_ahead (slot_of task.name written) moment
          then skip
          else elim (slot_run task trigger moment now) [
            | err e ↦ (w, written, err e)
            | ok (due_at, run) ↦
                let (w', slot) = store.add w run in
                write_slots tasks w' (remember task.name due_at written) (with_slot slot runs)
          ]
    ]

  unfoldable pub materialize :
      {W : Type 0} → Writing W → Tasks → Instant → Instant → W → Written → Pass W
  materialize store tasks moment now w written = write_slots store moment now tasks w written []

-- ===== src/Worker/Passes.antt =====
-- src/queuefy/worker.py: `run_once`, `tidy`, `housekept`, `free`, `holding` and `spawn`, over the
-- memory store.
pub mod Kept
pub mod Freed
use queuefy.Prelude.{
  ℕ, ◌+◌, ◌-◌, ◌*◌, ◌++◌, Bool, false, Option, none, some, List, [], ◌∷◌, ◌==◌, if◌then◌else◌,
  length,
}
use queuefy.Prelude.Int.{ℤ, pos, ◌-ℤ◌, ltb_ℤ}
use queuefy.Prelude.Text.{Text}
use queuefy.Errors.{Error, Result, ok, err}
use queuefy.Value.{Value, Float}
use queuefy.Run.{Run, Instant}
use queuefy.Clock.{in_range, second}
use queuefy.Store.Memory.Rows.{MemoryStore}
use queuefy.Store.Memory.Claiming.{claim}
use queuefy.Store.Memory.Sweeping.{reclaim, purge}
use queuefy.App.Registry.{Tasks}
use queuefy.App.Recurring.{Written, materialize}
use queuefy.App.Shared.{memory}

-- PURGE_EVERY, in microseconds, and PURGE_LIMIT.
abbrev pub purge_every : ℕ
purge_every = 3600 * second

abbrev pub purge_limit : ℕ
purge_limit = 1000

-- What a worker was built with, and what it keeps: when it last pruned by the clock of its process,
-- the runs it has in flight, the threads it no longer waits for, and the slots that its application
-- remembers. A span is a count of microseconds.
pub record Worker : Type 0 where
  pub name : Text
  pub queues : List Text
  pub concurrency : ℕ
  pub poll : Value
  pub lease : ℕ
  pub jitter : Value
  pub grace : Value
  pub keep : Option ℕ
  pub purged : Option ℤ
  pub running : List Run
  pub stranded : ℕ
  pub written : Written

unfoldable pub holding : Worker → ℕ
holding w = w.stranded

-- A number below 0 is 0 here: the code only asks whether it is above 0, and for how many.
unfoldable pub free : Worker → ℕ
unfolding holding
free w = w.concurrency - length w.running - holding w

unfoldable pub is_recent : Option ℤ → ℤ → Bool
is_recent none clock = false
is_recent (some t) clock = ltb_ℤ (clock -ℤ t) (pos purge_every)

abbrev pub Tidied : Type 0
Tidied = MemoryStore × Option ℤ × Result ℕ

-- The pruning itself, at an instant that a datetime holds. The clock of the process is read once here.
abbrev pub pruned_at : MemoryStore → ℤ → Result Instant → Tidied
pruned_at s clock (err e) = (s, some clock, err e)
pruned_at s clock (ok before) =
    let (s', gone) = purge s before purge_limit in
    (s', if gone == purge_limit then none else some clock, ok gone)

-- What `tidy` does with the span that a worker keeps, and the clock of the process.
unfoldable pub tidy : Option ℕ → Option ℤ → MemoryStore → Instant → ℤ → Tidied
unfolding is_recent in_range purge
tidy none purged s moment clock = (s, purged, ok 0)
tidy (some keep) purged s moment clock =
    let pruned = pruned_at s clock (in_range (pos moment -ℤ pos keep)) in
    if is_recent purged clock then (s, purged, ok 0) else pruned

-- `housekept`: what was done stays done, and an exception is logged.
abbrev pub housekept {ℓ} : {W : Type 0} {A : Type ℓ} → W × Result A → W
housekept (w, outcome) = w

unfoldable pub spawn : Worker → Run → Worker
spawn w run = record w { running = w.running ++ run ∷ [] }

unfoldable pub spawn_each : Worker → List Run → Worker
unfolding spawn
spawn_each w [] = w
spawn_each w (run ∷ runs) = spawn_each (spawn w run) runs

-- A pass, and nothing of it in between: `moment` is the instant that it begins at, `built` the one
-- that the slots are written at, `later` the one that the claim is made at.
module _ (repr_float : Float → Text) (tasks : Tasks) (moment built later : Instant)
    (clock : ℤ) where
  -- What comes before the claim.
  unfoldable pub housekeeping : Worker → MemoryStore → MemoryStore × Worker
  unfolding reclaim tidy materialize
  housekeeping w s =
      let s1 = (reclaim s moment).0 in
      let (s2, purged, gone) = tidy w.keep w.purged s1 moment clock in
      let (s3, written, slots) = materialize repr_float memory tasks moment built s2 w.written in
      (s3, record w { purged = purged; written = written })

  -- The claim, when there is room for it.
  unfoldable pub claim_free : Worker → MemoryStore → MemoryStore × Worker × List Run
  unfolding free claim spawn_each
  claim_free w s =
      let (s', claimed) = claim s w.name w.queues (free w) w.lease later in
      if free w == 0 then (s, w, []) else (s', spawn_each w claimed, claimed)

  unfoldable pub run_once : Worker → MemoryStore → MemoryStore × Worker × List Run
  unfolding housekeeping claim_free
  run_once w s = let (s', w') = housekeeping w s in claim_free w' s'

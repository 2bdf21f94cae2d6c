-- ===== src/Worker/Attempt/Verdicts.antt =====
-- What an attempt is to leave, by what its handler came to.
use queuefy.Prelude.{ℕ, ◌+◌, ◌≡◌, ◌++◌, true, false, Option, some, List, [], ◌∷◌, if◌then◌else◌}
use queuefy.Prelude.Int.{pos, negsuc}
use queuefy.Prelude.Text.{Text}
use queuefy.Errors.{Error, Result, ok, err, unknown_task, unwritable_answer, work_never_started}
use queuefy.Value.{Value, Float}
use queuefy.Run.{Run, Instant, exhausted}
use queuefy.Store.Memory.Rows.{get}
use queuefy.Store.Memory.Holding.{completed, gave_up, requeued}
use queuefy.Task.{Task}
use queuefy.Worker.Messages.{described}
use queuefy.Worker.Endings.{Failure}
use queuefy.Worker.Attempt.{
  Met, returned, refused, raised, stopped, timed_out, cancelled, Event, finished, broken, Leaving,
  over, asked_to_stop, Came, kept_answer,
}

-- What is to become of a run.
pub data Verdict : Type 0 where
  closes : Option Value → Verdict
  gives_up tries_again hands_back : Failure → Verdict
  stays : Verdict

-- A failure that another attempt may mend.
abbrev pub mendable : Run → Failure → Verdict
mendable run error = if exhausted run then gives_up error else tries_again error

abbrev pub verdict_of_answer : Failure → Result (Option Value) → Verdict
verdict_of_answer unwritable (ok answer) = closes answer
verdict_of_answer unwritable (err refusal) = gives_up unwritable

module _ (name : Text) (waiting : Run → ℕ) (repr_float : Float → Text) (say : Run → Error → Failure)
    (run : Run) where
  abbrev pub verdict_of : Met → Verdict
  verdict_of (returned answer) =
      verdict_of_answer (say run unwritable_answer) (kept_answer name waiting repr_float say answer)
  verdict_of (refused error) = gives_up error
  verdict_of (stopped error) = gives_up error
  verdict_of (raised error) = mendable run error
  verdict_of (timed_out error false) = mendable run error
  verdict_of (timed_out error true) = hands_back (say run work_never_started)
  verdict_of cancelled = stays

  -- A name that this worker does not declare goes back, the attempt given back.
  abbrev pub verdict : (Task → Met) → Result Task → Verdict
  verdict met (err refusal) = hands_back (say run unknown_task)
  verdict met (ok task) = verdict_of (met task)

  -- The row that a verdict leaves, what the listeners are told of it, and how the attempt leaves.
  abbrev pub row_after : Instant → Verdict → Run → Run
  row_after now (closes answer) r = completed now answer r
  row_after now (gives_up error) r =
      let (description, kind) = described error.spoken error.kind in gave_up now description kind r
  row_after now (tries_again error) r =
      let (description, kind) = described error.spoken error.kind in
      requeued (now + waiting run) description kind (pos 0) r
  row_after now (hands_back error) r =
      let (description, kind) = described error.spoken error.kind in
      requeued (now + waiting run) description kind (negsuc 0) r
  row_after now stays r = r

  abbrev pub told_of : Verdict → List Event
  told_of (closes answer) = finished run answer ∷ []
  told_of (gives_up error) = broken run error false ∷ []
  told_of (tries_again error) = broken run error true ∷ []
  told_of (hands_back error) = broken run error true ∷ []
  told_of stays = []

  abbrev pub leaves : Verdict → Leaving
  leaves stays = asked_to_stop
  leaves _ = over

  abbrev pub IsEnded : ℕ → Run → Instant → List Event → Verdict → Came → Type 0
  IsEnded id stored now told v (s, told', leaving) =
      (get s id ≡ some (row_after now v stored))
      × (told' ≡ told ++ told_of v)
      × (leaving ≡ leaves v)

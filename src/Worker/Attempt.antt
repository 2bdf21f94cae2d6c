-- ===== src/Worker/Attempt.antt =====
-- src/queuefy/worker.py: `attempt`, `answered`, `broke` and `execute`, over the memory store.
-- What the call of a handler comes to is a parameter, as are the words of the exceptions that the
-- library raises. The listeners are what they are told, in order.
pub mod Outcomes
pub mod Verdicts
pub mod Ends
use queuefy.Prelude.{ℕ, ◌++◌, Bool, true, false, Option, none, some, List, [], ◌∷◌}
use queuefy.Prelude.Text.{Text, codes}
use queuefy.Errors.{
  Error, Result, ok, err, ◌>>=◌, unknown_task, unwritable_answer, work_never_started,
}
use queuefy.Value.{Value, Float, dict}
use queuefy.Run.{Run, Instant}
use queuefy.Store.Memory.Rows.{MemoryStore}
use queuefy.Store.Memory.Holding.{complete}
use queuefy.Task.{Task}
use queuefy.App.Registry.{Tasks, task_for}
use queuefy.Worker.Messages.{keepable}
use queuefy.Worker.Endings.{Failure, Ending, settle, hand_back, after}

-- What waiting for a handler comes to: its answer, a PermanentError, another exception, one that is
-- not an Exception, the timeout, with whether the work was still queued for a thread and was taken
-- back from it, or the shutdown.
pub data Met : Type 0 where
  returned : Value → Met
  refused raised stopped : Failure → Met
  timed_out : Failure → (queued : Bool) → Met
  cancelled : Met

-- What `call` leaves: what it raises, and whether a line of the handler ever ran.
pub data Did : Type 0 where
  answers : Value → Did
  permanent exits : Failure → Did
  breaks : Failure → (started : Bool) → Did
  cancels : Did

-- What the listeners are told of a run.
pub data Event : Type 0 where
  begun : Run → Event
  finished : Run → Option Value → Event
  broken : Run → Failure → (coming_back : Bool) → Event

-- How an attempt leaves: it is over, it raised, or the shutdown asked.
pub data Leaving : Type 0 where
  over : Leaving
  threw : Error → Leaving
  asked_to_stop : Leaving

abbrev pub Came : Type 0
Came = MemoryStore × List Event × Leaving

unfoldable pub broke : Run → Failure → List Event → Ending → Came
broke run error told (s, err e) = (s, told, threw e)
broke run error told (s, ok none) = (s, told, over)
broke run error told (s, ok (some coming_back)) =
    (s, told ++ broken run error coming_back ∷ [], over)

-- The end of `answered`: nothing is told where the store would not take the answer.
unfoldable pub told_finished : Run → Option Value → List Event → MemoryStore × Bool → Came
told_finished run answer told (s, true) = (s, told ++ finished run answer ∷ [], over)
told_finished run answer told (s, false) = (s, told, over)

unfoldable pub complete_under :
    Option ℕ → MemoryStore → Text → Run → Instant → Option Value → MemoryStore × Bool
complete_under none s name run now answer = (s, false)
complete_under (some id) s name run now answer = complete s id name run.attempts now answer

-- `wait` and `say` are how long a run waits for another attempt and the words of an exception.
module _ (name : Text) (waiting : Run → ℕ) (repr_float : Float → Text)
    (say : Run → Error → Failure) where
  unfoldable pub called : Run → Met → Did
  called run (returned answer) = answers answer
  called run (refused error) = permanent error
  called run (raised error) = breaks error true
  called run (stopped error) = exits error
  called run (timed_out error false) = breaks error true
  called run (timed_out error true) = breaks (say run work_never_started) false
  called run cancelled = cancels

  unfoldable pub kept_answer : Value → Result (Option Value)
  kept_answer (dict entries) = keepable repr_float (dict entries) >>= λ answer. ok (some answer)
  kept_answer _ = ok none

  -- What `answered` does once the answer is settled or refused.
  abbrev pub answered_with : Run → MemoryStore → Instant → List Event → Result (Option Value) → Came
  answered_with run s now told (ok answer) =
      told_finished run answer told (complete_under run.id s name run now answer)
  answered_with run s now told (err refusal) =
      let error = say run unwritable_answer in
      broke run error told (settle name waiting s run error false now)

  unfoldable pub answered : Run → Value → MemoryStore → Instant → List Event → Came
  unfolding kept_answer
  answered run answer s now told = answered_with run s now told (kept_answer answer)

  -- The handlers of what the call raised.
  unfoldable pub ended_with : Run → MemoryStore → Instant → List Event → Did → Came
  unfolding answered broke
  ended_with run s now told (answers answer) = answered run answer s now told
  ended_with run s now told (permanent error) =
      broke run error told (settle name waiting s run error false now)
  ended_with run s now told (breaks error started) =
      broke run error told (after name waiting s run error started now)
  ended_with run s now told (exits error) =
      broke run error told (settle name waiting s run error false now)
  ended_with run s now told cancels = (s, told, asked_to_stop)

  -- After the lookup: a name that this worker does not declare goes back to the queue.
  abbrev pub looked_up :
      (Task → Met) → Run → MemoryStore → Instant → List Event → Result Task → Came
  looked_up met run s now told (err refusal) =
      let error = say run unknown_task in
      broke run error told (hand_back name waiting s run error now)
  looked_up met run s now told (ok task) = ended_with run s now told (called run (met task))

  unfoldable pub attempt : Tasks → (Task → Met) → MemoryStore → Run → Instant → Came
  unfolding ended_with task_for
  attempt tasks met s run now = looked_up met run s now (begun run ∷ []) (task_for tasks run.name)

-- `execute`: an outcome that never reached the store is logged, and the shutdown passes through.
unfoldable pub executed : Came → Came
executed (s, told, threw e) = (s, told, over)
executed (s, told, over) = (s, told, over)
executed (s, told, asked_to_stop) = (s, told, asked_to_stop)

-- ===== src/Worker/Attempt/Outcomes.antt =====
-- What an attempt leaves in the store, and what it tells of it.
use queuefy.Prelude.{
  ℕ, ◌+◌, ◌≡◌, refl, sym, subst, inl, inr, Bool, true, false, not, ◌&&◌, Option, none, some, List,
  [], ◌∷◌, Bool-cases,
}
use queuefy.Prelude.Int.{ℤ, pos, negsuc}
use queuefy.Prelude.Text.{Text}
use queuefy.Errors.{Error, Result, ok, err, unknown_task, unwritable_answer, Result-cases}
use queuefy.Value.{Value, Float}
use queuefy.Run.{Run, Instant, exhausted}
use queuefy.Clock.{in_range}
use queuefy.Store.Memory.Rows.{MemoryStore}
use queuefy.Store.Memory.Holding.{
  held, on_held, completed, gave_up, requeued, complete, fail, retry_later, release, requeue,
}
use queuefy.Task.{Task}
use queuefy.App.Registry.{Tasks, task_for}
use queuefy.Worker.Messages.{described}
use queuefy.Worker.Endings.{
  Failure, Ending, settle, settle_under, hand_back, hand_back_under, after,
}
use queuefy.Worker.Attempt.{
  Met, Did, answers, permanent, exits, breaks, cancels, Event, begun, over, threw, asked_to_stop,
  Came, broke, told_finished, complete_under, called, kept_answer, answered_with, answered,
  ended_with, looked_up, attempt, executed,
}

on_held-lost :
    (f : Run → Run) (s : MemoryStore) (id : ℕ) (worker : Text) (attempt : ℤ)
    → held s id worker attempt ≡ none
    → on_held f s id worker attempt ≡ (s, false)
unfolding on_held
on_held-lost f s id worker attempt lost = rw (lost, on_held) refl

-- An ending that the store did not take.
abbrev IsDropped : MemoryStore → Ending → Type 0
IsDropped s (s', ok none) = s' ≡ s
IsDropped s (s', ok (some back)) = ⊥
IsDropped s (s', err e) = s' ≡ s

-- Nothing is changed and nothing more is told.
abbrev pub IsSilent : MemoryStore → List Event → Came → Type 0
IsSilent s told (s', told', leaving) = (s' ≡ s) × (told' ≡ told)

broke-IsSilent :
    (run : Run) (error : Failure) (told : List Event) (s : MemoryStore) (x : Ending)
    → IsDropped s x
    → IsSilent s told (broke run error told x)
unfolding broke
broke-IsSilent run error told s (s', ok none) h = (h, refl)
broke-IsSilent run error told s (s', ok (some back)) h = absurd h
broke-IsSilent run error told s (s', err e) h = (h, refl)

module _ (name : Text) (waiting : Run → ℕ) (s : MemoryStore) (run : Run) (now : Instant) where
  -- The run names a row that this attempt does not hold.
  abbrev pub IsLost : Option ℕ → Type 0
  IsLost none = Unit
  IsLost (some id) = held s id name run.attempts ≡ none

  settle-IsDropped :
      (o : Option ℕ) (error : Failure) (retryable : Bool)
      → IsLost o
      → IsDropped s (settle_under name waiting o s run error retryable now)
  unfolding settle_under retry_later requeue fail
  settle-IsDropped none error retryable lost = refl
  settle-IsDropped (some id) error retryable lost =
      let (description, kind) = described error.spoken error.kind in
      elim (Bool-cases (retryable && not (exhausted run))) [
        | inl back ↦ elim (Result-cases (in_range (pos (now + waiting run)))) [
          | inl (due_at, fits) ↦
              let f = requeued due_at description kind (pos 0) in
              rw (back, fits, on_held-lost f s id name run.attempts lost) refl
          | inr (e, past) ↦ rw (back, past) refl
        ]
        | inr last ↦
            rw (last, on_held-lost (gave_up now description kind) s id name run.attempts lost) refl
      ]

  hand_back-IsDropped :
      (o : Option ℕ) (error : Failure)
      → IsLost o
      → IsDropped s (hand_back_under name waiting o s run error now)
  unfolding hand_back_under release requeue
  hand_back-IsDropped none error lost = refl
  hand_back-IsDropped (some id) error lost =
      let (description, kind) = described error.spoken error.kind in
      elim (Result-cases (in_range (pos (now + waiting run)))) [
        | inl (due_at, fits) ↦
            let f = requeued due_at description kind (negsuc 0) in
            rw (fits, hand_back_under) (rw (on_held-lost f s id name run.attempts lost) refl)
        | inr (e, past) ↦ rw (past, hand_back_under) refl
      ]

module _ (name : Text) (waiting : Run → ℕ) (repr_float : Float → Text) (say : Run → Error → Failure)
    (s : MemoryStore) (run : Run) (now : Instant) (lost : IsLost name waiting s run now run.id)
    (told : List Event) where
  settle-IsSilent :
      (error : Failure) (retryable : Bool)
      → IsSilent s told (broke run error told (settle name waiting s run error retryable now))
  unfolding settle
  settle-IsSilent error retryable =
      broke-IsSilent run error told s (settle name waiting s run error retryable now)
        (settle-IsDropped name waiting s run now run.id error retryable lost)

  hand_back-IsSilent :
      (error : Failure)
      → IsSilent s told (broke run error told (hand_back name waiting s run error now))
  unfolding hand_back
  hand_back-IsSilent error =
      broke-IsSilent run error told s (hand_back name waiting s run error now)
        (hand_back-IsDropped name waiting s run now run.id error lost)

  complete-IsSilent :
      (o : Option ℕ) (answer : Option Value)
      → IsLost name waiting s run now o
      → IsSilent s told (told_finished run answer told (complete_under o s name run now answer))
  unfolding complete_under complete told_finished
  complete-IsSilent none answer h = (refl, refl)
  complete-IsSilent (some id) answer h =
      rw (on_held-lost (completed now answer) s id name run.attempts h) (refl, refl)

  answered-IsSilent :
      (outcome : Result (Option Value))
      → IsSilent s told (answered_with name waiting repr_float say run s now told outcome)
  answered-IsSilent (ok answer) = complete-IsSilent run.id answer lost
  answered-IsSilent (err refusal) = settle-IsSilent (say run unwritable_answer) false

  ended_with-IsSilent :
      (did : Did) → IsSilent s told (ended_with name waiting repr_float say run s now told did)
  unfolding ended_with answered after
  ended_with-IsSilent (answers answer) =
      answered-IsSilent (kept_answer name waiting repr_float say answer)
  ended_with-IsSilent (permanent error) = settle-IsSilent error false
  ended_with-IsSilent (breaks error true) = settle-IsSilent error true
  ended_with-IsSilent (breaks error false) = hand_back-IsSilent error
  ended_with-IsSilent (exits error) = settle-IsSilent error false
  ended_with-IsSilent cancels = (refl, refl)

  looked_up-IsSilent :
      (met : Task → Met) (found : Result Task)
      → IsSilent s told (looked_up name waiting repr_float say met run s now told found)
  looked_up-IsSilent met (ok task) =
      ended_with-IsSilent (called name waiting repr_float say run (met task))
  looked_up-IsSilent met (err refusal) = hand_back-IsSilent (say run unknown_task)

executed-IsSilent :
    (s : MemoryStore) (told : List Event) (c : Came)
    → IsSilent s told c
    → IsSilent s told (executed c)
unfolding executed
executed-IsSilent s told (s', told', over) h = h
executed-IsSilent s told (s', told', threw e) h = h
executed-IsSilent s told (s', told', asked_to_stop) h = h

-- An attempt that no longer holds its run when it is over changes nothing, whatever its handler came
-- to, and its listeners are told of nothing but its start.
pub attempt-IsSilent :
    (name : Text) (waiting : Run → ℕ) (repr_float : Float → Text) (say : Run → Error → Failure)
    (tasks : Tasks) (met : Task → Met) (s : MemoryStore) (run : Run) (id : ℕ) (now : Instant)
    → run.id ≡ some id
    → held s id name run.attempts ≡ none
    → IsSilent s
        (begun run ∷ [])
        (executed (attempt name waiting repr_float say tasks met s run now))
unfolding attempt
attempt-IsSilent name waiting repr_float say tasks met s run id now here lost =
    executed-IsSilent s (begun run ∷ []) (attempt name waiting repr_float say tasks met s run now) (
      looked_up-IsSilent name waiting repr_float say s run now
        (subst (IsLost name waiting s run now) (sym here) lost) (begun run ∷ []) met
        (task_for tasks run.name))

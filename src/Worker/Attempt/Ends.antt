-- ===== src/Worker/Attempt/Ends.antt =====
-- What becomes of a run that its attempt holds to the end.
use queuefy.Prelude.{
  ℕ, ◌+◌, ◌≤◌, ◌≡◌, refl, ap, sym, subst, ◌∙◌, ◌++◌, inl, inr, Bool, true, false, not, Option, some,
  List, [], ◌∷◌, Bool-cases,
}
use queuefy.Prelude.Int.{negsuc}
use queuefy.Prelude.Text.{Text}
use queuefy.Errors.{Error, Result, ok, err, unknown_task, unwritable_answer, work_never_started}
use queuefy.Value.{Value, Float}
use queuefy.Run.{Run, Instant, exhausted}
use queuefy.Clock.{widest_slot}
use queuefy.Store.Memory.Rows.{MemoryStore, get}
use queuefy.Store.Memory.Holding.{held, completed, requeued, complete, release, requeue}
use queuefy.Store.Memory.Holding.Exact.{held_iff}
use queuefy.Task.{Task}
use queuefy.App.Registry.{Tasks, task_for}
use queuefy.Worker.Messages.{described}
use queuefy.Worker.Endings.{
  Failure, Ending, settle, settle_under, hand_back, hand_back_under, after,
}
use queuefy.Worker.Endings.Recorded.{on_held_change, in_range_here, settle_under-IsSettled}
use queuefy.Worker.Attempt.{
  Met, returned, refused, raised, stopped, timed_out, cancelled, Event, begun, broken, over, threw,
  asked_to_stop, Came, broke, told_finished, complete_under, called, kept_answer, answered_with,
  answered, ended_with, looked_up, attempt, executed,
}
use queuefy.Worker.Attempt.Verdicts.{
  Verdict, closes, gives_up, tries_again, hands_back, stays, mendable, verdict_of_answer,
  verdict_of, verdict, leaves, IsEnded,
}

module _ (name : Text) (waiting : Run → ℕ) (repr_float : Float → Text) (say : Run → Error → Failure)
    (run : Run) where
  not_thrown : (v : Verdict) (e : Error) → threw e ≡ leaves name waiting repr_float say run v → ⊥
  not_thrown (closes answer) e h = cc
  not_thrown (gives_up error) e h = cc
  not_thrown (tries_again error) e h = cc
  not_thrown (hands_back error) e h = cc
  not_thrown stays e h = cc

  told_nothing : (told : List Event) → told ≡ told ++ []
  told_nothing [] = refl
  told_nothing (event ∷ told) = ap (◌∷◌ event) (told_nothing told)

  broke_told :
      (error : Failure) (told : List Event) (back : Bool) (x : Ending)
      → x.1 ≡ ok (some back)
      → broke run error told x ≡ (x.0, told ++ broken run error back ∷ [], over)
  unfolding broke
  broke_told error told back (s, o) e = rw e refl

  module _ (s : MemoryStore) (id : ℕ) (stored : Run) (now : Instant) (told : List Event)
      (holds : held s id name run.attempts ≡ some stored)
      (room : now + waiting run ≤ widest_slot) where
    given_up-IsEnded :
        (error : Failure)
        → IsEnded name waiting repr_float say run id stored now told
            (gives_up error)
            (broke run error told (settle_under name waiting (some id) s run error false now))
    given_up-IsEnded error =
        let x = settle_under name waiting (some id) s run error false now in
        let (answer, row) =
          settle_under-IsSettled name waiting s run stored id error false now holds room in
        rw (broke_told error told false x answer) (row, refl, refl)

    tried_again-IsEnded :
        (error : Failure)
        → IsEnded name waiting repr_float say run id stored now told
            (mendable run error)
            (broke run error told (settle_under name waiting (some id) s run error true now))
    tried_again-IsEnded error =
        let x = settle_under name waiting (some id) s run error true now in
        let (answer, row) =
          settle_under-IsSettled name waiting s run stored id error true now holds room in
        rw (broke_told error told (not (exhausted run)) x answer)
          (elim (Bool-cases (exhausted run)) [
            | inl spent ↦ rw spent (row ∙ rw spent refl, refl, refl)
            | inr unspent ↦ rw unspent (row ∙ rw unspent refl, refl, refl)
          ])

    hand_back-IsEnded :
        (error : Failure)
        → IsEnded name waiting repr_float say run id stored now told
            (hands_back error)
            (broke run error told (hand_back_under name waiting (some id) s run error now))
    unfolding hand_back_under release requeue broke
    hand_back-IsEnded error =
        let (description, kind) = described error.spoken error.kind in
        let f = requeued (now + waiting run) description kind (negsuc 0) in
        let (taken, row) = on_held_change f s id name run.attempts stored holds in
        rw (in_range_here (now + waiting run) room, hand_back_under) (rw taken (row, refl, refl))

    complete-IsEnded :
        (answer : Option Value)
        → IsEnded name waiting repr_float say run id stored now told
            (closes answer)
            (told_finished run answer told (complete_under (some id) s name run now answer))
    unfolding complete_under complete told_finished
    complete-IsEnded answer =
        let (taken, row) =
          on_held_change (completed now answer) s id name run.attempts stored holds in
        rw (taken, told_finished) (row, refl, refl)

    module _ (here : run.id ≡ some id) where
      settle-gives_up :
          (error : Failure)
          → IsEnded name waiting repr_float say run id stored now told
              (gives_up error)
              (broke run error told (settle name waiting s run error false now))
      unfolding settle
      settle-gives_up error =
          subst
            (λ o.
              IsEnded name waiting repr_float say run id stored now told (gives_up error)
                (broke run error told (settle_under name waiting o s run error false now)))
            (sym here) (given_up-IsEnded error)

      settle-mends :
          (error : Failure)
          → IsEnded name waiting repr_float say run id stored now told
              (mendable run error)
              (broke run error told (settle name waiting s run error true now))
      unfolding settle
      settle-mends error =
          subst
            (λ o.
              IsEnded name waiting repr_float say run id stored now told (mendable run error)
                (broke run error told (settle_under name waiting o s run error true now)))
            (sym here) (tried_again-IsEnded error)

      hand_back-hands_back :
          (error : Failure)
          → IsEnded name waiting repr_float say run id stored now told
              (hands_back error)
              (broke run error told (hand_back name waiting s run error now))
      unfolding hand_back
      hand_back-hands_back error =
          subst
            (λ o.
              IsEnded name waiting repr_float say run id stored now told (hands_back error)
                (broke run error told (hand_back_under name waiting o s run error now)))
            (sym here) (hand_back-IsEnded error)

      answered-IsEnded :
          (outcome : Result (Option Value))
          → IsEnded name waiting repr_float say run id stored now told
              (verdict_of_answer (say run unwritable_answer) outcome)
              (answered_with name waiting repr_float say run s now told outcome)
      answered-IsEnded (err refusal) = settle-gives_up (say run unwritable_answer)
      answered-IsEnded (ok answer) =
          subst
            (λ o.
              IsEnded name waiting repr_float say run id stored now told (closes answer)
                (told_finished run answer told (complete_under o s name run now answer)))
            (sym here) (complete-IsEnded answer)

      ended_with-IsEnded :
          get s id ≡ some stored
          → (m : Met)
          → IsEnded name waiting repr_float say run id stored now told
              (verdict_of name waiting repr_float say run m)
              (ended_with name waiting repr_float say run s now told
                (called name waiting repr_float say run m))
      unfolding ended_with called answered after
      ended_with-IsEnded row (returned answer) =
          answered-IsEnded (kept_answer name waiting repr_float say answer)
      ended_with-IsEnded row (refused error) = settle-gives_up error
      ended_with-IsEnded row (stopped error) = settle-gives_up error
      ended_with-IsEnded row (raised error) = settle-mends error
      ended_with-IsEnded row (timed_out error false) = settle-mends error
      ended_with-IsEnded row (timed_out error true) =
          hand_back-hands_back (say run work_never_started)
      ended_with-IsEnded row cancelled = (row, told_nothing told, refl)

      looked_up-IsEnded :
          get s id ≡ some stored
          → (met : Task → Met) (found : Result Task)
          → IsEnded name waiting repr_float say run id stored now told
              (verdict name waiting repr_float say run met found)
              (looked_up name waiting repr_float say met run s now told found)
      looked_up-IsEnded row met (ok task) = ended_with-IsEnded row (met task)
      looked_up-IsEnded row met (err refusal) = hand_back-hands_back (say run unknown_task)

      executed-IsEnded :
          (v : Verdict) (c : Came)
          → IsEnded name waiting repr_float say run id stored now told v c
          → IsEnded name waiting repr_float say run id stored now told v (executed c)
      unfolding executed
      executed-IsEnded v (s', told', over) h = h
      executed-IsEnded v (s', told', threw e) (row, events, leaving) =
          absurd (not_thrown v e leaving)
      executed-IsEnded v (s', told', asked_to_stop) h = h

-- An attempt that holds its run to the end leaves it as its verdict says: closed with the answer,
-- over as failed, waiting again, or handed back with the attempt given back; its listeners are told
-- of the start and then once of that end, and only the shutdown leaves it as it was and unannounced.
-- The wait for another attempt is to end within the instants that a datetime holds.
pub attempt-IsEnded :
    (name : Text) (waiting : Run → ℕ) (repr_float : Float → Text) (say : Run → Error → Failure)
    (tasks : Tasks) (met : Task → Met) (s : MemoryStore) (run stored : Run) (id : ℕ) (now : Instant)
    → run.id ≡ some id
    → held s id name run.attempts ≡ some stored
    → now + waiting run ≤ widest_slot
    → IsEnded name waiting repr_float say run id stored now
        (begun run ∷ [])
        (verdict name waiting repr_float say run met (task_for tasks run.name))
        (executed (attempt name waiting repr_float say tasks met s run now))
unfolding attempt
attempt-IsEnded name waiting repr_float say tasks met s run stored id now here holds room =
    let told = begun run ∷ [] in
    let found = task_for tasks run.name in
    executed-IsEnded name waiting repr_float say run s id stored now told holds room here
      (verdict name waiting repr_float say run met found)
      (attempt name waiting repr_float say tasks met s run now)
      (looked_up-IsEnded name waiting repr_float say run s id stored now told holds room here
        ((held_iff s id name run.attempts stored).0 holds).0 met found)

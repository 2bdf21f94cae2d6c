-- ===== src/Store/Memory/History/Final.antt =====
-- A run that is over stays as it ended until it is pruned, and nobody answers for it again.
use queuefy.Prelude.{
  ℕ, ◌≡◌, refl, ◌∙◌, inl, inr, ◌⊎◌, true, false, none, some, List, Option, arith, All,
}
use queuefy.Prelude.Int.{ℤ}
use queuefy.Prelude.Text.{Text}
use queuefy.Value.{Value}
use queuefy.Run.{Run, Instant, same_status, is_settled}
use queuefy.Store.Memory.Rows.{MemoryStore, get, taken}
use queuefy.Store.Memory.Holding.{
  holds, held, on_held, heartbeat, complete, fail, retry_later, release, requeue,
}
use queuefy.Store.Memory.Holding.Exact.{held_iff, get-on_held, on_held_cases}
use queuefy.Store.Memory.Life.{Call, completes, fails, step}
use queuefy.Store.Memory.Invariant.{IsWellFormed, Admissible, step-IsWellFormed}
use queuefy.Prelude.{==_refl}
use queuefy.Store.Memory.Holding.{completed, gave_up}
use queuefy.Store.Memory.Holding.Exact.{on_held-true}
use queuefy.Store.Contract.History.{settled_stays, All-any}
use queuefy.Store.Memory.History.{memory_contract, after}

-- A run of a well-formed store that is over is never changed again, by any admissible history: it
-- stays as it ended, field for field, or its number names no run any more.
pub settled_forever :
    (s : MemoryStore) (cs : List Call) (i : ℕ) (a : Run)
    → IsWellFormed s
    → All Admissible cs
    → get s i ≡ some a
    → is_settled a.status ≡ true
    → (get (after s cs) i ≡ some a) ⊎ (get (after s cs) i ≡ none)
unfolding after
settled_forever s cs i a v ok here over =
    settled_stays memory_contract s cs i a v.numbered (All-any cs) here over

-- Every method of a holding attempt answers false for this number.
abbrev pub IsRefused : MemoryStore → ℕ → Text → ℤ → Type 0
IsRefused s i worker attempt =
    ((lease : ℕ) (moment : Instant) → heartbeat s i worker attempt lease moment ≡ (s, false))
    × ((moment : Instant) (result : Option Value)
        → complete s i worker attempt moment result ≡ (s, false))
    × ((moment : Instant) (error kind : Text)
        → (fail s i worker attempt moment error kind ≡ (s, false))
          × (retry_later s i worker attempt moment error kind ≡ (s, false))
          × (release s i worker attempt moment error kind ≡ (s, false)))

pub on_held-refused :
    (f : Run → Run) (s : MemoryStore) (i : ℕ) (worker : Text) (attempt : ℤ)
    → held s i worker attempt ≡ none
    → on_held f s i worker attempt ≡ (s, false)
on_held-refused f s i worker attempt e = elim (on_held_cases f s i worker attempt) [
  | inl (run, h, _) ↦
      let there : held s i worker attempt ≡ some run = (held_iff s i worker attempt run).1 h in
      absurd (cc)
  | inr (_, answer) ↦ answer
]

pub IsRefused-of_held :
    (s : MemoryStore) (i : ℕ) (worker : Text) (attempt : ℤ)
    → held s i worker attempt ≡ none
    → IsRefused s i worker attempt
unfolding heartbeat complete fail retry_later release requeue
IsRefused-of_held s i worker attempt e =
    let no_change = λ (f : Run → Run). on_held-refused f s i worker attempt e in
    (
      λ lease moment. no_change _,
      λ moment result. no_change _,
      λ moment error kind. (no_change _, no_change _, no_change _),
    )

held-settled :
    (s : MemoryStore) (i : ℕ) (worker : Text) (attempt : ℤ) (a : Run)
    → is_settled a.status ≡ true
    → (get s i ≡ some a) ⊎ (get s i ≡ none)
    → held s i worker attempt ≡ none
unfolding held holds is_settled same_status
held-settled s i worker attempt a over h = ground arith

-- An ending that was accepted leaves a run that nobody holds, after any history.
closed_once :
    (f : Run → Run) (s : MemoryStore) (cs : List Call) (i : ℕ) (w w' : Text) (n n' : ℤ)
    → ((r : Run) → is_settled (f r).status ≡ true)
    → IsWellFormed (on_held f s i w n).0
    → All Admissible cs
    → (on_held f s i w n).1 ≡ true
    → IsRefused (after (on_held f s i w n).0 cs) i w' n'
closed_once f s cs i w w' n n' ends v ok taken =
    let (run, h) = on_held-true f s i w n taken in
    let holds_it : held s i w n ≡ some run = (held_iff s i w n run).1 h in
    let here : get (on_held f s i w n).0 i ≡ some (f run) =
      get-on_held f s i w n i ∙ rw (==_refl i, holds_it, h.0) refl in
    IsRefused-of_held (after (on_held f s i w n).0 cs) i w' n' (
      held-settled (after (on_held f s i w n).0 cs) i w' n' (f run) (ends run)
        (settled_forever (on_held f s i w n).0 cs i (f run) v ok here (ends run)))

-- A run is closed as done once: when `complete` was accepted on a well-formed store, then after any
-- admissible history every ending and every beat for that run is refused and changes nothing, under
-- whatever name and attempt it is asked.
pub complete_once :
    (s : MemoryStore) (cs : List Call) (i : ℕ) (w w' : Text) (n n' : ℤ) (moment : Instant)
    (result : Option Value)
    → IsWellFormed s
    → All Admissible cs
    → (complete s i w n moment result).1 ≡ true
    → IsRefused (after (complete s i w n moment result).0 cs) i w' n'
unfolding complete step completed is_settled same_status
complete_once s cs i w w' n n' moment result v ok taken =
    closed_once (completed moment result) s cs i w w' n n' (λ r. refl)
      (step-IsWellFormed s (completes i w n moment result) v tt) ok taken

-- A run fails once, in the same sense.
pub fail_once :
    (s : MemoryStore) (cs : List Call) (i : ℕ) (w w' : Text) (n n' : ℤ) (moment : Instant)
    (error kind : Text)
    → IsWellFormed s
    → All Admissible cs
    → (fail s i w n moment error kind).1 ≡ true
    → IsRefused (after (fail s i w n moment error kind).0 cs) i w' n'
unfolding fail step gave_up is_settled same_status
fail_once s cs i w w' n n' moment error kind v ok taken =
    closed_once (gave_up moment error kind) s cs i w w' n n' (λ r. refl)
      (step-IsWellFormed s (fails i w n moment error kind) v tt) ok taken

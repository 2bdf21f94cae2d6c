-- ===== src/Store/Memory/Life/Steps.antt =====
-- Every call of the store makes at most one change of the relation to each run.
use queuefy.Prelude.{
  ℕ, ◌≡◌, refl, sym, ◌∙◌, inl, inr, true, some, List, arith, ◌==◌, Bool-cases, Option-cases, ==_iff,
}
use queuefy.Prelude.Int.{ℤ}
use queuefy.Prelude.Text.{Text}
use queuefy.Prelude.Assoc.{lookup, lookup-put, Distinct}
use queuefy.Run.{Run, Instant, pending, same_status, is_settled}
use queuefy.Store.Memory.Rows.{MemoryStore, get, add, taken}
use queuefy.Store.Memory.Rows.Exact.{Below, get-add, get-sequence}
use queuefy.Store.Memory.Claiming.{started, claim, claimable}
use queuefy.Store.Memory.Claiming.Exact.{picked, picked-claimable, get-claim}
use queuefy.Store.Memory.Holding.{
  holds, held, on_held, extended, completed, gave_up, requeued, heartbeat, complete, fail,
  retry_later, release, requeue,
}
use queuefy.Store.Memory.Holding.Exact.{held_iff, get-on_held, on_held_cases}
use queuefy.Store.Memory.Sweeping.{
  expired, taken_back, abandoned, reclaim, called_off, cancel, over_before, gone, purge,
}
use queuefy.Store.Memory.Sweeping.Exact.{
  abandoned-expired, get-reclaim, gone_over, get-purge, cancel_cases,
}
use queuefy.Store.Memory.Life.{
  frees, Call, adds, claims, beats, completes, fails, retries, releases, reclaims, cancels, purges,
  step, Act, extend, close, give_up, put_back, give_back, act, claimed, acted, lapsed, withdrawn,
  Row, same, changes, appears, drops,
}

on_held-Row :
    (x : Act) (s : MemoryStore) (id : ℕ) (worker : Text) (attempt : ℤ) (c : Call) (i : ℕ)
    → ((a : Run)
        → id ≡ i
        → holds a worker attempt ≡ true
        → same_status (act x a).status pending ≡ true
        → frees c i a ≡ true)
    → Row s c i (get (on_held (act x) s id worker attempt).0 i)
on_held-Row x s id worker attempt c i back = elim (Bool-cases (id == i)) [
  | inl this ↦ elim (on_held_cases (act x) s id worker attempt) [
    | inl (run, h, e) ↦
        let here : get s i ≡ some run = rw (← (==_iff id i).0 this) h.0 in
        let kept : held s id worker attempt ≡ some run = (held_iff s id worker attempt run).1 h in
        changes run (act x run) here
          (get-on_held (act x) s id worker attempt i ∙ rw (this, kept, here) refl)
          (acted worker attempt x h.1 refl) (back run ((==_iff id i).0 this) h.1)
    | inr (_, e) ↦ same (rw e)
  ]
  | inr other ↦ same (get-on_held (act x) s id worker attempt i ∙ rw other refl)
]

pub claimable_pending :
    (queues : List Text) (moment : Instant) (r : Run)
    → claimable queues moment r ≡ true
    → same_status r.status pending ≡ true
unfolding claimable
claimable_pending queues moment r h = ground arith

over_before_settled :
    (moment : Instant) (r : Run) → over_before moment r ≡ true → is_settled r.status ≡ true
unfolding over_before
over_before_settled moment r h = ground arith

started_not_pending :
    (worker : Text) (lease : ℕ) (moment : Instant) (r : Run) (c : Call) (i : ℕ)
    → same_status (started worker lease moment r).status pending ≡ true
    → frees c i r ≡ true
unfolding started same_status
started_not_pending worker lease moment r c i h = cc

module _ (s : MemoryStore) (d : Distinct s.runs) (c : Call) (i : ℕ) where
  claim-Row :
      (worker : Text) (queues : List Text) (limit lease : ℕ) (moment : Instant)
      → Row s c i (get (claim s worker queues limit lease moment).0 i)
  claim-Row worker queues limit lease moment =
      let law = get-claim s worker queues limit lease moment i d in
      elim (Option-cases (lookup i (picked s queues limit moment))) [
        | inl absent ↦ same (law ∙ rw absent refl)
        | inr (r, here) ↦
            let (held, may) = picked-claimable s worker queues limit lease moment i r d here in
            changes r (started worker lease moment r) held (law ∙ rw (here, held) refl)
              (claimed worker lease moment (claimable_pending queues moment r may) refl)
              (started_not_pending worker lease moment r c i)
      ]

  reclaim-Row : (moment : Instant) → Row s (reclaims moment) i (get (reclaim s moment).0 i)
  unfolding frees expired
  reclaim-Row moment =
      let law = get-reclaim s moment i d in
      elim (Option-cases (lookup i (abandoned s moment))) [
        | inl absent ↦ same (law ∙ rw absent refl)
        | inr (r, here) ↦
            let (held, over) = abandoned-expired s moment i r d here in
            changes r (taken_back moment r) held (law ∙ rw (here, held) refl)
              (lapsed moment over refl) (λ _. over)
      ]

  purge-Row : (moment : Instant) (limit : ℕ) → Row s c i (get (purge s moment limit).0 i)
  purge-Row moment limit =
      let law = get-purge s moment limit i d in
      elim (Option-cases (lookup i (gone s moment limit))) [
        | inl absent ↦ same (law ∙ rw absent refl)
        | inr (r, here) ↦
            let (held, over) = gone_over s moment limit i r d here in
            drops r held (over_before_settled moment r over) (law ∙ rw here refl)
      ]

cancel-Row :
    (s : MemoryStore) (id : ℕ) (moment : Instant) (c : Call) (i : ℕ)
    → Row s c i (get (cancel s id moment).0 i)
unfolding get same_status
cancel-Row s id moment c i = elim (cancel_cases s id moment) [
  | inl (run, here, waiting, e) ↦ elim (Bool-cases (id == i)) [
    | inl this ↦
        let held : get s i ≡ some run = rw (← (==_iff id i).0 this) here in
        changes run (called_off moment run) held
          (rw e (lookup-put id i (called_off moment run) s.runs ∙ rw (this, held) refl))
          (withdrawn moment waiting refl) (λ h. cc)
    | inr other ↦ same (rw e (lookup-put id i (called_off moment run) s.runs ∙ rw other refl))
  ]
  | inr e ↦ same (rw e)
]

add-Row :
    (s : MemoryStore) (b : Below s) (run : Run) (i : ℕ) → Row s (adds run) i (get (add s run).0 i)
add-Row s b run i = elim (Bool-cases (taken s run.key)) [
  | inl full ↦ same (get-add s run i b ∙ rw full refl)
  | inr free ↦ elim (Bool-cases (s.sequence == i)) [
    | inl this ↦
        let e : s.sequence ≡ i = (==_iff s.sequence i).0 this in
        appears run refl (sym e) (rw (← e) (get-sequence s b)) free
          (get-add s run i b ∙ rw (free, this) refl)
    | inr other ↦ same (get-add s run i b ∙ rw (free, other) refl)
  ]
]

-- In a store with distinct numbers below its counter, a call leaves what stands under a number as it
-- is, or makes one change in the life of a run (claimed, acted on by its holder, lapsed, withdrawn),
-- or adds a run whose key was free under the next number, or drops a run that is over; and a change
-- leaves a run waiting only when the call is one that frees it.
pub step-Row :
    (s : MemoryStore) (c : Call) (i : ℕ) → Distinct s.runs → Below s → Row s c i (get (step s c) i)
unfolding step act heartbeat complete fail retry_later release requeue frees same_status extended
    completed gave_up requeued holds
step-Row s (adds run) i d b = add-Row s b run i
step-Row s (claims worker queues limit lease moment) i d b =
    claim-Row s d _ i worker queues limit lease moment
step-Row s (beats id worker attempt lease moment) i d b =
    on_held-Row (extend lease moment) s id worker attempt _ i (λ a e h b. ground arith)
step-Row s (completes id worker attempt moment result) i d b =
    on_held-Row (close moment result) s id worker attempt _ i (λ a e h b. ground arith)
step-Row s (fails id worker attempt moment error kind) i d b =
    on_held-Row (give_up moment error kind) s id worker attempt _ i (λ a e h b. ground arith)
step-Row s (retries id worker attempt due_at error kind) i d b =
    on_held-Row (put_back due_at error kind) s id worker attempt _ i (λ a e h b. ground arith)
step-Row s (releases id worker attempt due_at error kind) i d b =
    on_held-Row (give_back due_at error kind) s id worker attempt _ i (λ a e h b. ground arith)
step-Row s (reclaims moment) i d b = reclaim-Row s d (reclaims moment) i moment
step-Row s (cancels id moment) i d b = cancel-Row s id moment _ i
step-Row s (purges moment limit) i d b = purge-Row s d _ i moment limit

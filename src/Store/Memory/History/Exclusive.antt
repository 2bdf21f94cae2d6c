-- ===== src/Store/Memory/History/Exclusive.antt =====
-- One run on one worker: a run that was claimed is not handed out again before it is put back.
use queuefy.Prelude.{
  ℕ, ◌≡◌, refl, sym, subst, ◌∙◌, All-Mem, inl, inr, true, false, none, some, List, Option-cases,
  All,
}
use mathlib.Core.List.{Memᴰ}
use mathlib.Core.Option.{some-injective}
use queuefy.Prelude.Text.{Text}
use queuefy.Prelude.Assoc.{lookup}
use queuefy.Run.{Run, Instant, pending, same_status}
use queuefy.Store.Memory.Rows.{MemoryStore, get}
use queuefy.Store.Memory.Claiming.{claim, started}
use queuefy.Store.Memory.Claiming.Exact.{picked, picked-claimable, get-claim}
use queuefy.Store.Memory.Claiming.Answered.{answered}
use queuefy.Store.Memory.Holding.{held}
use queuefy.Store.Memory.Life.{Call, claims, step}
use queuefy.Store.Memory.Invariant.{IsWellFormed, Admissible, step-IsWellFormed}
use queuefy.Store.Contract.History.{IsTaken, Quiet, get-Below, after-IsTaken, All-any}
use queuefy.Store.Memory.History.{memory_contract, after, after-IsWellFormed}
use queuefy.Store.Memory.Life.Steps.{claimable_pending}

-- No call of the history puts the run back in the queue: neither the attempt that holds it, nor a
-- reclaim at an instant past its lease.
abbrev pub Undisturbed : MemoryStore → List Call → ℕ → Type 0
Undisturbed = Quiet memory_contract

started-not-pending :
    (worker : Text) (lease : ℕ) (moment : Instant) (r : Run)
    → same_status (started worker lease moment r).status pending ≡ false
unfolding started same_status
started-not-pending worker lease moment r = refl

-- A run that a claim picked is not picked by a later one.
pick_once :
    (s : MemoryStore) (cs : List Call) (i : ℕ) (r : Run) (worker : Text)
    (queues queues' : List Text) (limit limit' lease : ℕ) (moment moment' : Instant)
    → IsWellFormed s
    → All Admissible cs
    → lookup i (picked s queues limit moment) ≡ some r
    → Undisturbed (claim s worker queues limit lease moment).0 cs i
    → lookup i
        (picked (after (claim s worker queues limit lease moment).0 cs) queues' limit' moment')
      ≡ none
unfolding step after
pick_once s cs i r worker queues queues' limit limit' lease moment moment' v ok here u =
    let c = claims worker queues limit lease moment in
    let v' : IsWellFormed (step s c) = step-IsWellFormed s c v tt in
    let (held, may) =
      picked-claimable s worker queues limit lease moment i r v.numbered.distinct here in
    let after_claim : get (step s c) i ≡ some (started worker lease moment r) =
      get-claim s worker queues limit lease moment i v.numbered.distinct ∙ rw (here, held) refl in
    let taken : IsTaken (step s c) i = (
      get-Below (step s c) i (started worker lease moment r) v'.numbered.below after_claim,
      λ a h.
          rw (some-injective a (started worker lease moment r) (sym h ∙ after_claim))
            (started-not-pending worker lease moment r),
    ) in
    let t = after-IsTaken memory_contract (step s c) cs i v'.numbered (All-any cs) taken u in
    let w = after-IsWellFormed (step s c) cs v' ok in
    elim (Option-cases (lookup i (picked (after (step s c) cs) queues' limit' moment'))) [
      | inl absent ↦ absent
      | inr (b, again) ↦
          let (there, may') =
            picked-claimable (after (step s c) cs) worker queues' limit' lease moment' i b
              w.numbered.distinct again in
          let waits : same_status b.status pending ≡ true =
            claimable_pending queues' moment' b may' in
          let not_waiting : same_status b.status pending ≡ false = t.1 b there in absurd (cc)
    ]

-- A run that a claim answered with, from a well-formed store, is in the answer of no later claim, of
-- any worker, over any admissible history in which neither its holder puts it back nor a reclaim finds
-- its lease run out.
pub claim_once :
    (s : MemoryStore) (cs : List Call) (i : ℕ) (r : Run) (worker worker' : Text)
    (queues queues' : List Text) (limit limit' lease lease' : ℕ) (moment moment' : Instant)
    → IsWellFormed s
    → All Admissible cs
    → Memᴰ r (claim s worker queues limit lease moment).1
    → r.id ≡ some i
    → Undisturbed (claim s worker queues limit lease moment).0 cs i
    → All
        (λ x. ¬ (x.id ≡ some i))
        (claim
          (after (claim s worker queues limit lease moment).0 cs)
          worker'
          queues'
          limit'
          lease'
          moment').1
unfolding step started
claim_once s cs i r worker worker' queues queues' limit limit' lease lease' moment moment' v ok mem
      id u =
    let s' = (claim s worker queues limit lease moment).0 in
    let v' : IsWellFormed s' = step-IsWellFormed s (claims worker queues limit lease moment) v tt in
    let w = after-IsWellFormed s' cs v' ok in
    let Origin : Run → Type 0 = λ x.
      (j : ℕ) × (a : Run) × (lookup j (picked s queues limit moment) ≡ some a) × (x.id ≡ some j) in
    let (j, a, there, name) =
      All-Mem Origin r (claim s worker queues limit lease moment).1
        (answered s worker queues limit lease moment v Origin λ j a there id. (j, a, there, id))
        mem in
    let one : j ≡ i = some-injective j i (sym name ∙ id) in
    let gone =
      pick_once s cs i a worker queues queues' limit limit' lease moment moment' v ok
        (subst (λ k. lookup k (picked s queues limit moment) ≡ some a) one there) u in
    answered (after s' cs) worker' queues' limit' lease' moment' w (λ x. ¬ (x.id ≡ some i))
      λ k b again name' id'.
        let same : k ≡ i = some-injective k i (sym name' ∙ id') in
        let here : lookup i (picked (after s' cs) queues' limit' moment') ≡ some b =
          subst (λ m. lookup m (picked (after s' cs) queues' limit' moment') ≡ some b) same again in
        absurd (cc)

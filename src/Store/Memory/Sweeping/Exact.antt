-- ===== src/Store/Memory/Sweeping/Exact.antt =====
-- Which runs `reclaim`, `cancel` and `purge` touch, and how many.
use queuefy.Prelude.{
  ℕ, ◌≡◌, inl, inr, ◌⊎◌, true, false, some, arith, Bool-cases, Option-cases, keep, length, min,
  length-take,
}
use queuefy.Prelude.Assoc.{
  lookup, put, changed, lookup-put_each, lookup-remove_each, cleared, Distinct, lookup-keep,
  keep-Distinct, lookup-take, take-Distinct,
}
use queuefy.Run.{Run, Instant, pending, same_status}
use queuefy.Store.Base.{reclaim_batch}
use queuefy.Store.Memory.Rows.{Entry, MemoryStore, get}
use queuefy.Store.Memory.Sweeping.{
  expired, taken_back, abandoned, reclaim, called_off, cancel, over_before, gone, purge,
}

module _ (s : MemoryStore) (moment : Instant) where
  pub abandoned-Distinct : Distinct s.runs → Distinct (abandoned s moment)
  unfolding abandoned
  abandoned-Distinct d =
      take-Distinct reclaim_batch (keep (λ (e : Entry). expired moment e.1) s.runs)
        (keep-Distinct (λ (e : Entry). expired moment e.1) s.runs d)

  -- What `reclaim` takes back is in the store, running, under a lease that ran out.
  pub abandoned-expired :
      (i : ℕ) (r : Run)
      → Distinct s.runs
      → lookup i (abandoned s moment) ≡ some r
      → (get s i ≡ some r) × (expired moment r ≡ true)
  unfolding get abandoned
  abandoned-expired i r d e = ground (
    arith,
    lookup-take reclaim_batch i (keep (λ (x : Entry). expired moment x.1) s.runs) r e,
    lookup-keep (λ (x : Entry). expired moment x.1) i s.runs d,
  )

  pub get-reclaim :
      (i : ℕ)
      → Distinct s.runs
      → get (reclaim s moment).0 i
        ≡ changed (taken_back moment) (lookup i (abandoned s moment)) (get s i)
  unfolding get reclaim
  get-reclaim i d =
      lookup-put_each (taken_back moment) i (abandoned s moment) s.runs (abandoned-Distinct d)

  -- A pass takes back every expired lease, up to the batch.
  pub reclaim_count :
      (reclaim s moment).1
      ≡ min reclaim_batch (length (keep (λ (e : Entry). expired moment e.1) s.runs))
  unfolding reclaim abandoned
  reclaim_count = length-take reclaim_batch (keep (λ (e : Entry). expired moment e.1) s.runs)

module _ (s : MemoryStore) (moment : Instant) (limit : ℕ) where
  -- What `purge` drops is in the store, over, and was over before the instant.
  pub gone_over :
      (i : ℕ) (r : Run)
      → Distinct s.runs
      → lookup i (gone s moment limit) ≡ some r
      → (get s i ≡ some r) × (over_before moment r ≡ true)
  unfolding get gone
  gone_over i r d e = ground (
    arith,
    lookup-take limit i (keep (λ (x : Entry). over_before moment x.1) s.runs) r e,
    lookup-keep (λ (x : Entry). over_before moment x.1) i s.runs d,
  )

  -- The runs that a pruning drops name nothing any more, and no other run changes.
  pub get-purge :
      (i : ℕ)
      → Distinct s.runs
      → get (purge s moment limit).0 i ≡ cleared (lookup i (gone s moment limit)) (get s i)
  unfolding get purge
  get-purge i d = lookup-remove_each i (gone s moment limit) s.runs d

  pub purge_count :
      (purge s moment limit).1
      ≡ min limit (length (keep (λ (e : Entry). over_before moment e.1) s.runs))
  unfolding purge gone
  purge_count = length-take limit (keep (λ (e : Entry). over_before moment e.1) s.runs)

module _ (s : MemoryStore) (id : ℕ) (moment : Instant) where
  abbrev pub CalledOff : Type 0
  CalledOff =
      (run : Run) × (get s id ≡ some run)
      × (same_status run.status pending ≡ true)
      × (cancel s id moment ≡ (record s { runs = put id (called_off moment run) s.runs }, true))

  -- A cancel takes a run that waits out of the queue as canceled, and otherwise answers false and
  -- changes nothing.
  pub cancel_cases : CalledOff ⊎ (cancel s id moment ≡ (s, false))
  unfolding cancel
  cancel_cases = elim (Option-cases (get s id)) [
    | inl absent ↦ inr (rw (absent, cancel))
    | inr (run, here) ↦ elim (Bool-cases (same_status run.status pending)) [
      | inl waiting ↦ inl (run, here, waiting, rw (here, cancel) (rw waiting))
      | inr not_waiting ↦ inr (rw (here, cancel) (rw not_waiting))
    ]
  ]

-- ===== src/Store/Memory/Sweeping/Recovery.antt =====
-- What a dead worker held comes back: the outcome of `reclaim` for each run.
use mathlib.Core.Option.{some-injective}
use queuefy.Prelude.{
  not, none, ℕ, ◌≡◌, sym, ◌∙◌, inl, inr, true, false, some, List, arith, Option-cases,
}
use queuefy.Prelude.Text.{Text}
use queuefy.Prelude.Assoc.{lookup, Distinct}
use queuefy.Run.{Run, Instant, same_status, is_settled, exhausted}
use queuefy.Store.Memory.Rows.{MemoryStore, get}
use queuefy.Store.Memory.Claiming.{claimable, serves}
use queuefy.Store.Memory.Sweeping.{expired, taken_back, abandoned, reclaim}
use queuefy.Store.Memory.Sweeping.Exact.{get-reclaim, abandoned-expired}

module _ (s : MemoryStore) (moment : Instant) (i : ℕ) (r : Run) (d : Distinct s.runs)
    (here : get s i ≡ some r) where
  -- Whatever the size of the batch, a lease that has not run out is left alone: the run whose lease
  -- ends at the instant itself included.
  pub reclaim_spares : expired moment r ≡ false → get (reclaim s moment).0 i ≡ some r
  reclaim_spares fresh =
      get-reclaim s moment i d ∙ elim (Option-cases (lookup i (abandoned s moment))) [
        | inl absent ↦ rw (absent, here)
        | inr (x, over) ↦
            let (there, late) = abandoned-expired s moment i x d over in
            let this : x ≡ r = some-injective x r (sym there ∙ here) in
            let late' : expired moment r ≡ true = rw this at late in absurd (cc)
      ]

-- A run taken back may be claimed at once by whoever serves its queue exactly when it has attempts
-- left, and is over exactly when it has none; it has spent what it had spent, and nobody holds it.
pub taken_back_outcome :
    (moment : Instant) (queues : List Text) (r : Run)
    → serves queues r.queue ≡ true
    → (claimable queues moment (taken_back moment r) ≡ not (exhausted r))
      × (is_settled (taken_back moment r).status ≡ exhausted r)
      × ((taken_back moment r).attempts ≡ r.attempts)
      × ((taken_back moment r).worker ≡ none)
unfolding claimable taken_back exhausted same_status is_settled
taken_back_outcome moment queues r h = ground arith

-- ===== src/Store/Memory/Invariant/Numbers.antt =====
-- The numbers of the runs: each is given once, and is below the next one.
use queuefy.Prelude.{ℕ, ◌<◌, ◌≤◌, suc, refl, inl, inr, List, arith, Bool-cases, All-map}
use queuefy.Prelude.Int.{ℤ, pos, negsuc}
use queuefy.Prelude.Text.{Text}
use queuefy.Prelude.Assoc.{
  lookup_past, append-Distinct, append-All, put-Distinct, put_each, put_each-Distinct,
  put_each_keys, put_keys, put, remove_each-Distinct, remove_each-All, Distinct,
}
use queuefy.Run.{Run, Instant}
use queuefy.Store.Memory.Rows.{Entry, MemoryStore, add, taken}
use queuefy.Store.Memory.Rows.Exact.{written, Below}
use queuefy.Store.Memory.Claiming.{started}
use queuefy.Store.Memory.Holding.{extended, completed, gave_up, requeued}
use queuefy.Store.Memory.Sweeping.{taken_back, called_off}
use queuefy.Store.Memory.Life.{Call, adds, step}
use queuefy.Store.Memory.Rows.{taken}
use queuefy.Store.Memory.Claiming.{claim}
use queuefy.Store.Memory.Claiming.Exact.{claim_lem, picked}
use queuefy.Store.Memory.Holding.{on_held, heartbeat, complete, fail, retry_later, release, requeue}
use queuefy.Store.Memory.Holding.Exact.{on_held_cases}
use queuefy.Store.Memory.Sweeping.{reclaim, abandoned, cancel, purge, gone}
use queuefy.Store.Memory.Sweeping.Exact.{cancel_cases}
use queuefy.Store.Memory.Life.{
  claims, beats, completes, fails, retries, releases, reclaims, cancels, purges,
}

-- Every run stands under a number of its own, below the next one to be given.
pub record Numbered (s : MemoryStore) : Type 0 where
  pub distinct : Distinct s.runs
  pub below : Below s

-- Numbers that are not given yet can be passed over.
pub raise-Numbered :
    (s : MemoryStore) (n : ℕ) → s.sequence ≤ n → Numbered s → Numbered (record s { sequence = n })
raise-Numbered s n low v = record {
  distinct = v.distinct;
  below = All-map (λ (e : Entry) h. omega arith) s.runs v.below;
}

module _ (s : MemoryStore) (h : Numbered s) where
  add-Numbered : (run : Run) → Numbered (add s run).0
  unfolding add
  add-Numbered run = elim (Bool-cases (taken s run.key)) [
    | inl full ↦ rw full h
    | inr free ↦ rw free (record {
      distinct =
          append-Distinct s.sequence (written s run) s.runs
            (lookup_past s.sequence s.sequence s.runs h.below refl) h.distinct;
      below =
          append-All (λ (e : Entry). e.0 < suc s.sequence) (s.sequence, written s run) s.runs
            (omega arith)
            (All-map (λ (e : Entry) (l : e.0 < s.sequence). omega arith) s.runs h.below);
    })
  ]

  -- Writing over runs that are there keeps the numbers.
  put_each-Numbered :
      (f : Run → Run) (es : List Entry) → Numbered (record s { runs = put_each f es s.runs })
  put_each-Numbered f es = record {
    distinct = put_each-Distinct f es s.runs h.distinct;
    below = put_each_keys (λ (e : Entry). e.0 < s.sequence) f es s.runs (λ k v w l. l) h.below;
  }

  claim-Numbered :
      (worker : Text) (queues : List Text) (limit lease : ℕ) (moment : Instant)
      → Numbered (claim s worker queues limit lease moment).0
  claim-Numbered worker queues limit lease moment =
      rw (claim_lem s worker queues limit lease moment)
        (put_each-Numbered (started worker lease moment) (picked s queues limit moment))

  put-Numbered : (i : ℕ) (r : Run) → Numbered (record s { runs = put i r s.runs })
  put-Numbered i r = record {
    distinct = put-Distinct i r s.runs h.distinct;
    below = put_keys (λ (e : Entry). e.0 < s.sequence) i r s.runs (λ k v w l. l) h.below;
  }

  on_held-Numbered :
      (f : Run → Run) (id : ℕ) (worker : Text) (attempt : ℤ)
      → Numbered (on_held f s id worker attempt).0
  on_held-Numbered f id worker attempt = elim (on_held_cases f s id worker attempt) [
    | inl (run, _, e) ↦ rw e (put-Numbered id (f run))
    | inr (_, e) ↦ rw e h
  ]

  cancel-Numbered : (id : ℕ) (moment : Instant) → Numbered (cancel s id moment).0
  cancel-Numbered id moment = elim (cancel_cases s id moment) [
    | inl (run, _, _, e) ↦ rw e (put-Numbered id (called_off moment run))
    | inr e ↦ rw e h
  ]

  purge-Numbered : (moment : Instant) (limit : ℕ) → Numbered (purge s moment limit).0
  unfolding purge
  purge-Numbered moment limit = record {
    distinct = remove_each-Distinct (gone s moment limit) s.runs h.distinct;
    below = remove_each-All (λ (e : Entry). e.0 < s.sequence) (gone s moment limit) s.runs h.below;
  }

pub step-Numbered : (s : MemoryStore) (c : Call) → Numbered s → Numbered (step s c)
unfolding step heartbeat complete fail retry_later release requeue reclaim
step-Numbered s (adds run) h = add-Numbered s h run
step-Numbered s (claims worker queues limit lease moment) h =
    claim-Numbered s h worker queues limit lease moment
step-Numbered s (beats id worker attempt lease moment) h =
    on_held-Numbered s h (extended lease moment) id worker attempt
step-Numbered s (completes id worker attempt moment result) h =
    on_held-Numbered s h (completed moment result) id worker attempt
step-Numbered s (fails id worker attempt moment error kind) h =
    on_held-Numbered s h (gave_up moment error kind) id worker attempt
step-Numbered s (retries id worker attempt due_at error kind) h =
    on_held-Numbered s h (requeued due_at error kind (pos 0)) id worker attempt
step-Numbered s (releases id worker attempt due_at error kind) h =
    on_held-Numbered s h (requeued due_at error kind (negsuc 0)) id worker attempt
step-Numbered s (reclaims moment) h = put_each-Numbered s h (taken_back moment) (abandoned s moment)
step-Numbered s (cancels id moment) h = cancel-Numbered s h id moment
step-Numbered s (purges moment limit) h = purge-Numbered s h moment limit

-- ===== src/Store/Memory/Life.antt =====
-- The life of one run in the store: the changes that a call may make to it.
pub mod Steps
use queuefy.Prelude.{
  ℕ, ◌≡◌, refl, sym, ap, ◌∙◌, inl, inr, ◌⊎◌, Bool, true, false, none, some, List, [], Option, ◌∷◌,
  arith, ◌==◌, ◌&&◌, if◌then◌else◌, Bool-cases, Option-cases, ==_iff,
}
use queuefy.Prelude.Int.{ℤ, pos, negsuc}
use queuefy.Prelude.Text.{Text}
use queuefy.Prelude.Assoc.{lookup, lookup-put, Distinct, changed, cleared}
use queuefy.Value.{Value}
use queuefy.Run.{Run, Instant, pending, running, same_status, is_settled}
use queuefy.Store.Memory.Rows.{Entry, MemoryStore, get, add, taken}
use queuefy.Store.Memory.Rows.Exact.{written, Below, get-add, get-sequence}
use queuefy.Store.Memory.Claiming.{started, claim, claimable}
use queuefy.Store.Memory.Claiming.Exact.{picked, picked-claimable, get-claim}
use queuefy.Store.Memory.Holding.{
  holds, held, on_held, extended, completed, gave_up, requeued, heartbeat, complete, fail,
  retry_later, release, requeue,
}
use queuefy.Store.Memory.Holding.Exact.{held_iff, get-on_held, on_held_cases}
use queuefy.Store.Memory.Sweeping.{
  expired, taken_back, abandoned, reclaim, called_off, cancel, over_before, gone, purge,
}
use queuefy.Store.Memory.Sweeping.Exact.{
  abandoned-expired, get-reclaim, gone_over, get-purge, cancel_cases,
}

-- A call of the store that may change it.
pub data Call : Type 0 where
  adds : Run → Call
  claims : (worker : Text) (queues : List Text) (limit lease : ℕ) → Instant → Call
  beats : (id : ℕ) (worker : Text) (attempt : ℤ) (lease : ℕ) → Instant → Call
  completes : (id : ℕ) (worker : Text) (attempt : ℤ) → Instant → Option Value → Call
  fails retries releases :
      (id : ℕ) (worker : Text) (attempt : ℤ) → Instant → (error kind : Text) → Call
  reclaims : Instant → Call
  cancels : ℕ → Instant → Call
  purges : Instant → (limit : ℕ) → Call

unfoldable pub step : MemoryStore → Call → MemoryStore
step s (adds run) = (add s run).0
step s (claims worker queues limit lease moment) = (claim s worker queues limit lease moment).0
step s (beats id worker attempt lease moment) = (heartbeat s id worker attempt lease moment).0
step s (completes id worker attempt moment result) = (complete s id worker attempt moment result).0
step s (fails id worker attempt moment error kind) = (fail s id worker attempt moment error kind).0
step s (retries id worker attempt due_at error kind) =
    (retry_later s id worker attempt due_at error kind).0
step s (releases id worker attempt due_at error kind) =
    (release s id worker attempt due_at error kind).0
step s (reclaims moment) = (reclaim s moment).0
step s (cancels id moment) = (cancel s id moment).0
step s (purges moment limit) = (purge s moment limit).0

-- What an attempt that holds a run may turn it into.
pub data Act : Type 0 where
  extend : (lease : ℕ) → Instant → Act
  close : Instant → Option Value → Act
  give_up : Instant → (error kind : Text) → Act
  put_back give_back : Instant → (error kind : Text) → Act

unfoldable pub act : Act → Run → Run
unfolding extended completed gave_up requeued
act (extend lease moment) = extended lease moment
act (close moment result) = completed moment result
act (give_up moment error kind) = gave_up moment error kind
act (put_back due_at error kind) = requeued due_at error kind (pos 0)
act (give_back due_at error kind) = requeued due_at error kind (negsuc 0)

pub data Change (a b : Run) : Type 0 where
  claimed :
      (worker : Text) (lease : ℕ) (moment : Instant)
      → same_status a.status pending ≡ true
      → b ≡ started worker lease moment a
      → Change a b
  acted :
      (worker : Text) (attempt : ℤ) (x : Act)
      → holds a worker attempt ≡ true
      → b ≡ act x a
      → Change a b
  lapsed : (moment : Instant) → expired moment a ≡ true → b ≡ taken_back moment a → Change a b
  withdrawn :
      (moment : Instant)
      → same_status a.status pending ≡ true
      → b ≡ called_off moment a
      → Change a b

-- The calls that put a run back in the queue: of the attempt that holds it, or a reclaim after its
-- lease ran out.
unfoldable pub frees : Call → ℕ → Run → Bool
unfolding holds expired
frees (retries id worker attempt due_at error kind) i a = id == i && holds a worker attempt
frees (releases id worker attempt due_at error kind) i a = id == i && holds a worker attempt
frees (reclaims moment) i a = expired moment a
frees _ i a = false

-- What one call does to what stands under a number.
pub data Row (s : MemoryStore) (c : Call) (i : ℕ) (after : Option Run) : Type 0 where
  same : after ≡ get s i → Row s c i after
  changes :
      (a b : Run)
      → get s i ≡ some a
      → after ≡ some b
      → Change a b
      → (same_status b.status pending ≡ true → frees c i a ≡ true)
      → Row s c i after
  appears :
      (run : Run)
      → c ≡ adds run
      → i ≡ s.sequence
      → get s i ≡ none
      → taken s run.key ≡ false
      → after ≡ some (written s run)
      → Row s c i after
  drops : (a : Run) → get s i ≡ some a → is_settled a.status ≡ true → after ≡ none → Row s c i after

-- ===== src/Store/Memory/Holding/Attempts.antt =====
-- What an attempt counts for: nothing is lost and nothing is spent twice between a claim and the
-- end that the worker writes for it.
use queuefy.Prelude.{ℕ, ◌≡◌, refl, ◌∙◌, true, some, List, arith, ==_refl}
use queuefy.Prelude.Int.{ℤ, pos, negsuc, ◌+ℤ◌, ==ℤ_iff}
use queuefy.Prelude.Text.{Text, eq_refl}
use queuefy.Prelude.Assoc.{lookup, Distinct}
use queuefy.Run.{Run, Instant, pending, same_status}
use queuefy.Store.Memory.Rows.{MemoryStore, get}
use queuefy.Store.Memory.Claiming.{started, claim}
use queuefy.Store.Memory.Claiming.Exact.{picked, picked-claimable, get-claim}
use queuefy.Store.Memory.Holding.{holds, held, on_held, requeued, release, retry_later, requeue}
use queuefy.Store.Memory.Holding.Exact.{held_iff, get-on_held}

started-holds :
    (worker : Text) (lease : ℕ) (moment : Instant) (r : Run)
    → holds (started worker lease moment r) worker (r.attempts +ℤ pos 1) ≡ true
unfolding holds started same_status
started-holds worker lease moment r =
    rw (eq_refl worker, (==ℤ_iff (r.attempts +ℤ pos 1) (r.attempts +ℤ pos 1)).1 refl)

give_back : (a : ℤ) → a +ℤ pos 1 +ℤ negsuc 0 ≡ a
unfolding ◌+ℤ◌
give_back a = ground arith

pub stand : (a : ℤ) → a +ℤ pos 0 ≡ a
unfolding ◌+ℤ◌
stand a = ground arith

module _ (s : MemoryStore) (worker : Text) (queues : List Text) (limit lease : ℕ) (moment : Instant)
    (i : ℕ) (r : Run) (d : Distinct s.runs)
    (here : lookup i (picked s queues limit moment) ≡ some r) where
  -- The worker that claimed a run holds it under the attempt that the claim counted.
  pub claim-held :
      held (claim s worker queues limit lease moment).0 i worker (r.attempts +ℤ pos 1)
      ≡ some (started worker lease moment r)
  claim-held =
      (held_iff (claim s worker queues limit lease moment).0 i worker (r.attempts +ℤ pos 1)
          (started worker lease moment r)).1
        (
          get-claim s worker queues limit lease moment i d
              ∙ rw (here, (picked-claimable s worker queues limit lease moment i r d here).0) refl,
          started-holds worker lease moment r,
        )

  on_claimed :
      (f : Run → Run)
      → get
          (on_held f (claim s worker queues limit lease moment).0 i worker (r.attempts +ℤ pos 1)).0
          i
        ≡ some (f (started worker lease moment r))
  on_claimed f =
      let after_claim = (claim s worker queues limit lease moment).0 in
      get-on_held f after_claim i worker (r.attempts +ℤ pos 1) i
      ∙ rw
          (
            ==_refl i,
            claim-held,
            ((held_iff after_claim i worker (r.attempts +ℤ pos 1) (started worker lease moment r)).0
                claim-held).0,
          )
          refl

-- A run that was claimed and is released by the attempt that claimed it waits again, due when it was
-- asked for, with as many attempts spent as before the claim; one that is put back to be tried again
-- has spent one more.
pub claim_accounting :
    (s : MemoryStore) (worker : Text) (queues : List Text) (limit lease : ℕ) (moment : Instant)
    (i : ℕ) (r : Run) (due_at : Instant) (error kind : Text)
    → Distinct s.runs
    → lookup i (picked s queues limit moment) ≡ some r
    → let s' = (claim s worker queues limit lease moment).0 in
      let attempt = r.attempts +ℤ pos 1 in
      ((b : Run) × (get (release s' i worker attempt due_at error kind).0 i ≡ some b)
        × (b.status ≡ pending)
        × (b.due_at ≡ due_at)
        × (b.attempts ≡ r.attempts))
      × ((b : Run) × (get (retry_later s' i worker attempt due_at error kind).0 i ≡ some b)
          × (b.status ≡ pending)
          × (b.due_at ≡ due_at)
          × (b.attempts ≡ attempt))
unfolding release retry_later requeue requeued started
claim_accounting s worker queues limit lease moment i r due_at error kind d here =
    let again = on_claimed s worker queues limit lease moment i r d here in
    (
      (
        requeued due_at error kind (negsuc 0) (started worker lease moment r),
        again (requeued due_at error kind (negsuc 0)),
        refl,
        refl,
        give_back r.attempts,
      ),
      (
        requeued due_at error kind (pos 0) (started worker lease moment r),
        again (requeued due_at error kind (pos 0)),
        refl,
        refl,
        stand (r.attempts +ℤ pos 1),
      ),
    )

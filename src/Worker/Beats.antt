-- ===== src/Worker/Beats.antt =====
-- src/queuefy/worker.py: `push`, the beat of an attempt, over the memory store.
-- A beat asks the store and leaves its answer be; a store that raised would change nothing either.
use queuefy.Prelude.{ℕ, ◌+◌, ◌≤◌, ◌≡◌, sym, subst, Option, none, some, true, false, arith}
use queuefy.Prelude.Int.{ℤ}
use queuefy.Prelude.Text.{Text}
use queuefy.Run.{Run, Instant, same_status}
use queuefy.Store.Memory.Rows.{MemoryStore}
use queuefy.Store.Memory.Holding.{holds, held, extended, heartbeat}
use queuefy.Store.Memory.Holding.Exact.{held_iff}
use queuefy.Store.Memory.Sweeping.{expired, reclaim}
use queuefy.Store.Memory.Sweeping.Recovery.{reclaim_spares}
use queuefy.Store.Memory.Life.{beats, step}
use queuefy.Store.Memory.Invariant.Numbers.{Numbered, step-Numbered}
use queuefy.Worker.Endings.Recorded.{on_held_change}

module _ (name : Text) (lease : ℕ) where
  unfoldable pub push_under : Option ℕ → MemoryStore → Run → Instant → MemoryStore
  unfolding heartbeat
  push_under none s run now = s
  push_under (some id) s run now = (heartbeat s id name run.attempts lease now).0

  unfoldable pub push : MemoryStore → Run → Instant → MemoryStore
  unfolding push_under
  push s run now = push_under run.id s run now

  beaten_fresh :
      (r : Run) (now moment : Instant)
      → moment ≤ now + lease
      → expired moment (extended lease now r) ≡ false
  unfolding expired extended same_status
  beaten_fresh r now moment l = ground arith

  beaten-holds :
      (r : Run) (worker : Text) (attempt : ℤ) (now : Instant)
      → holds r worker attempt ≡ true
      → holds (extended lease now r) worker attempt ≡ true
  unfolding holds extended
  beaten-holds r worker attempt now h = h

  push_under-held :
      (s : MemoryStore) (run stored : Run) (id : ℕ) (now moment : Instant)
      → Numbered s
      → held s id name run.attempts ≡ some stored
      → moment ≤ now + lease
      → held (reclaim (push_under (some id) s run now) moment).0 id name run.attempts
        ≡ some (extended lease now stored)
  unfolding push_under heartbeat step
  push_under-held s run stored id now moment n holder l =
      let s' = (heartbeat s id name run.attempts lease now).0 in
      let (_, row) = on_held_change (extended lease now) s id name run.attempts stored holder in
      let n' : Numbered s' = step-Numbered s (beats id name run.attempts lease now) n in
      let kept =
        reclaim_spares s' moment id (extended lease now stored) n'.distinct row
          (beaten_fresh stored now moment l) in
      let (_, h) = (held_iff s id name run.attempts stored).0 holder in
      (held_iff (reclaim s' moment).0 id name run.attempts (extended lease now stored)).1
        (kept, beaten-holds stored name run.attempts now h)

-- After a beat of the attempt that holds a run, a reclaim at any instant up to the end of the new
-- lease leaves that attempt holding it, with the lease that the beat gave it.
pub push-held :
    (name : Text) (lease : ℕ) (s : MemoryStore) (run stored : Run) (id : ℕ) (now moment : Instant)
    → Numbered s
    → run.id ≡ some id
    → held s id name run.attempts ≡ some stored
    → moment ≤ now + lease
    → held (reclaim (push name lease s run now) moment).0 id name run.attempts
      ≡ some (extended lease now stored)
unfolding push
push-held name lease s run stored id now moment n here holder l =
    subst
      (λ o.
        held (reclaim (push_under name lease o s run now) moment).0 id name run.attempts
        ≡ some (extended lease now stored))
      (sym here) (push_under-held name lease s run stored id now moment n holder l)

-- ===== src/Store/Memory/Claiming.antt =====
-- src/queuefy/store/memory.py: `claim`.
pub mod Order
pub mod Exact
pub mod Answered
use queuefy.Prelude.{
  ℕ, ◌+◌, ◌*◌, Bool, ◌&&◌, ◌||◌, some, List, [], ◌∷◌, ◌++◌, ltb, leb, ◌==◌, if◌then◌else◌, length,
  take, keep, any,
}
use queuefy.Prelude.Int.{pos, ltb_ℤ, ◌==ℤ◌, ◌+ℤ◌}
use queuefy.Prelude.Text.{Text, ◌==◌ as text_eq}
use queuefy.Prelude.Assoc.{put}
use queuefy.Run.{Run, Instant, pending, running, same_status}
use queuefy.Store.Base.{claim_spread}
use queuefy.Store.Memory.Rows.{Entry, MemoryStore}

unfoldable pub serves : List Text → Text → Bool
serves queues q = any (λ name. text_eq q name) queues

unfoldable pub claimable : List Text → Instant → Run → Bool
unfolding same_status serves
claimable queues moment run =
    same_status run.status pending && (serves queues run.queue && leb run.due_at moment)

-- The order of the tuples (-priority, due_at, id); a stored run's id is the key it stands under.
unfoldable pub before : Entry → Entry → Bool
before (i, a) (j, b) =
    ltb_ℤ b.priority a.priority
    || (a.priority ==ℤ b.priority && (ltb a.due_at b.due_at || (a.due_at == b.due_at && leb i j)))

unfoldable pub insert : Entry → List Entry → List Entry
unfolding before
insert e [] = e ∷ []
insert e (x ∷ xs) = if before e x then e ∷ x ∷ xs else x ∷ insert e xs

-- `list.sort`, which is stable.
unfoldable pub sort : List Entry → List Entry
unfolding insert
sort [] = []
sort (x ∷ xs) = insert x (sort xs)

unfoldable pub started : Text → ℕ → Instant → Run → Run
started worker lease moment run = record run {
  status = running;
  worker = some worker;
  attempts = run.attempts +ℤ pos 1;
  started_at = some moment;
  lease_until = some (moment + lease);
}

unfoldable pub ready : MemoryStore → List Text → Instant → List Entry
unfolding sort claimable
ready s queues moment = sort (keep (λ (e : Entry). claimable queues moment e.1) s.runs)

-- The loop over the candidates: the dictionary and `taken` so far.
unfoldable pub claim_loop :
    (Run → Run) → ℕ → List Entry → List Run → List Entry → List Entry × List Run
claim_loop start limit [] taken runs = (runs, taken)
claim_loop start limit ((i, run) ∷ rest) taken runs =
    let more = claim_loop start limit rest (taken ++ start run ∷ []) (put i (start run) runs) in
    if length taken == limit then (runs, taken) else more

unfoldable pub claim : MemoryStore → Text → List Text → ℕ → ℕ → Instant → MemoryStore × List Run
unfolding ready claim_loop started
claim s worker queues limit lease moment =
    let (runs', taken) =
      claim_loop (started worker lease moment) limit
        (take (limit * claim_spread) (ready s queues moment)) [] s.runs in
    (record s { runs = runs' }, taken)

-- ===== src/Store/Sql/Claiming.antt =====
-- src/queuefy/store/sqlalchemy.py: `claim` and `take`.
pub mod Rows
pub mod Held
pub mod Answers
pub mod Limit
use queuefy.Prelude.{
  ℕ, ◌+◌, ◌*◌, Bool, true, false, ◌&&◌, Option, none, some, List, [], ◌∷◌, ◌++◌, leb, ◌==◌,
  if◌then◌else◌, length,
}
use queuefy.Prelude.Int.{pos, ◌+ℤ◌}
use queuefy.Prelude.Text.{Text}
use queuefy.Run.{Run, Instant, pending, running, same_status}
use queuefy.Store.Base.{claim_spread}
use queuefy.Store.Memory.Claiming.{serves}
use queuefy.Store.Sql.Engine.{Engine, Condition}
use queuefy.Store.Sql.Contention.{Tried, did, raised, Server, transaction, under_contention}
use queuefy.Store.Sql.Writing.{Asked}

unfoldable pub ready_where : List Text → Instant → Condition
unfolding same_status serves
ready_where queues moment =
    λ i r. serves queues r.queue && (same_status r.status pending && leb r.due_at moment)

unfoldable pub taken_where : ℕ → Instant → Condition
unfolding same_status
taken_where id moment = λ i r. i == id && (same_status r.status pending && leb r.due_at moment)

unfoldable pub taken_values : Text → ℕ → Instant → Run → Run
taken_values worker lease moment r = record r {
  status = running;
  worker = some worker;
  attempts = r.attempts +ℤ pos 1;
  started_at = some moment;
  lease_until = some (moment + lease);
}

module _ {T : Type 0} (e : Engine T) (worker : Text) (lease : ℕ) (moment : Instant) where
  -- The conditional write, and the row read back inside the same transaction.
  unfoldable pub take_body : ℕ → T → T × Option Run
  take_body id t =
      let (t', matched) = e.update (taken_where id moment) (taken_values worker lease moment) t in
      (t', if matched == 1 then e.read id t' else none)

  unfoldable pub take : ℕ → Asked e (Option Run)
  unfolding take_body
  take id = under_contention (transaction (take_body id))

  -- What is held already is answered with; only a batch that holds nothing raises.
  abbrev pub broken_off : List Run → Tried (List Run) → Tried (List Run)
  broken_off [] outcome = outcome
  broken_off (r ∷ taken) outcome = did (r ∷ taken)

  abbrev pub with_taken : List Run → Option Run → List Run
  with_taken taken none = taken
  with_taken taken (some r) = taken ++ r ∷ []

  -- After one candidate: the rest of the loop, or the end of it.
  abbrev pub go_on :
      (List Run → Asked e (List Run))
      → List Run
      → Server T × Tried (Option Run)
      → Server T × Tried (List Run)
  go_on rest taken (w, did claimed) = rest (with_taken taken claimed) w
  go_on rest taken (w, raised fault) = (w, broken_off taken (raised fault))

  unfoldable pub take_each : ℕ → List ℕ → List Run → Asked e (List Run)
  take_each limit [] taken w = (w, did taken)
  take_each limit (id ∷ ids) taken w =
      let more = go_on (take_each limit ids) taken (take id w) in
      if length taken == limit then (w, did taken) else more

  -- After the candidates are read.
  abbrev pub from_candidates : ℕ → Server T × Tried (List ℕ) → Server T × Tried (List Run)
  from_candidates limit (w, did ids) = take_each limit ids [] w
  from_candidates limit (w, raised fault) = (w, raised fault)

  unfoldable pub claim : List Text → ℕ → Asked e (List Run)
  unfolding take_each
  claim queues limit w =
      from_candidates limit
        (transaction (λ t. (t, e.ordered (ready_where queues moment) (limit * claim_spread) t)) w)

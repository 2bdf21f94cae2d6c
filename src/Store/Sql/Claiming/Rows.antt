-- ===== src/Store/Sql/Claiming/Rows.antt =====
-- Whatever a claim meets on its way, each row is taken at most once, and only while it waits.
use queuefy.Prelude.{ℕ, ◌*◌, refl, inl, inr, Option, List, [], ◌∷◌, arith, ◌==◌, length, Bool-cases}
use queuefy.Prelude.Text.{Text}
use queuefy.Run.{Run, Instant, pending, same_status}
use queuefy.Store.Base.{claim_spread}
use queuefy.Store.Memory.Rows.{MemoryStore, get}
use queuefy.Store.Memory.Claiming.{started}
use queuefy.Store.Memory.Life.{claims, Row, claimed, same, changes}
use queuefy.Store.Memory.Invariant.Numbers.{Numbered}
use queuefy.Store.Sql.Engine.{Engine, IsSql}
use queuefy.Store.Sql.Contention.{Tried, did, raised, Server, transaction}
use queuefy.Store.Sql.Contention.Tries.{transaction-IsWhole, under_contention-IsWhole}
use queuefy.Store.Sql.Claiming.{
  ready_where, taken_where, taken_values, take_body, take, with_taken, go_on, take_each,
  from_candidates, claim,
}
use queuefy.Store.Sql.Effects.{IsWhole_table}
use queuefy.Store.Contract.Underway.{IsUnderway, begun}
use queuefy.Store.Sql.Underway.{Suits, update-IsUnderway}

module _ {T : Type 0} (e : Engine T) (law : IsSql e) (worker : Text) (lease : ℕ)
    (moment : Instant) where
  -- How far a claim has come from a store.
  abbrev pub IsClaiming : MemoryStore → MemoryStore → Type 0
  IsClaiming = IsUnderway (λ r. same_status r.status pending) (started worker lease moment)

  -- A row that waits is taken; a row that was taken runs, and is not taken again.
  take-Suits :
      (id : ℕ)
      → Suits
          (λ r. same_status r.status pending)
          (started worker lease moment)
          (taken_where id moment)
          (taken_values worker lease moment)
  unfolding taken_where taken_values started same_status
  take-Suits id = record { meant = λ i r named. (ground arith, refl); once = λ i r. ground arith }

  take_body-IsClaiming :
      (s : MemoryStore) (id : ℕ) (t : T)
      → IsClaiming s (e.rows t)
      → IsClaiming s (e.rows (take_body e worker lease moment id t).0)
  unfolding take_body
  take_body-IsClaiming s id t u =
      update-IsUnderway (λ r. same_status r.status pending) (started worker lease moment) e law
        (taken_where id moment) (taken_values worker lease moment) t s (take-Suits id) u

  take-IsClaiming :
      (s : MemoryStore) (id : ℕ) (w : Server T)
      → IsClaiming s (e.rows w.table)
      → IsClaiming s (e.rows (take e worker lease moment id w).0.table)
  unfolding take
  take-IsClaiming s id w u =
      IsWhole_table (λ t. IsClaiming s (e.rows t)) (take_body e worker lease moment id) w.verdicts
        w.table (take e worker lease moment id w)
        (under_contention-IsWhole (take_body e worker lease moment id) w) u
        (take_body-IsClaiming s id w.table u)

  go_on-IsClaiming :
      (s : MemoryStore) (rest : List Run → Server T → Server T × Tried (List Run))
      (taken : List Run) (x : Server T × Tried (Option Run))
      → ((more : List Run) (w : Server T)
          → IsClaiming s (e.rows w.table)
          → IsClaiming s (e.rows (rest more w).0.table))
      → IsClaiming s (e.rows x.0.table)
      → IsClaiming s (e.rows (go_on e worker lease moment rest taken x).0.table)
  go_on-IsClaiming s rest taken (w, did row) after u =
      after (with_taken e worker lease moment taken row) w u
  go_on-IsClaiming s rest taken (w, raised f) after u = u

  take_each-IsClaiming :
      (s : MemoryStore) (limit : ℕ) (ids : List ℕ) (taken : List Run) (w : Server T)
      → IsClaiming s (e.rows w.table)
      → IsClaiming s (e.rows (take_each e worker lease moment limit ids taken w).0.table)
  unfolding take_each
  take_each-IsClaiming s limit [] taken w u = u
  take_each-IsClaiming s limit (id ∷ ids) taken w u = elim (Bool-cases (length taken == limit)) [
    | inl full ↦ rw full u
    | inr more ↦ rw more (
        go_on-IsClaiming s (take_each e worker lease moment limit ids) taken
          (take e worker lease moment id w)
          (λ further w' u'. take_each-IsClaiming s limit ids further w' u')
          (take-IsClaiming s id w u))
  ]

  from_candidates-IsClaiming :
      (s : MemoryStore) (limit : ℕ) (x : Server T × Tried (List ℕ))
      → IsClaiming s (e.rows x.0.table)
      → IsClaiming s (e.rows (from_candidates e worker lease moment limit x).0.table)
  from_candidates-IsClaiming s limit (w, did ids) u = take_each-IsClaiming s limit ids [] w u
  from_candidates-IsClaiming s limit (w, raised f) u = u

  pub claim-IsClaiming :
      (queues : List Text) (limit : ℕ) (w : Server T)
      → Numbered (e.rows w.table)
      → IsClaiming (e.rows w.table) (e.rows (claim e worker lease moment queues limit w).0.table)
  unfolding claim
  claim-IsClaiming queues limit w n =
      let body : T → T × List ℕ =
        λ t. (t, e.ordered (ready_where queues moment) (limit * claim_spread) t) in
      let start =
        begun (λ r. same_status r.status pending) (started worker lease moment) (e.rows w.table)
          n in
      from_candidates-IsClaiming (e.rows w.table) limit (transaction body w) (
        IsWhole_table (λ t. IsClaiming (e.rows w.table) (e.rows t)) body w.verdicts w.table
          (transaction body w) (transaction-IsWhole body w) start start)

  pub claim-Row :
      (queues : List Text) (limit : ℕ) (w : Server T) (i : ℕ)
      → Numbered (e.rows w.table)
      → Row
          (e.rows w.table)
          (claims worker queues limit lease moment)
          i
          (get (e.rows (claim e worker lease moment queues limit w).0.table) i)
  unfolding started same_status
  claim-Row queues limit w i n = elim ((claim-IsClaiming queues limit w n).rows i) [
    | inl as_was ↦ same as_was
    | inr (r, here, waits, this) ↦
        changes r (started worker lease moment r) here this (claimed worker lease moment waits refl)
          (λ back. absurd (cc))
  ]

-- ===== src/Store/Sql/Calls.antt =====
-- The store over a database keeps the contract of every store, whatever the database lets through.
pub mod Kept
use queuefy.Prelude.{
  ℕ, ◌≤◌, ◌≡◌, refl, sym, subst, inl, inr, arith, Bool, true, false, Option, some, List,
}
use queuefy.Prelude.Text.{Text}
use queuefy.Run.{Run, Instant}
use queuefy.Store.Memory.Rows.{MemoryStore, get, add}
use queuefy.Store.Memory.Life.{
  Call, adds, claims, beats, completes, fails, retries, releases, reclaims, cancels, purges, step,
  Row, same,
}
use queuefy.Store.Memory.Life.Steps.{step-Row}
use queuefy.Store.Memory.Invariant.Numbers.{Numbered, step-Numbered, raise-Numbered}
use queuefy.Store.Memory.History.{sequence-step}
use queuefy.Store.Contract.{Contract}
use queuefy.Store.Sql.Engine.{Engine, IsSql}
use queuefy.Store.Sql.Contention.{Server}
use queuefy.Store.Sql.Writing.{
  add as sql_add, heartbeat, complete, fail, retry_later, release, cancel, holding, waiting_row,
  pushed, closed, ended, sent_back, given_back, dropped,
}
use queuefy.Store.Sql.Writing.Rows.{
  write-Numbered, sequence-write, heartbeat-Row, complete-Row, fail-Row, retry_later-Row,
  release-Row, cancel-Row,
}
use queuefy.Store.Sql.Writing.Insert.{IsAdded, add-IsAdded}
use queuefy.Store.Sql.Claiming.{claim}
use queuefy.Store.Sql.Claiming.Rows.{claim-IsClaiming, claim-Row}
use queuefy.Store.Sql.Sweeping.{reclaim, purge}
use queuefy.Store.Sql.Sweeping.Rows.{reclaim-IsSweeping, reclaim-Row, purge-IsPruned, purge-Row}

-- A call of the store, and where it leaves the database.
unfoldable pub perform : {T : Type 0} → Engine T → Server T → Call → Server T
unfolding sql_add claim heartbeat complete fail retry_later release reclaim cancel purge
perform e w (adds run) = (sql_add e run w).0
perform e w (claims worker queues limit lease moment) =
    (claim e worker lease moment queues limit w).0
perform e w (beats id worker attempt lease moment) =
    (heartbeat e id worker attempt lease moment w).0
perform e w (completes id worker attempt moment result) =
    (complete e id worker attempt moment result w).0
perform e w (fails id worker attempt moment error kind) =
    (fail e id worker attempt moment error kind w).0
perform e w (retries id worker attempt due_at error kind) =
    (retry_later e id worker attempt due_at error kind w).0
perform e w (releases id worker attempt due_at error kind) =
    (release e id worker attempt due_at error kind w).0
perform e w (reclaims moment) = (reclaim e moment w).0
perform e w (cancels id moment) = (cancel e id moment w).0
perform e w (purges moment limit) = (purge e moment limit w).0

abbrev is_insert : Call → Bool
is_insert (adds run) = true
is_insert _ = false

module _ {T : Type 0} (e : Engine T) (law : IsSql e) (w : Server T) where
  -- The rows, with the next number that an insert takes.
  abbrev pub skipped : ℕ → MemoryStore
  skipped n = record (e.rows w.table) { sequence = n }

  -- What holds of the rows as they were, and of what the memory store makes of them from a number that
  -- no row was given yet, holds after an insert.
  added :
      (P : ℕ → MemoryStore → Type 0) (run : Run)
      → ((n : ℕ) → P n (e.rows w.table))
      → ((n : ℕ) → (e.rows w.table).sequence ≤ n → P n (add (skipped n) run).0)
      → (n : ℕ) × ((e.rows w.table).sequence ≤ n) × P n (e.rows (sql_add e run w).0.table)
  added P run p q =
      let (n, low, like) = add-IsAdded e law run w in
      elim like [
        | inl (rows, _) ↦ (n, low, subst (P n) (sym rows) (q n low))
        | inr (inl (_, rows, _)) ↦ (n, low, subst (P n) (sym rows) (p n))
        | inr (inr (rows, _, _)) ↦ (n, low, subst (P n) (sym rows) (q n low))
      ]

  skipped-Numbered :
      (n : ℕ) → (e.rows w.table).sequence ≤ n → Numbered (e.rows w.table) → Numbered (skipped n)
  skipped-Numbered n low v = raise-Numbered (e.rows w.table) n low v

  pub perform-Numbered :
      (c : Call) → Numbered (e.rows w.table) → Numbered (e.rows (perform e w c).table)
  unfolding perform heartbeat complete fail retry_later release cancel step
  perform-Numbered (adds run) n =
      let (_, _, h) =
        added (λ m s. Numbered s) run (λ m. n)
          (λ m low. step-Numbered (skipped m) (adds run) (skipped-Numbered m low n)) in
      h
  perform-Numbered (claims worker queues limit lease moment) n =
      (claim-IsClaiming e law worker lease moment queues limit w n).numbered
  perform-Numbered (beats id worker attempt lease moment) n =
      write-Numbered e law w (holding id worker attempt) (pushed lease moment) n
  perform-Numbered (completes id worker attempt moment result) n =
      write-Numbered e law w (holding id worker attempt) (closed moment result) n
  perform-Numbered (fails id worker attempt moment error kind) n =
      write-Numbered e law w (holding id worker attempt) (ended moment error kind) n
  perform-Numbered (retries id worker attempt due_at error kind) n =
      write-Numbered e law w (holding id worker attempt) (sent_back due_at error kind) n
  perform-Numbered (releases id worker attempt due_at error kind) n =
      write-Numbered e law w (holding id worker attempt) (given_back due_at error kind) n
  perform-Numbered (reclaims moment) n = (reclaim-IsSweeping e law moment w n).numbered
  perform-Numbered (cancels id moment) n =
      write-Numbered e law w (waiting_row id) (dropped moment) n
  perform-Numbered (purges moment limit) n = (purge-IsPruned e law moment limit w n).numbered

  -- The statements other than an insert give no number.
  pub sequence-perform :
      (c : Call)
      → Numbered (e.rows w.table)
      → (e.rows w.table).sequence ≤ (e.rows (perform e w c).table).sequence
  unfolding perform heartbeat complete fail retry_later release cancel step
  sequence-perform (adds run) n =
      let (_, _, h) =
        added (λ m s. (e.rows w.table).sequence ≤ s.sequence) run (λ m. omega arith)
          (λ m low. omega (arith, sequence-step (skipped m) (adds run))) in
      h
  sequence-perform (claims worker queues limit lease moment) n =
      omega (arith, (claim-IsClaiming e law worker lease moment queues limit w n).sequence)
  sequence-perform (beats id worker attempt lease moment) n =
      sequence-write e law w (holding id worker attempt) (pushed lease moment)
  sequence-perform (completes id worker attempt moment result) n =
      sequence-write e law w (holding id worker attempt) (closed moment result)
  sequence-perform (fails id worker attempt moment error kind) n =
      sequence-write e law w (holding id worker attempt) (ended moment error kind)
  sequence-perform (retries id worker attempt due_at error kind) n =
      sequence-write e law w (holding id worker attempt) (sent_back due_at error kind)
  sequence-perform (releases id worker attempt due_at error kind) n =
      sequence-write e law w (holding id worker attempt) (given_back due_at error kind)
  sequence-perform (reclaims moment) n =
      omega (arith, (reclaim-IsSweeping e law moment w n).sequence)
  sequence-perform (cancels id moment) n = sequence-write e law w (waiting_row id) (dropped moment)
  sequence-perform (purges moment limit) n =
      omega (arith, (purge-IsPruned e law moment limit w n).sequence)

  call-Row :
      (c : Call) (i : ℕ)
      → Numbered (e.rows w.table)
      → is_insert c ≡ false
      → Row (e.rows w.table) c i (get (e.rows (perform e w c).table) i)
  unfolding perform
  call-Row (adds run) i n other = absurd (cc)
  call-Row (claims worker queues limit lease moment) i n other =
      claim-Row e law worker lease moment queues limit w i n
  call-Row (beats id worker attempt lease moment) i n other =
      heartbeat-Row e law w id worker attempt i lease moment
  call-Row (completes id worker attempt moment result) i n other =
      complete-Row e law w id worker attempt i moment result
  call-Row (fails id worker attempt moment error kind) i n other =
      fail-Row e law w id worker attempt i moment error kind
  call-Row (retries id worker attempt due_at error kind) i n other =
      retry_later-Row e law w id worker attempt i due_at error kind
  call-Row (releases id worker attempt due_at error kind) i n other =
      release-Row e law w id worker attempt i due_at error kind
  call-Row (reclaims moment) i n other = reclaim-Row e law moment w i n
  call-Row (cancels id moment) i n other = cancel-Row e law w id moment i
  call-Row (purges moment limit) i n other = purge-Row e law moment limit w i n

  -- Over a table whose numbers are distinct and below the next one, and whatever the database lets
  -- through, a call makes at most one change of the relation to the row under each number, as a call
  -- of the memory store does whose next number is at or past that of the table.
  pub perform-Row :
      (c : Call)
      → Numbered (e.rows w.table)
      → (n : ℕ) × ((e.rows w.table).sequence ≤ n)
        × ((i : ℕ) → Row (skipped n) c i (get (e.rows (perform e w c).table) i))
  unfolding perform step get
  perform-Row (adds run) v =
      added (λ n s. (i : ℕ) → Row (skipped n) (adds run) i (get s i)) run (λ n i. same refl)
        (λ n low i.
          let u = skipped-Numbered n low v in step-Row (skipped n) (adds run) i u.distinct u.below)
  perform-Row (claims worker queues limit lease moment) v = (
    (e.rows w.table).sequence,
    omega arith,
    λ i. call-Row (claims worker queues limit lease moment) i v refl,
  )
  perform-Row (beats id worker attempt lease moment) v = (
    (e.rows w.table).sequence,
    omega arith,
    λ i. call-Row (beats id worker attempt lease moment) i v refl,
  )
  perform-Row (completes id worker attempt moment result) v = (
    (e.rows w.table).sequence,
    omega arith,
    λ i. call-Row (completes id worker attempt moment result) i v refl,
  )
  perform-Row (fails id worker attempt moment error kind) v = (
    (e.rows w.table).sequence,
    omega arith,
    λ i. call-Row (fails id worker attempt moment error kind) i v refl,
  )
  perform-Row (retries id worker attempt due_at error kind) v = (
    (e.rows w.table).sequence,
    omega arith,
    λ i. call-Row (retries id worker attempt due_at error kind) i v refl,
  )
  perform-Row (releases id worker attempt due_at error kind) v = (
    (e.rows w.table).sequence,
    omega arith,
    λ i. call-Row (releases id worker attempt due_at error kind) i v refl,
  )
  perform-Row (reclaims moment) v =
      ((e.rows w.table).sequence, omega arith, λ i. call-Row (reclaims moment) i v refl)
  perform-Row (cancels id moment) v =
      ((e.rows w.table).sequence, omega arith, λ i. call-Row (cancels id moment) i v refl)
  perform-Row (purges moment limit) v =
      ((e.rows w.table).sequence, omega arith, λ i. call-Row (purges moment limit) i v refl)

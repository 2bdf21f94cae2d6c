-- ===== src/Store/Sql/Writing/Rows.antt =====
-- The writes of an attempt, the cancel and the insert keep the contract, however each transaction ends.
use queuefy.Prelude.{ℕ, ◌≤◌, ◌≡◌, refl, sym, ap, true, Option, arith}
use queuefy.Prelude.Int.{ℤ, pos}
use queuefy.Prelude.Text.{Text}
use queuefy.Value.{Value}
use queuefy.Run.{Run, Instant, pending, same_status}
use queuefy.Store.Memory.Rows.{MemoryStore, get}
use queuefy.Store.Memory.Holding.{holds, extended, completed, gave_up, requeued}
use queuefy.Store.Memory.Holding.Attempts.{stand}
use queuefy.Store.Memory.Life.{
  Call, beats, completes, fails, retries, releases, cancels, Act, extend, close, give_up, put_back,
  give_back, act, Row, Change, acted, withdrawn, same, frees,
}
use queuefy.Store.Memory.Invariant.Numbers.{Numbered}
use queuefy.Store.Sql.Engine.{Engine, IsSql, Condition}
use queuefy.Store.Sql.Contention.{Server}
use queuefy.Store.Sql.Contention.Tries.{under_contention-IsWhole}
use queuefy.Store.Sql.Writing.{
  holding, waiting_row, pushed, closed, ended, sent_back, given_back, dropped, write, write_body,
  heartbeat, complete, fail, retry_later, release, cancel,
}
use queuefy.Store.Sql.Effects.{IsWhole_table, update-Row, update-Numbered, sequence-update}

holding-holds :
    (id i : ℕ) (worker : Text) (attempt : ℤ) (r : Run)
    → holding id worker attempt i r ≡ true
    → (i ≡ id) × (holds r worker attempt ≡ true)
unfolding holding holds same_status
holding-holds id i worker attempt r h = ground arith

pub sent_back_lem :
    (due_at : Instant) (error kind : Text) (r : Run)
    → sent_back due_at error kind r ≡ requeued due_at error kind (pos 0) r
unfolding sent_back requeued
sent_back_lem due_at error kind r =
    ap (λ n. record (sent_back due_at error kind r) { attempts = n }) (sym (stand r.attempts))

module _ {T : Type 0} (e : Engine T) (law : IsSql e) (w : Server T) where
  -- What a conditional write leaves: the rows written, or the rows as they were.
  pub write_table :
      (P : MemoryStore → Type 0) (c : Condition) (f : Run → Run)
      → P (e.rows w.table)
      → P (e.rows (e.update c f w.table).0)
      → P (e.rows (write e c f w).0.table)
  unfolding write write_body
  write_table P c f p q =
      IsWhole_table (λ t. P (e.rows t)) (write_body e c f) w.verdicts w.table (write e c f w)
        (under_contention-IsWhole (write_body e c f) w) p q

  pub write-Row :
      (c : Condition) (f : Run → Run) (call : Call) (i : ℕ)
      → ((r : Run)
          → c i r ≡ true
          → Change r (f r) × (same_status (f r).status pending ≡ true → frees call i r ≡ true))
      → Row (e.rows w.table) call i (get (e.rows (write e c f w).0.table) i)
  write-Row c f call i changing =
      write_table (λ s. Row (e.rows w.table) call i (get s i)) c f (same refl)
        (update-Row e law c f w.table call i changing)

  pub write-Numbered :
      (c : Condition) (f : Run → Run)
      → Numbered (e.rows w.table)
      → Numbered (e.rows (write e c f w).0.table)
  write-Numbered c f n = write_table Numbered c f n (update-Numbered e law c f w.table n)

  pub sequence-write :
      (c : Condition) (f : Run → Run)
      → (e.rows w.table).sequence ≤ (e.rows (write e c f w).0.table).sequence
  sequence-write c f =
      write_table (λ s. (e.rows w.table).sequence ≤ s.sequence) c f (omega arith)
        (omega (arith, sequence-update e law c f w.table))

  module _ (id : ℕ) (worker : Text) (attempt : ℤ) (i : ℕ) where
    pub acted-Row :
        (f : Run → Run) (x : Act) (call : Call)
        → ((r : Run) → f r ≡ act x r)
        → ((r : Run)
            → i ≡ id
            → holds r worker attempt ≡ true
            → same_status (act x r).status pending ≡ true
            → frees call i r ≡ true)
        → Row
            (e.rows w.table)
            call
            i
            (get (e.rows (write e (holding id worker attempt) f w).0.table) i)
    acted-Row f x call values back = write-Row (holding id worker attempt) f call i λ r meant.
        let (here, held) = holding-holds id i worker attempt r meant in
        (acted worker attempt x held (values r), λ waits. back r here held (rw (values r) at waits))

    pub heartbeat-Row :
        (lease : ℕ) (moment : Instant)
        → Row
            (e.rows w.table)
            (beats id worker attempt lease moment)
            i
            (get (e.rows (heartbeat e id worker attempt lease moment w).0.table) i)
    unfolding heartbeat pushed extended act holds same_status
    heartbeat-Row lease moment =
        acted-Row (pushed lease moment) (extend lease moment) _ (λ r. refl)
          (λ r h k l. ground arith)

    pub complete-Row :
        (moment : Instant) (result : Option Value)
        → Row
            (e.rows w.table)
            (completes id worker attempt moment result)
            i
            (get (e.rows (complete e id worker attempt moment result w).0.table) i)
    unfolding complete closed completed act same_status
    complete-Row moment result =
        acted-Row (closed moment result) (close moment result) _ (λ r. refl)
          (λ r h k l. absurd (cc))

    pub fail-Row :
        (moment : Instant) (error kind : Text)
        → Row
            (e.rows w.table)
            (fails id worker attempt moment error kind)
            i
            (get (e.rows (fail e id worker attempt moment error kind w).0.table) i)
    unfolding fail ended gave_up act same_status
    fail-Row moment error kind =
        acted-Row (ended moment error kind) (give_up moment error kind) _ (λ r. refl)
          (λ r h k l. absurd (cc))

    pub retry_later-Row :
        (due_at : Instant) (error kind : Text)
        → Row
            (e.rows w.table)
            (retries id worker attempt due_at error kind)
            i
            (get (e.rows (retry_later e id worker attempt due_at error kind w).0.table) i)
    unfolding retry_later act frees
    retry_later-Row due_at error kind =
        acted-Row (sent_back due_at error kind) (put_back due_at error kind) _
          (sent_back_lem due_at error kind) (λ r h k l. ground arith)

    pub release-Row :
        (due_at : Instant) (error kind : Text)
        → Row
            (e.rows w.table)
            (releases id worker attempt due_at error kind)
            i
            (get (e.rows (release e id worker attempt due_at error kind w).0.table) i)
    unfolding release given_back sent_back requeued act frees
    release-Row due_at error kind =
        acted-Row (given_back due_at error kind) (give_back due_at error kind) _ (λ r. refl)
          (λ r h k l. ground arith)

  pub cancel-Row :
      (id : ℕ) (moment : Instant) (i : ℕ)
      → Row (e.rows w.table) (cancels id moment) i (get (e.rows (cancel e id moment w).0.table) i)
  unfolding cancel waiting_row dropped same_status
  cancel-Row id moment i =
      write-Row (waiting_row id) (dropped moment) (cancels id moment) i
        λ r meant. (withdrawn moment (ground arith) refl, λ waits. absurd (cc))

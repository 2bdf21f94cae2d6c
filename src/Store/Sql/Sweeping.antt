-- ===== src/Store/Sql/Sweeping.antt =====
-- src/queuefy/store/sqlalchemy.py: `reclaim`, `sweep`, `take_back` and `purge`.
pub mod Rows
use queuefy.Prelude.{
  ℕ, ◌+◌, ◌-◌, Bool, true, false, not, ◌&&◌, Option, none, some, List, [], ◌∷◌, ltb, leb, ◌==◌,
}
use queuefy.Prelude.Int.{leb_ℤ, ltb_ℤ}
use queuefy.Prelude.Text.{Text, codes}
use queuefy.Run.{Run, Instant, pending, running, failed, same_status, is_settled}
use queuefy.Store.Base.{reclaim_batch}
use queuefy.Store.Sql.Engine.{Engine, Condition, among}
use queuefy.Store.Sql.Contention.{Server, transaction, under_contention}
use queuefy.Store.Sql.Writing.{Asked}

-- `column is not null and column < moment`.
abbrev pub is_before : Option Instant → Instant → Bool
is_before none moment = false
is_before (some t) moment = ltb t moment

unfoldable pub expired_where : Instant → Condition
unfolding same_status
expired_where moment = λ i r. same_status r.status running && is_before r.lease_until moment

unfoldable pub spent_where : Instant → Condition
unfolding expired_where
spent_where moment = λ i r. expired_where moment i r && leb_ℤ r.max_attempts r.attempts

unfoldable pub left_where : Instant → Condition
unfolding expired_where
left_where moment = λ i r. expired_where moment i r && ltb_ℤ r.attempts r.max_attempts

unfoldable pub spent_values : Instant → Run → Run
spent_values moment r = record r {
  status = failed;
  finished_at = some moment;
  error = some (codes "the worker holding this run stopped answering");
  error_type = some (codes "LeaseExpired");
  worker = none;
  lease_until = none;
  started_at = none;
}

unfoldable pub left_values : Instant → Run → Run
left_values moment r = record r {
  status = pending;
  due_at = moment;
  worker = none;
  lease_until = none;
  started_at = none;
}

unfoldable pub over_where : Instant → Condition
unfolding is_settled
over_where before = λ i r. is_settled r.status && is_before r.finished_at before

module _ {T : Type 0} (e : Engine T) where
  -- The rows named by a batch that was read, as far as the condition still holds of them.
  abbrev pub named_and : List ℕ → Condition → Condition
  named_and ids c = λ i r. among ids i && c i r

  abbrev pub update_named : Condition → (Run → Run) → List ℕ → T → T × ℕ
  update_named c values [] t = (t, 0)
  update_named c values (id ∷ ids) t = e.update (named_and (id ∷ ids) c) values t

  unfoldable pub take_back : Condition → ℕ → (Run → Run) → T → T × ℕ
  take_back expired size values t = update_named expired values (e.batch expired size t) t

  unfoldable pub sweep_body : Instant → T → T × ℕ
  unfolding take_back
  sweep_body moment t =
      let (t1, gave_up) = take_back (spent_where moment) reclaim_batch (spent_values moment) t in
      let (t2, requeued) =
        take_back (left_where moment) (reclaim_batch - gave_up) (left_values moment) t1 in
      (t2, gave_up + requeued)

  unfoldable pub reclaim : Instant → Asked e ℕ
  reclaim moment = under_contention (transaction (sweep_body moment))

  abbrev pub delete_named : Condition → List ℕ → T → T × ℕ
  delete_named c [] t = (t, 0)
  delete_named c (id ∷ ids) t = e.delete (named_and (id ∷ ids) c) t

  unfoldable pub purge_body : Instant → ℕ → T → T × ℕ
  purge_body before limit t =
      delete_named (over_where before) (e.batch (over_where before) limit t) t

  unfoldable pub purge : Instant → ℕ → Asked e ℕ
  purge before limit = under_contention (transaction (purge_body before limit))

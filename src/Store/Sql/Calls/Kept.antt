-- ===== src/Store/Sql/Calls/Kept.antt =====
-- The contract of the store over a database, and what it brings over every history of calls.
use queuefy.Prelude.{ℕ, ◌≡◌, ◌⊎◌, true, none, some, List, All}
use queuefy.Run.{Run, is_settled}
use queuefy.Store.Memory.Rows.{get}
use queuefy.Store.Memory.Life.{Call}
use queuefy.Store.Memory.Invariant.{IsWellFormed, Admissible}
use queuefy.Store.Memory.Invariant.Numbers.{Numbered}
use queuefy.Store.Contract.{Contract}
use queuefy.Store.Contract.History.{after, after-IsWellFormed, settled_stays, All-any}
use queuefy.Store.Sql.Engine.{Engine, IsSql}
use queuefy.Store.Sql.Contention.{Server}
use queuefy.Store.Sql.Calls.{perform, perform-Numbered, sequence-perform, perform-Row}

abbrev pub sql_contract : {T : Type 0} (e : Engine T) → IsSql e → Contract (Server T)
sql_contract e law = record {
  view = λ w. e.rows w.table;
  next = perform e;
  IsSound = λ w. Numbered (e.rows w.table);
  Takes = λ c. Unit;
  numbered = λ w n. n;
  stays = λ w c n takes. perform-Numbered e law w c n;
  grows = λ w c n takes. sequence-perform e law w c n;
  changes = λ w c n takes. perform-Row e law w c n;
}

module _ {T : Type 0} (e : Engine T) (law : IsSql e) where
  -- However the database decides, any history of admissible calls keeps a well-formed table well
  -- formed: numbers and keys are single, and the columns of a run agree with its status.
  pub database-IsWellFormed :
      (w : Server T) (cs : List Call)
      → IsWellFormed (e.rows w.table)
      → All Admissible cs
      → IsWellFormed (e.rows (after (sql_contract e law) w cs).table)
  database-IsWellFormed w cs v ok =
      after-IsWellFormed (sql_contract e law) w cs v.numbered (All-any cs) v ok

  -- A run of the table that is over stays as it ended, whatever is asked of the database and however
  -- it decides, or its number names no run any more.
  pub ended_stays :
      (w : Server T) (cs : List Call) (i : ℕ) (a : Run)
      → IsWellFormed (e.rows w.table)
      → All Admissible cs
      → get (e.rows w.table) i ≡ some a
      → is_settled a.status ≡ true
      → (get (e.rows (after (sql_contract e law) w cs).table) i ≡ some a)
        ⊎ (get (e.rows (after (sql_contract e law) w cs).table) i ≡ none)
  ended_stays w cs i a v ok here over =
      settled_stays (sql_contract e law) w cs i a v.numbered (All-any cs) here over

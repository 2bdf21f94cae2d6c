-- ===== src/Store/Sql/Tests.antt =====
-- A table that is its own meaning, and the theorems of the store over a database at concrete inputs.
use queuefy.Prelude.{
  ℕ, suc, ◌≤◌, ◌≡◌, ◌⊎◌, refl, not, none, some, List, [], ◌∷◌, ◌++◌, arith, length, take, map, All,
  if◌then◌else◌,
}
use queuefy.Prelude.Int.{pos}
use queuefy.Prelude.Text.{Text, codes, ◌==◌ as text_eq}
use queuefy.Prelude.Assoc.{lookup}
use queuefy.Prelude.Updates.{change_where}
use queuefy.Errors.{ok}
use queuefy.Run.{Run, fresh, same_status, is_settled}
use queuefy.Store.Memory.Rows.{Entry, MemoryStore, empty, get, add, taken, first, find}
use queuefy.Store.Memory.Claiming.{sort}
use queuefy.Store.Memory.Life.{Call, Row, adds, claims, reclaims, purges, cancels, close, step}
use queuefy.Store.Memory.Invariant.{IsWellFormed, Admissible}
use queuefy.Store.Memory.History.{after as memory_after, history-IsWellFormed}
use queuefy.Store.Contract.History.{after}
use queuefy.Store.Sql.Columns.{to_run, to_values, to_run-to_values}
use queuefy.Store.Sql.Engine.{Engine, IsSql, matching}
use queuefy.Store.Sql.Contention.{
  deadlock, lock_wait, contended, did, passed, lost, refused, Server, transaction, answered_or,
  tries, under_contention,
}
use queuefy.Store.Sql.Contention.Tries.{
  IsWhole, under_contention-IsWhole, under_contention_through, after_refusals,
}
use queuefy.Store.Sql.Effects.{IsLike}
use queuefy.Store.Sql.Writing.{write_body, waiting_row, dropped, holding, closed}
use queuefy.Store.Sql.Writing.Insert.{IsAdded, add-IsAdded}
use queuefy.Store.Sql.Writing.Alike.{sql_asked, memory_asked, sql_asked-IsLike}
use queuefy.Store.Sql.Claiming.{claim}
use queuefy.Store.Sql.Claiming.Answers.{IsAnswer, claim-IsAnswer}
use queuefy.Store.Sql.Calls.{perform, perform-Row}
use queuefy.Store.Sql.Calls.Kept.{sql_contract, database-IsWellFormed, ended_stays}
use queuefy.Store.Sql.Writing as Writing

abbrev plain : Engine MemoryStore
plain = record {
  rows = λ s. s;
  insert = λ run s. if taken s run.key then (s, none) else (
    record {
      runs = s.runs ++ (s.sequence, record run { id = some s.sequence }) ∷ [];
      sequence = suc s.sequence;
    },
    some s.sequence,
  );
  update = λ c f s. (record s { runs = change_where c f s.runs }, length (matching c s.runs));
  delete =
      λ c s. (record s { runs = matching (λ i r. not (c i r)) s.runs }, length (matching c s.runs));
  ordered = λ c limit s. map (λ (x : Entry). x.0) (take limit (sort (matching c s.runs)));
  batch = λ c limit s. map (λ (x : Entry). x.0) (take limit (matching c s.runs));
  read = λ i s. get s i;
  named = λ k s. find s k;
  total = λ c s. length (matching c s.runs);
}

plain-IsSql : IsSql plain
plain-IsSql = record {
  insert_free = λ run s free. (s.sequence, omega arith, rw free refl, rw free refl);
  insert_taken = λ run s full. (rw full refl, rw full refl, rw full (omega arith));
  update_rows = λ c f s. refl;
  update_count = λ c f s. refl;
  delete_rows = λ c s. refl;
  delete_count = λ c s. refl;
  ordered_ids = λ c limit s. refl;
  batch_ids = λ c limit s. refl;
  read_row = λ i s. refl;
  named_row = λ k s. refl;
  total_count = λ c s. refl;
}

abbrev ann : Text
ann = codes "ann"

abbrev default_queue : Text
default_queue = codes "default"

abbrev mail : Run
mail = record (fresh (codes "mail") 10) { key = some (codes "k") }

abbrev calls : List Call
calls = adds mail ∷ adds (fresh (codes "mail") 20) ∷ []

abbrev shop : MemoryStore
shop = memory_after empty calls

blank : All Admissible calls
blank = ((refl, refl, refl, refl, omega arith), ((refl, refl, refl, refl, omega arith), tt))

shop-IsWellFormed : IsWellFormed shop
shop-IsWellFormed = history-IsWellFormed calls blank

-- A database that refuses the second transaction by a deadlock.
abbrev server : Server MemoryStore
server = record { table = shop; verdicts = passed ∷ refused deadlock ∷ [] }

to_run-to_values_example : to_run 7 (to_values mail) ≡ ok (record mail { id = some 7 })
to_run-to_values_example = to_run-to_values 7 mail

-- A database that refuses a transaction by a deadlock, and loses its answer the second time.
abbrev losing : Server MemoryStore
losing = record { table = shop; verdicts = refused deadlock ∷ lost ∷ [] }

under_contention-IsWhole_example :
    IsWhole
      (write_body plain (waiting_row 1) (dropped 50))
      losing.verdicts
      shop
      (under_contention (transaction (write_body plain (waiting_row 1) (dropped 50))) losing)
under_contention-IsWhole_example =
    under_contention-IsWhole (write_body plain (waiting_row 1) (dropped 50)) losing

under_contention_through_example :
    under_contention
      (transaction (write_body plain (waiting_row 1) (dropped 50)))
      (record { table = shop; verdicts = after_refusals (deadlock ∷ lock_wait ∷ []) (passed ∷ []) })
    ≡ (
      record { table = (write_body plain (waiting_row 1) (dropped 50) shop).0; verdicts = [] },
      did (write_body plain (waiting_row 1) (dropped 50) shop).1,
    )
unfolding contended
under_contention_through_example =
    under_contention_through (write_body plain (waiting_row 1) (dropped 50))
      (deadlock ∷ lock_wait ∷ []) shop [] (refl, (refl, tt)) (omega arith)

add-IsAdded_example :
    IsAdded plain plain-IsSql mail server.verdicts shop (Writing.add plain mail server)
add-IsAdded_example = add-IsAdded plain plain-IsSql mail server

sql_asked-IsLike_example :
    IsLike plain server.verdicts shop
      (memory_asked shop 1 ann (pos 1) (close 60 none))
      (sql_asked plain 1 ann (pos 1) (close 60 none) server)
sql_asked-IsLike_example =
    sql_asked-IsLike plain plain-IsSql server 1 ann (pos 1) (close 60 none)
      shop-IsWellFormed.numbered

claim-IsAnswer_example :
    IsAnswer plain plain-IsSql ann 50 100 shop
      (claim plain ann 50 100 (default_queue ∷ []) 2 server)
claim-IsAnswer_example =
    claim-IsAnswer plain plain-IsSql ann 50 100 (default_queue ∷ []) 2 server
      shop-IsWellFormed.numbered refl

perform-Row_example :
    (n : ℕ) × (shop.sequence ≤ n)
    × ((i : ℕ)
        → Row
            (record shop { sequence = n })
            (reclaims 200)
            i
            (get (perform plain server (reclaims 200)).table i))
perform-Row_example = perform-Row plain plain-IsSql server (reclaims 200) shop-IsWellFormed.numbered

abbrev asked : List Call
asked = claims ann (default_queue ∷ []) 5 50 110 ∷ purges 120 10 ∷ []

abbrev called_off : List Call
called_off = cancels 1 30 ∷ []

-- The run that was called off is gone through the history as it ended.
abbrev over : Server MemoryStore
over = after (sql_contract plain plain-IsSql) server called_off

over-IsWellFormed : IsWellFormed over.table
over-IsWellFormed =
    database-IsWellFormed plain plain-IsSql server called_off shop-IsWellFormed (tt, tt)

program : Unit {0}
unfolding memory_after after perform Writing.cancel Writing.write waiting_row dropped
    under_contention tries answered_or transaction change_where step empty add get taken first
    lookup same_status is_settled text_eq write_body
program = tt

ended_stays_example :
    (get (after (sql_contract plain plain-IsSql) over asked).table 1
      ≡ some (dropped 30 (record mail { id = some 1 })))
    ⊎ (get (after (sql_contract plain plain-IsSql) over asked).table 1 ≡ none)
unfolding program
ended_stays_example =
    ended_stays plain plain-IsSql over asked 1 (dropped 30 (record mail { id = some 1 }))
      over-IsWellFormed (tt, (tt, tt)) refl refl

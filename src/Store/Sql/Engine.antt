-- ===== src/Store/Sql/Engine.antt =====
-- What src/queuefy/store/sqlalchemy.py asks of the database: statements over one table, a parameter.
-- A table is read as the runs under their numbers, in the order of the numbers, and a bound past every
-- number that a row was given, at or past which the next number lies; a row reads as the run that
-- `to_run` makes of it.
use queuefy.Prelude.{
  ℕ, suc, ◌≤◌, ◌≡◌, Bool, true, false, not, Option, none, some, List, [], ◌∷◌, ◌++◌, ◌==◌, length,
  take, keep, any, map,
}
use queuefy.Prelude.Text.{Text}
use queuefy.Prelude.Updates.{change_where}
use queuefy.Run.{Run}
use queuefy.Store.Memory.Rows.{Entry, MemoryStore, get, taken, find}
use queuefy.Store.Memory.Claiming.{sort}

-- The condition of a statement, on the number and the columns of a row.
abbrev pub Condition : Type 0
Condition = ℕ → Run → Bool

abbrev pub matching : Condition → List Entry → List Entry
matching c rows = keep (λ (e : Entry). c e.0 e.1) rows

abbrev pub among : List ℕ → ℕ → Bool
among ids i = any (λ j. j == i) ids

pub record Engine (T : Type 0) : Type 0 where
  pub rows : T → MemoryStore
  -- `insert`: the number of the row; nothing when a unique column refuses it.
  pub insert : Run → T → T × Option ℕ
  -- `update ... where`: how many rows it matched.
  pub update : Condition → (Run → Run) → T → T × ℕ
  -- `delete ... where`.
  pub delete : Condition → T → T × ℕ
  -- `select id where ... order by priority desc, due_at, id limit`.
  pub ordered : Condition → ℕ → T → List ℕ
  -- `select id where ... order by id limit`.
  pub batch : Condition → ℕ → T → List ℕ
  -- `select ... where id`.
  pub read : ℕ → T → Option Run
  -- `select ... where key`.
  pub named : Text → T → Option Run
  -- `select count(*) where`.
  pub total : Condition → T → ℕ

-- The documented meaning of the statements.
pub record IsSql {T : Type 0} (e : Engine T) : Type 0 where
  -- The number of a new row lies past every number given to a row before; the numbers between may be
  -- lost to inserts that were refused or rolled back.
  pub insert_free :
      (run : Run) (t : T)
      → taken (e.rows t) run.key ≡ false
      → (n : ℕ) × ((e.rows t).sequence ≤ n)
        × ((e.insert run t).1 ≡ some n)
        × (e.rows (e.insert run t).0 ≡ record {
          runs = (e.rows t).runs ++ (n, record run { id = some n }) ∷ [];
          sequence = suc n;
        })
  -- What a unique column refuses writes no row, and may spend numbers.
  pub insert_taken :
      (run : Run) (t : T)
      → taken (e.rows t) run.key ≡ true
      → ((e.insert run t).1 ≡ none)
        × ((e.rows (e.insert run t).0).runs ≡ (e.rows t).runs)
        × ((e.rows t).sequence ≤ (e.rows (e.insert run t).0).sequence)
  pub update_rows :
      (c : Condition) (f : Run → Run) (t : T)
      → e.rows (e.update c f t).0 ≡ record (e.rows t) { runs = change_where c f (e.rows t).runs }
  pub update_count :
      (c : Condition) (f : Run → Run) (t : T)
      → (e.update c f t).1 ≡ length (matching c (e.rows t).runs)
  pub delete_rows :
      (c : Condition) (t : T)
      → e.rows (e.delete c t).0
        ≡ record (e.rows t) { runs = matching (λ i r. not (c i r)) (e.rows t).runs }
  pub delete_count :
      (c : Condition) (t : T) → (e.delete c t).1 ≡ length (matching c (e.rows t).runs)
  pub ordered_ids :
      (c : Condition) (limit : ℕ) (t : T)
      → e.ordered c limit t
        ≡ map (λ (x : Entry). x.0) (take limit (sort (matching c (e.rows t).runs)))
  pub batch_ids :
      (c : Condition) (limit : ℕ) (t : T)
      → e.batch c limit t ≡ map (λ (x : Entry). x.0) (take limit (matching c (e.rows t).runs))
  pub read_row : (i : ℕ) (t : T) → e.read i t ≡ get (e.rows t) i
  pub named_row : (k : Text) (t : T) → e.named k t ≡ find (e.rows t) k
  pub total_count : (c : Condition) (t : T) → e.total c t ≡ length (matching c (e.rows t).runs)

-- ===== src/Store/Sql/Contention.antt =====
-- src/queuefy/store/sqlalchemy.py: `contended` and `under_contention`, and a transaction.
-- What the database makes of a transaction is not up to this code: it is a list of verdicts, one for
-- each transaction asked for, and a transaction past its end goes through. One that is refused is
-- rolled back whole; one that is lost was committed, and its answer never came. The waits between the
-- tries change no state.
pub mod Tries
use queuefy.Prelude.{ℕ, zero, suc, Bool, true, false, List, [], ◌∷◌}

-- A transaction that does not go through: by the two codes with which innodb asks for it again, or
-- for any other reason of the driver.
pub data Refusal : Type 0 where
  deadlock lock_wait driver : Refusal

-- What reaches the code: such a refusal, or a constraint that a statement met.
pub data Fault : Type 0 where
  refusal : Refusal → Fault
  integrity : Fault

unfoldable pub contended : Fault → Bool
contended (refusal deadlock) = true
contended (refusal lock_wait) = true
contended _ = false

-- What becomes of a transaction. The two codes come from a server that rolled it back, so a lost
-- answer is never one of them.
pub data Verdict : Type 0 where
  passed lost : Verdict
  refused : Refusal → Verdict

pub data Tried {ℓ} (A : Type ℓ) : Type ℓ where
  did : A → Tried A
  raised : Fault → Tried A

pub record Server (T : Type 0) : Type 0 where
  pub table : T
  pub verdicts : List Verdict

module _ {T : Type 0} {A : Type 0} where
  abbrev pub judged : Verdict → (T → T × A) → T → List Verdict → Server T × Tried A
  judged passed body t later =
      let (t', a) = body t in (record { table = t'; verdicts = later }, did a)
  judged lost body t later =
      (record { table = (body t).0; verdicts = later }, raised (refusal driver))
  judged (refused r) body t later = (record { table = t; verdicts = later }, raised (refusal r))

  abbrev pub through : List Verdict → (T → T × A) → T → Server T × Tried A
  through [] body t = judged passed body t []
  through (v ∷ later) body t = judged v body t later

  -- `async with session`: the statements of a body and the commit.
  unfoldable pub transaction : (T → T × A) → Server T → Server T × Tried A
  transaction body w = through w.verdicts body w.table

  -- What a try came to: its answer, the next try, or the exception.
  unfoldable pub answered_or :
      (Server T → Server T × Tried A) → Server T × Tried A → Server T × Tried A
  answered_or rest (w, did a) = (w, did a)
  answered_or rest (w, raised fault) = elim (contended fault) [
    | true ↦ rest w
    | false ↦ (w, raised fault)
  ]

  -- The tries that are left, and the last one, which lets its exception through.
  unfoldable pub tries : ℕ → (Server T → Server T × Tried A) → Server T → Server T × Tried A
  unfolding answered_or
  tries zero work w = work w
  tries (suc left) work w = answered_or (tries left work) (work w)

  -- `TRIES - 1` tries and one more.
  unfoldable pub under_contention : (Server T → Server T × Tried A) → Server T → Server T × Tried A
  unfolding tries
  under_contention work w = tries 7 work w

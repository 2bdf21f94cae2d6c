-- ===== src/Store/Sql/Writing/Insert.antt =====
-- The insert writes a run whose key is free, once, and is otherwise an answer or an exception.
use queuefy.Prelude.{
  ℕ, suc, ◌≤◌, ◌≡◌, refl, sym, ap, subst, ◌∙◌, inl, inr, true, false, Option, none, some, List, [],
  ◌∷◌, ◌++◌, Bool-cases, arith,
}
use queuefy.Prelude.Text.{Text}
use queuefy.Run.{Run}
use queuefy.Store.Memory.Rows.{MemoryStore, add, taken}
use queuefy.Store.Memory.Rows.Exact.{written}
use queuefy.Store.Sql.Engine.{Engine, IsSql}
use queuefy.Store.Sql.Contention.{
  Tried, did, raised, Fault, Verdict, refusal, driver, contended, Server, transaction,
  under_contention,
}
use queuefy.Store.Sql.Contention.Tries.{
  IsWhole, Loses, driver_last, transaction-IsWhole, tries-keeps,
}
use queuefy.Store.Sql.Effects.{IsLike, IsLike-widen}
use queuefy.Store.Sql.Writing.{inserted, then_inserted, insert_run, add as sql_add}

add-taken : (s : MemoryStore) (run : Run) → taken s run.key ≡ true → add s run ≡ (s, none)
unfolding add
add-taken s run full = rw full

add-free :
    (s : MemoryStore) (run : Run)
    → taken s run.key ≡ false
    → add s run ≡ (
      record { runs = s.runs ++ (s.sequence, written s run) ∷ []; sequence = suc s.sequence },
      some (written s run),
    )
unfolding add
add-free s run free = rw free refl

no_key : (s : MemoryStore) (o : Option Text) → taken s o ≡ true → (k : Text) × (o ≡ some k)
unfolding taken
no_key s none h = absurd (cc)
no_key s (some k) h = (k, refl)

did-injective : {A : Type 0} (a b : A) → did a ≡ did b → a ≡ b
did-injective a b h = cc

-- A key is free or taken whatever number comes next.
taken_skip :
    (s : MemoryStore) (n : ℕ) (o : Option Text) → taken (record s { sequence = n }) o ≡ taken s o
unfolding taken
taken_skip s n none = refl
taken_skip s n (some k) = refl

module _ {T : Type 0} (e : Engine T) (law : IsSql e) (run : Run) where
  -- Written or refused for its key as the memory store does it from a number that is not given yet,
  -- or not asked for in the end.
  abbrev pub IsAdded : List Verdict → MemoryStore → Server T × Tried (Option Run) → Type 0
  IsAdded vs s x =
      (n : ℕ) × (s.sequence ≤ n) × IsLike e vs s (add (record s { sequence = n }) run) x

  inserted_as :
      (t : T)
      → (n : ℕ) × ((e.rows t).sequence ≤ n)
        × (e.rows (e.insert run t).0 ≡ (add (record (e.rows t) { sequence = n }) run).0)
        × (inserted e run (e.insert run t).1 ≡ did (add (record (e.rows t) { sequence = n }) run).1)
  inserted_as t = elim (Bool-cases (taken (e.rows t) run.key)) [
    | inl full ↦
        let (k, key) = no_key (e.rows t) run.key full in
        let (refused, rows, low) = law.insert_taken run t full in
        let n = (e.rows (e.insert run t).0).sequence in
        let same =
          add-taken (record (e.rows t) { sequence = n }) run
            (taken_skip (e.rows t) n run.key ∙ full) in
        (
          n,
          low,
          ap (λ runs. record { runs = runs; sequence = n }) rows ∙ sym (ap (λ x. x.0) same),
          rw (refused, same) (rw key refl),
        )
    | inr free ↦
        let (n, low, id, rows) = law.insert_free run t free in
        let new =
          add-free (record (e.rows t) { sequence = n }) run
            (taken_skip (e.rows t) n run.key ∙ free) in
        (n, low, rows ∙ sym (ap (λ x. x.0) new), rw (id, new) refl)
  ]

  then_inserted-IsAdded :
      (vs : List Verdict) (t : T) (x : Server T × Tried (Option ℕ))
      → IsWhole (e.insert run) vs t x
      → IsAdded vs (e.rows t) (then_inserted e run x)
  then_inserted-IsAdded vs t (w', did id) (_, inl (table, answer)) =
      let (n, low, rows, added) = inserted_as t in
      (
        n,
        low,
        rw (did-injective id (e.insert run t).1 answer) (inl (ap e.rows table ∙ rows, added)),
      )
  then_inserted-IsAdded vs t (w', did id) (_, inr (inl (f, table, answer))) = absurd (cc)
  then_inserted-IsAdded vs t (w', did id) (_, inr (inr (table, answer, l))) = absurd (cc)
  then_inserted-IsAdded vs t (w', raised f) (_, inl (table, answer)) = absurd (cc)
  then_inserted-IsAdded vs t (w', raised f) (_, inr (inl (g, table, answer))) =
      ((e.rows t).sequence, omega arith, inr (inl (f, ap e.rows table, refl)))
  then_inserted-IsAdded vs t (w', raised f) (_, inr (inr (table, answer, l))) =
      let (n, low, rows, added) = inserted_as t in
      let this : f ≡ refusal driver = cc in
      (n, low, rw this (inr (inr (ap e.rows table ∙ rows, refl, l))))

  -- The rows as they were before, and verdicts that lose no more answers.
  abbrev pub AsBefore : List Verdict → MemoryStore → Server T → Type 0
  AsBefore vs s w = (e.rows w.table ≡ s) × (Loses w.verdicts → Loses vs)

  insert_run-IsAdded :
      (vs : List Verdict) (s : MemoryStore) (w : Server T)
      → AsBefore vs s w
      → (Loses (insert_run e run w).0.verdicts → Loses vs) × IsAdded vs s (insert_run e run w)
  unfolding insert_run
  insert_run-IsAdded vs s w (at, fewer) =
      let whole = transaction-IsWhole (e.insert run) w in
      let (n, low, like) =
        subst (λ x. IsAdded w.verdicts x (insert_run e run w)) at
          (then_inserted-IsAdded w.verdicts w.table (transaction (e.insert run) w) whole) in
      (
        λ l. fewer (whole.0 (verdicts_kept (transaction (e.insert run) w) l)),
        (n, low, IsLike-widen e w.verdicts vs s _ (insert_run e run w) fewer like),
      )
    where
      verdicts_kept :
          (x : Server T × Tried (Option ℕ))
          → Loses (then_inserted e run x).0.verdicts
          → Loses x.0.verdicts
      verdicts_kept (w', did id) l = l
      verdicts_kept (w', raised f) l = l

  kept_when_asked_again :
      (vs : List Verdict) (s : MemoryStore) (w : Server T) (f : Fault)
      → contended f ≡ true
      → (Loses w.verdicts → Loses vs) × IsAdded vs s (w, raised f)
      → AsBefore vs s w
  kept_when_asked_again vs s w f again (fewer, (n, low, inl (_, answer))) = absurd (cc)
  kept_when_asked_again vs s w f again (fewer, (n, low, inr (inl (_, rows, _)))) = (rows, fewer)
  kept_when_asked_again vs s w f again (fewer, (n, low, inr (inr (rows, answer, l)))) =
      let this : f ≡ refusal driver = cc in absurd (driver_last f this again)

  -- An insert that is answered writes and answers what the memory store would from a number that no
  -- row was given yet; one that raises writes nothing, or, where an answer was lost after its commit,
  -- writes that run once.
  pub add-IsAdded : (w : Server T) → IsAdded w.verdicts (e.rows w.table) (sql_add e run w)
  unfolding sql_add under_contention
  add-IsAdded w =
      (tries-keeps (insert_run e run) (AsBefore w.verdicts (e.rows w.table))
        (λ x. (Loses x.0.verdicts → Loses w.verdicts) × IsAdded w.verdicts (e.rows w.table) x)
        (insert_run-IsAdded w.verdicts (e.rows w.table))
        (kept_when_asked_again w.verdicts (e.rows w.table)) 7 w (refl, λ h. h)).1

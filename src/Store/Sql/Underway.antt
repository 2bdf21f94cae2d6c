-- ===== src/Store/Sql/Underway.antt =====
-- A method that writes rows one statement after another: each row is changed at most once.
use queuefy.Prelude.{
  ℕ, ◌≡◌, refl, sym, subst, ◌∙◌, inl, inr, Bool, true, false, Option, none, some, Bool-cases,
}
use mathlib.Core.Option.{some-injective}
use queuefy.Prelude.Updates.{changed_where}
use queuefy.Run.{Run}
use queuefy.Store.Memory.Rows.{MemoryStore, get}
use queuefy.Store.Contract.Underway.{Touched, IsUnderway}
use queuefy.Store.Sql.Engine.{Engine, IsSql, Condition}
use queuefy.Store.Sql.Effects.{get-update, update-Numbered, sequence-update}

module _ (may : Run → Bool) (change : Run → Run) where
  -- A statement that changes rows that may be changed, the way it is meant, and no row twice.
  pub record Suits (c : Condition) (values : Run → Run) : Type 0 where
    pub meant : (i : ℕ) (r : Run) → c i r ≡ true → (may r ≡ true) × (values r ≡ change r)
    pub once : (i : ℕ) (r : Run) → c i (change r) ≡ false

  one_more :
      (s : MemoryStore) (c : Condition) (values : Run → Run) (i : ℕ) (o : Option Run)
      → Suits c values
      → Touched may change s i o
      → Touched may change s i (changed_where c values i o)
  one_more s c values i none u h = h
  one_more s c values i (some x) u (inl h) = elim (Bool-cases (c i x)) [
    | inl named ↦
        let (allowed, this) = u.meant i x named in rw (named, this) (inr (x, sym h, allowed, refl))
    | inr other ↦ rw other (inl h)
  ]
  one_more s c values i (some x) u (inr (r, here, allowed, this)) =
      let again : c i x ≡ false =
        subst (λ y. c i y ≡ false) (sym (some-injective x (change r) this)) (u.once i r) in
      rw again (inr (r, here, allowed, this))

  pub update-IsUnderway :
      {T : Type 0} (e : Engine T) (law : IsSql e) (c : Condition) (values : Run → Run) (t : T)
      (s : MemoryStore)
      → Suits c values
      → IsUnderway may change s (e.rows t)
      → IsUnderway may change s (e.rows (e.update c values t).0)
  update-IsUnderway e law c values t s suits u = record {
    numbered = update-Numbered e law c values t u.numbered;
    sequence = sequence-update e law c values t ∙ u.sequence;
    rows = λ i.
        subst (Touched may change s i) (sym (get-update e law c values t i))
          (one_more s c values i (get (e.rows t) i) suits (u.rows i));
  }

-- ===== src/Store/Contract/Underway.antt =====
-- A call that changes one run after another: each run is changed at most once.
use queuefy.Prelude.{
  ℕ, ◌≡◌, refl, sym, subst, ◌∙◌, inl, inr, ◌⊎◌, Bool, true, false, Option, some, ◌==◌, Bool-cases,
  ==_iff,
}
use mathlib.Core.Option.{some-injective}
use queuefy.Run.{Run}
use queuefy.Store.Memory.Rows.{MemoryStore, get}
use queuefy.Store.Memory.Invariant.Numbers.{Numbered}

module _ (may : Run → Bool) (change : Run → Run) where
  -- A number whose row could be changed and was, or that is as it was.
  abbrev pub Touched : MemoryStore → ℕ → Option Run → Type 0
  Touched s i o =
      (o ≡ get s i) ⊎ ((r : Run) × (get s i ≡ some r) × (may r ≡ true) × (o ≡ some (change r)))

  -- How far the call has come from a store.
  pub record IsUnderway (s s' : MemoryStore) : Type 0 where
    pub numbered : Numbered s'
    pub sequence : s'.sequence ≡ s.sequence
    pub rows : (i : ℕ) → Touched s i (get s' i)

  pub begun : (s : MemoryStore) → Numbered s → IsUnderway s s
  begun s n = record { numbered = n; sequence = refl; rows = λ i. inl refl }

  touch :
      (s : MemoryStore) (i : ℕ) (o : Option Run) (r : Run)
      → may r ≡ true
      → ((x : Run) → may x ≡ true → may (change x) ≡ false)
      → o ≡ some r
      → Touched s i o
      → Touched s i (some (change r))
  touch s i o r allowed once here (inl as_was) = inr (r, sym as_was ∙ here, allowed, refl)
  touch s i o r allowed once here (inr (x, there, may_x, this)) =
      let same : change x ≡ r = some-injective (change x) r (sym this ∙ here) in
      let never : false ≡ true = sym (once x may_x) ∙ (rw same allowed) in absurd (cc)

  -- One run that may be changed is changed, and no other.
  pub one_more :
      (s s' s'' : MemoryStore) (i : ℕ) (r : Run)
      → ((x : Run) → may x ≡ true → may (change x) ≡ false)
      → IsUnderway s s'
      → get s' i ≡ some r
      → may r ≡ true
      → Numbered s''
      → s''.sequence ≡ s'.sequence
      → get s'' i ≡ some (change r)
      → ((j : ℕ) → (i == j) ≡ false → get s'' j ≡ get s' j)
      → IsUnderway s s''
  one_more s s' s'' i r once u here allowed n seq now others = record {
    numbered = n;
    sequence = seq ∙ u.sequence;
    rows = λ j. elim (Bool-cases (i == j)) [
      | inl this ↦
          let same : i ≡ j = (==_iff i j).0 this in
          rw (← same)
            (subst (Touched s i) (sym now) (touch s i (get s' i) r allowed once here (u.rows i)))
      | inr other ↦ subst (Touched s j) (sym (others j other)) (u.rows j)
    ];
  }

-- ===== src/Prelude/Updates.antt =====
-- A conditional change of every entry of an association list, as a statement over a table makes it.
use queuefy.Prelude.{
  ℕ, ◌≡◌, refl, ap, ◌&&◌, Bool, Option, none, some, List, [], ◌∷◌, arith, ◌==◌, if◌then◌else◌, All,
  keep, inl, inr, Bool-cases, ==_iff, ==_refl, length,
}
use mathlib.Core.Option.{some-injective}
use queuefy.Prelude.Assoc.{lookup, Distinct, put}

module _ {ℓ} {V : Type ℓ} where
  unfoldable pub change_where : (ℕ → V → Bool) → (V → V) → List (ℕ × V) → List (ℕ × V)
  change_where c f [] = []
  change_where c f ((k, v) ∷ m) = (k, if c k v then f v else v) ∷ change_where c f m

  abbrev pub changed_where : (ℕ → V → Bool) → (V → V) → ℕ → Option V → Option V
  changed_where c f i none = none
  changed_where c f i (some v) = some (if c i v then f v else v)

  pub lookup-change_where :
      (c : ℕ → V → Bool) (f : V → V) (i : ℕ) (m : List (ℕ × V))
      → lookup i (change_where c f m) ≡ changed_where c f i (lookup i m)
  unfolding lookup change_where
  lookup-change_where c f i [] = refl
  lookup-change_where c f i ((k, v) ∷ m) = elim (Bool-cases (k == i)) [
    | inl same ↦ rw ((==_iff k i).0 same, ==_refl i) refl
    | inr other ↦ rw other (lookup-change_where c f i m)
  ]

  pub change_where-Distinct :
      (c : ℕ → V → Bool) (f : V → V) (m : List (ℕ × V)) → Distinct m → Distinct (change_where c f m)
  unfolding change_where
  change_where-Distinct c f [] d = tt
  change_where-Distinct c f ((k, v) ∷ m) d =
      (rw (lookup-change_where c f k m, d.0) refl, change_where-Distinct c f m d.1)

  -- A property of the keys alone is kept.
  pub change_where_keys {κ} :
      (P : ℕ → Type κ) (c : ℕ → V → Bool) (f : V → V) (m : List (ℕ × V))
      → All (λ (e : ℕ × V). P e.0) m
      → All (λ (e : ℕ × V). P e.0) (change_where c f m)
  unfolding change_where
  change_where_keys P c f [] h = tt
  change_where_keys P c f ((k, v) ∷ m) h = (h.0, change_where_keys P c f m h.1)

  -- A change that applies nowhere is none.
  pub change_where-none :
      (c : ℕ → V → Bool) (f : V → V) (i : ℕ) (m : List (ℕ × V))
      → lookup i m ≡ none
      → change_where (λ k v. k == i && c k v) f m ≡ m
  unfolding lookup change_where
  change_where-none c f i [] e = refl
  change_where-none c f i ((k, v) ∷ m) e = elim (Bool-cases (k == i)) [
    | inl same ↦ let never : some v ≡ none = rw same at e in absurd (cc)
    | inr other ↦ rw other (ap (◌∷◌ (k, v)) (change_where-none c f i m (rw other at e)))
  ]

  -- A change under one key writes what stands there.
  pub change_where-put :
      (c : ℕ → V → Bool) (f : V → V) (i : ℕ) (v : V) (m : List (ℕ × V))
      → Distinct m
      → lookup i m ≡ some v
      → change_where (λ k w. k == i && c k w) f m ≡ (if c i v then put i (f v) m else m)
  unfolding lookup change_where put
  change_where-put c f i v [] d e = absurd (cc)
  change_where-put c f i v ((k, w) ∷ m) d e = elim (Bool-cases (k == i)) [
    | inl same ↦
        let here : k ≡ i = (==_iff k i).0 same in
        let this : w ≡ v = some-injective w v (rw same at e) in
        let gone : lookup i m ≡ none = rw here at d.0 in
        rw (here, ==_refl i, change_where-none c f i m gone, this) (ground arith)
    | inr other ↦ rw (other, change_where-put c f i v m d.1 (rw other at e)) (ground arith)
  ]

  pub keep-none :
      (c : ℕ → V → Bool) (i : ℕ) (m : List (ℕ × V))
      → lookup i m ≡ none
      → keep (λ (e : ℕ × V). e.0 == i && c e.0 e.1) m ≡ []
  unfolding lookup
  keep-none c i [] e = refl
  keep-none c i ((k, v) ∷ m) e = elim (Bool-cases (k == i)) [
    | inl same ↦ let never : some v ≡ none = rw same at e in absurd (cc)
    | inr other ↦ rw other (keep-none c i m (rw other at e))
  ]

  -- At most one entry stands under a key.
  pub length-keep-one :
      (c : ℕ → V → Bool) (i : ℕ) (v : V) (m : List (ℕ × V))
      → Distinct m
      → lookup i m ≡ some v
      → length (keep (λ (e : ℕ × V). e.0 == i && c e.0 e.1) m) ≡ (if c i v then 1 else 0)
  unfolding lookup
  length-keep-one c i v [] d e = absurd (cc)
  length-keep-one c i v ((k, w) ∷ m) d e = elim (Bool-cases (k == i)) [
    | inl same ↦
        let here : k ≡ i = (==_iff k i).0 same in
        let this : w ≡ v = some-injective w v (rw same at e) in
        let gone : lookup i m ≡ none = rw here at d.0 in
        rw (here, ==_refl i, this)
          (elim (Bool-cases (c i v)) [
            | inl fits ↦ rw (fits, keep-none c i m gone) refl
            | inr misfits ↦ rw (misfits, keep-none c i m gone) refl
          ])
    | inr other ↦ rw other (length-keep-one c i v m d.1 (rw other at e))
  ]

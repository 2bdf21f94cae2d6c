-- ===== src/Prelude/Assoc.antt =====
-- Association lists over numbered keys, in insertion order: the dictionaries of the program.
use mathlib.Core.Option.{some-injective}
use queuefy.Prelude.{
  ℕ, zero, suc, ◌<◌, Bool, ◌≡◌, refl, subst, Option, none, some, List, [], ◌∷◌, ◌++◌, arith, ◌==◌,
  if◌then◌else◌, All, keep, take, inl, inr, Bool-cases, ==_iff, ==_refl,
}

module _ {ℓ} {V : Type ℓ} where
  unfoldable pub lookup : ℕ → List (ℕ × V) → Option V
  lookup i [] = none
  lookup i ((k, v) ∷ m) = if k == i then some v else lookup i m

  -- What stands under a key is replaced in place; a key that is absent stays absent.
  unfoldable pub put : ℕ → V → List (ℕ × V) → List (ℕ × V)
  put i w [] = []
  put i w ((k, v) ∷ m) = if k == i then (k, w) ∷ m else (k, v) ∷ put i w m

  unfoldable pub remove : ℕ → List (ℕ × V) → List (ℕ × V)
  remove i [] = []
  remove i ((k, v) ∷ m) = if k == i then m else (k, v) ∷ remove i m

  -- `for each entry of es: change its value in place`.
  unfoldable pub put_each : (V → V) → List (ℕ × V) → List (ℕ × V) → List (ℕ × V)
  unfolding put
  put_each change [] m = m
  put_each change ((k, v) ∷ es) m = put_each change es (put k (change v) m)

  unfoldable pub remove_each : List (ℕ × V) → List (ℕ × V) → List (ℕ × V)
  unfolding remove
  remove_each [] m = m
  remove_each ((k, v) ∷ es) m = remove_each es (remove k m)

  -- A value put over one that is there.
  abbrev pub over : V → Option V → Option V
  over w none = none
  over w (some v) = some w

  abbrev pub first_some : Option V → Option V → Option V
  first_some none d = d
  first_some (some v) d = some v

  abbrev pub Distinct : List (ℕ × V) → Type ℓ
  Distinct [] = Unit
  Distinct ((k, v) ∷ m) = (lookup k m ≡ none) × Distinct m

module _ {ℓ} {V : Type ℓ} where
  pub lookup-put :
      (i j : ℕ) (w : V) (m : List (ℕ × V))
      → lookup j (put i w m) ≡ (if i == j then over w (lookup j m) else lookup j m)
  unfolding lookup put
  lookup-put i j w [] = ground arith
  lookup-put i j w ((k, v) ∷ m) = ground (arith, lookup-put i j w m)

  pub lookup-append :
      (i : ℕ) (m n : List (ℕ × V)) → lookup i (m ++ n) ≡ first_some (lookup i m) (lookup i n)
  unfolding lookup
  lookup-append i [] n = refl
  lookup-append i ((k, v) ∷ m) n = ground (arith, lookup-append i m n)

  pub lookup-remove :
      (i j : ℕ) (m : List (ℕ × V))
      → Distinct m
      → lookup j (remove i m) ≡ (if i == j then none else lookup j m)
  unfolding lookup remove
  lookup-remove i j [] d = ground arith
  lookup-remove i j ((k, v) ∷ m) d = ground (arith, lookup-remove i j m d.1)

  pub put-Distinct : (i : ℕ) (w : V) (m : List (ℕ × V)) → Distinct m → Distinct (put i w m)
  unfolding put
  put-Distinct i w [] d = tt
  put-Distinct i w ((k, v) ∷ m) d = ground (arith, put-Distinct i w m d.1, lookup-put i k w m)

  pub remove-Distinct : (i : ℕ) (m : List (ℕ × V)) → Distinct m → Distinct (remove i m)
  unfolding remove
  remove-Distinct i [] d = tt
  remove-Distinct i ((k, v) ∷ m) d =
      ground (arith, remove-Distinct i m d.1, lookup-remove i k m d.1)

  -- A key at or past a strict bound of the keys is absent.
  pub lookup_past :
      (n i : ℕ) (m : List (ℕ × V)) → All (λ (e : ℕ × V). e.0 < n) m → n ≡ i → lookup i m ≡ none
  unfolding lookup
  lookup_past n i [] h e = refl
  lookup_past n i ((k, v) ∷ m) h e = ground (arith, lookup_past n i m h.1)

  pub append-Distinct :
      (i : ℕ) (v : V) (m : List (ℕ × V))
      → lookup i m ≡ none
      → Distinct m
      → Distinct (m ++ (i, v) ∷ [])
  unfolding lookup
  append-Distinct i v [] h d = (refl, tt)
  append-Distinct i v ((k, w) ∷ m) h d =
      ground (arith, append-Distinct i v m, lookup-append k m ((i, v) ∷ []))

module _ {ℓ} {V : Type ℓ} where
  abbrev pub changed : (V → V) → Option V → Option V → Option V
  changed f none d = d
  changed f (some v) d = over (f v) d

  -- The entries that `put_each` walks are the ones that it changes.
  pub lookup-put_each :
      (f : V → V) (i : ℕ) (es m : List (ℕ × V))
      → Distinct es
      → lookup i (put_each f es m) ≡ changed f (lookup i es) (lookup i m)
  unfolding lookup put_each
  lookup-put_each f i [] m d = refl
  lookup-put_each f i ((k, v) ∷ es) m d =
      ground (arith, lookup-put_each f i es (put k (f v) m) d.1, lookup-put k i (f v) m)

  pub put_each-Distinct :
      (f : V → V) (es m : List (ℕ × V)) → Distinct m → Distinct (put_each f es m)
  unfolding put_each
  put_each-Distinct f [] m d = d
  put_each-Distinct f ((k, v) ∷ es) m d =
      put_each-Distinct f es (put k (f v) m) (put-Distinct k (f v) m d)

  abbrev pub cleared : Option V → Option V → Option V
  cleared none d = d
  cleared (some v) d = none

  pub lookup-remove_each :
      (i : ℕ) (es m : List (ℕ × V))
      → Distinct m
      → lookup i (remove_each es m) ≡ cleared (lookup i es) (lookup i m)
  unfolding lookup remove_each
  lookup-remove_each i [] m d = refl
  lookup-remove_each i ((k, v) ∷ es) m d =
      ground
        (arith, lookup-remove_each i es (remove k m) (remove-Distinct k m d), lookup-remove k i m d)

  pub remove_each-Distinct : (es m : List (ℕ × V)) → Distinct m → Distinct (remove_each es m)
  unfolding remove_each
  remove_each-Distinct [] m d = d
  remove_each-Distinct ((k, v) ∷ es) m d =
      remove_each-Distinct es (remove k m) (remove-Distinct k m d)

  abbrev pub such : (ℕ × V → Bool) → ℕ → Option V → Option V
  such p i none = none
  such p i (some v) = if p (i, v) then some v else none

  -- Among the entries that pass a test, a key has its value if that passes.
  pub lookup-keep :
      (p : ℕ × V → Bool) (i : ℕ) (m : List (ℕ × V))
      → Distinct m
      → lookup i (keep p m) ≡ such p i (lookup i m)
  unfolding lookup
  lookup-keep p i [] d = refl
  lookup-keep p i ((k, v) ∷ m) d = elim (Bool-cases (k == i)) [
    | inl same ↦
        let e : k ≡ i = (==_iff k i).0 same in
        let d' : lookup i m ≡ none = rw e at d.0 in
        rw (e, ==_refl i) (ground (arith, lookup-keep p i m d.1))
    | inr other ↦ ground (arith, lookup-keep p i m d.1)
  ]

  pub keep-Distinct : (p : ℕ × V → Bool) (m : List (ℕ × V)) → Distinct m → Distinct (keep p m)
  keep-Distinct p [] d = tt
  keep-Distinct p ((k, v) ∷ m) d = ground (arith, keep-Distinct p m d.1, lookup-keep p k m d.1)

  pub lookup-take :
      (n i : ℕ) (m : List (ℕ × V)) (v : V) → lookup i (take n m) ≡ some v → lookup i m ≡ some v
  unfolding lookup
  lookup-take zero i m v e = cc
  lookup-take (suc n) i [] v e = e
  lookup-take (suc n) i ((k, w) ∷ m) v e = ground (arith, lookup-take n i m v)

  pub lookup-take-none :
      (n i : ℕ) (m : List (ℕ × V)) → lookup i m ≡ none → lookup i (take n m) ≡ none
  unfolding lookup
  lookup-take-none zero i m e = refl
  lookup-take-none (suc n) i [] e = refl
  lookup-take-none (suc n) i ((k, w) ∷ m) e = ground (arith, lookup-take-none n i m)

  pub take-Distinct : (n : ℕ) (m : List (ℕ × V)) → Distinct m → Distinct (take n m)
  take-Distinct zero m d = tt
  take-Distinct (suc n) [] d = tt
  take-Distinct (suc n) ((k, v) ∷ m) d = (lookup-take-none n k m d.0, take-Distinct n m d.1)

module _ {ℓ κ} {V : Type ℓ} (P : ℕ × V → Type κ) where
  pub put-All : (i : ℕ) (w : V) (m : List (ℕ × V)) → P (i, w) → All P m → All P (put i w m)
  unfolding put
  put-All i w [] p h = tt
  put-All i w ((k, v) ∷ m) p h = elim (Bool-cases (k == i)) [
    | inl same ↦ rw same (rw ((==_iff k i).0 same) p, h.1)
    | inr other ↦ rw other (h.0, put-All i w m p h.1)
  ]

  pub remove-All : (i : ℕ) (m : List (ℕ × V)) → All P m → All P (remove i m)
  unfolding remove
  remove-All i [] h = tt
  remove-All i ((k, v) ∷ m) h = ground (arith, remove-All i m h.1)

  pub append-All : (e : ℕ × V) (m : List (ℕ × V)) → P e → All P m → All P (m ++ e ∷ [])
  append-All e [] p h = (p, tt)
  append-All e (x ∷ m) p h = (h.0, append-All e m p h.1)

  pub lookup-All : (i : ℕ) (v : V) (m : List (ℕ × V)) → All P m → lookup i m ≡ some v → P (i, v)
  unfolding lookup
  lookup-All i v [] h e = absurd (cc)
  lookup-All i v ((k, w) ∷ m) h e = elim (Bool-cases (k == i)) [
    | inl same ↦ subst P (λ j. ((==_iff k i).0 same j, some-injective w v (rw same at e) j)) h.0
    | inr other ↦ lookup-All i v m h.1 (rw other at e)
  ]

  -- A property of the keys alone is kept whatever is put.
  pub put_keys :
      (i : ℕ) (w : V) (m : List (ℕ × V))
      → ((k : ℕ) (v v' : V) → P (k, v) → P (k, v'))
      → All P m
      → All P (put i w m)
  unfolding put
  put_keys i w [] keeps h = tt
  put_keys i w ((k, v) ∷ m) keeps h = ground (arith, keeps k v w h.0, put_keys i w m keeps h.1)

  pub put_each_keys :
      (f : V → V) (es m : List (ℕ × V))
      → ((k : ℕ) (v v' : V) → P (k, v) → P (k, v'))
      → All P m
      → All P (put_each f es m)
  unfolding put_each
  put_each_keys f [] m keeps h = h
  put_each_keys f ((k, v) ∷ es) m keeps h =
      put_each_keys f es (put k (f v) m) keeps (put_keys k (f v) m keeps h)

  pub remove_each-All : (es m : List (ℕ × V)) → All P m → All P (remove_each es m)
  unfolding remove_each
  remove_each-All [] m g = g
  remove_each-All ((k, v) ∷ es) m g = remove_each-All es (remove k m) (remove-All k m g)

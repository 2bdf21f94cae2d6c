-- ===== src/Prelude/Text.antt =====
-- Python's text: the sequence of its code points, lone surrogates included.
use Prim.Native.Char.{code}
use Prim.Native.String.{String}
use queuefy.Prelude.{
  ℕ, ◌≡◌, refl, Bool, true, false, ◌&&◌, Option, none, some, List, [], ◌∷◌, arith, ◌==◌ as nat_eq,
}

abbrev pub Text : Type 0
Text = List ℕ

-- A literal.
abbrev pub codes : String → Text
codes String.[] = []
codes (String.◌∷◌ c s) = code c ∷ codes s

infix 50 ◌==◌
unfoldable pub ◌==◌ : Text → Text → Bool
[] == [] = true
[] == (y ∷ ys) = false
(x ∷ xs) == [] = false
(x ∷ xs) == (y ∷ ys) = nat_eq x y && (xs == ys)

pub eq_refl : (xs : Text) → (xs == xs) ≡ true
unfolding ◌==◌
eq_refl [] = refl
eq_refl (x ∷ xs) = ground (arith, eq_refl xs)

pub eq_of_test : (xs ys : Text) → (xs == ys) ≡ true → xs ≡ ys
unfolding ◌==◌
eq_of_test [] [] h = refl
eq_of_test [] (y ∷ ys) h = cc
eq_of_test (x ∷ xs) [] h = cc
eq_of_test (x ∷ xs) (y ∷ ys) h = ground (arith, eq_of_test xs ys)

-- The test on an optional text against a given one: nothing is no text.
abbrev pub is_some_eq : Option Text → Text → Bool
is_some_eq none y = false
is_some_eq (some x) y = x == y

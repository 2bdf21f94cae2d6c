-- ===== src/Worker/Messages/Writable.antt =====
-- A message is always something that every store takes.
use queuefy.Prelude.{
  ℕ, zero, suc, ◌-◌, ◌/◌, ◌%◌, ◌≤◌, ◌<◌, ◌≡◌, refl, inl, inr, Bool, true, false, not, ◌&&◌, [], ◌∷◌,
  ◌++◌, arith, ltb, leb, ◌==◌, length, take, any, all, Bool-cases, length-take, length-append,
}
use native.Mathlib.Nat.{mod-lt}
use queuefy.Prelude.Text.{Text, codes}
use queuefy.Errors.{ok}
use queuefy.Value.{text}
use queuefy.Store.Base.{error_limit, error_type_limit}
use queuefy.App.Payload.{encodable}
use queuefy.App.Guards.{holdable, writable}
use queuefy.Worker.Messages.{cut, hex, storable_char, storable, described}

-- A character that every store takes.
abbrev fine : ℕ → Bool
fine c = not (c == 0) && not (leb 55296 c && leb c 57343)

all-append : (s t : Text) → all fine s ≡ true → all fine t ≡ true → all fine (s ++ t) ≡ true
all-append [] t h k = k
all-append (c ∷ s) t h k = ground (arith, all-append s t)

all-take : (n : ℕ) (t : Text) → all fine t ≡ true → all fine (take n t) ≡ true
all-take zero t h = refl
all-take (suc n) [] h = refl
all-take (suc n) (c ∷ t) h = ground (arith, all-take n t)

fine-hex : (d : ℕ) → fine (hex d) ≡ true
unfolding hex
fine-hex d = let l : d % 16 < 16 = mod-lt d (omega arith) in ground arith

fine-storable_char : (c : ℕ) → all fine (storable_char c) ≡ true
unfolding storable_char
fine-storable_char c = elim (Bool-cases (c == 0)) [
  | inl nul ↦ rw nul refl
  | inr other ↦ elim (Bool-cases (leb 55296 c && leb c 57343)) [
    | inl surrogate ↦
        rw
          (other, surrogate, fine-hex (c / 4096), fine-hex (c / 256), fine-hex (c / 16), fine-hex c)
          refl
    | inr plain ↦ ground arith
  ]
]

fine-storable : (t : Text) → all fine (storable t) ≡ true
unfolding storable
fine-storable [] = refl
fine-storable (c ∷ t) =
    all-append (storable_char c) (storable t) (fine-storable_char c) (fine-storable t)

fine-cut : (t : Text) (limit : ℕ) → all fine t ≡ true → all fine (cut t limit) ≡ true
unfolding cut
fine-cut t limit h = elim (Bool-cases (leb (length t) limit)) [
  | inl short ↦ rw short h
  | inr long ↦
      rw long (all-append (take (limit - 3) t) (codes "...") (all-take (limit - 3) t h) refl)
]

length-cut : (t : Text) (limit : ℕ) → 3 ≤ limit → length (cut t limit) ≤ limit
unfolding cut
length-cut t limit h = elim (Bool-cases (leb (length t) limit)) [
  | inl short ↦ rw short (ground arith)
  | inr long ↦
      rw long
        (omega (arith, length-append (take (limit - 3) t) (codes "..."), length-take (limit - 3) t))
]

fine-writable :
    (t : Text) → all fine t ≡ true → (encodable t ≡ true) × (any (λ c. c == 0) t ≡ false)
unfolding encodable
fine-writable [] h = (refl, refl)
fine-writable (c ∷ t) h = ground (arith, fine-writable t)

not_over : (n limit : ℕ) → n ≤ limit → ltb limit n ≡ false
not_over n limit h = ground arith

-- Whatever a failure says of itself, the message that a store is told passes the guard that names
-- have to pass: it is no longer than the column, and holds no surrogate and no nul byte; a name of a
-- class is cut to its own column.
pub described-holdable :
    (spoken kind : Text)
    → (holdable (text (described spoken kind).0) error_limit ≡ ok (described spoken kind).0)
      × (length (described spoken kind).1 ≤ error_type_limit)
unfolding described holdable writable
described-holdable spoken kind =
    let message = cut (storable spoken) error_limit in
    let (encodes, no_nul) =
      fine-writable message (fine-cut (storable spoken) error_limit (fine-storable spoken)) in
    let fits : ltb error_limit (length message) ≡ false =
      not_over (length message) error_limit
        (length-cut (storable spoken) error_limit (omega arith)) in
    (rw (encodes, no_nul, fits) refl, length-cut kind error_type_limit (omega arith))

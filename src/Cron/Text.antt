-- ===== src/Cron/Text.antt =====
-- The methods of Python's text, and `int`, that src/queuefy/cron.py calls.
-- Which characters are white space and which are decimal digits is Python's table of characters, a
-- parameter.
use queuefy.Prelude.{
  ℕ, ◌+◌, ◌*◌, Bool, true, false, Option, none, some, List, [], ◌∷◌, ◌++◌, leb, ◌==◌, if◌then◌else◌,
}
use mathlib.Core.List.{reverse}
use mathlib.Core.Option
use queuefy.Prelude.Int.{ℤ, pos, ◌-ℤ◌}
use queuefy.Prelude.Text.{Text}

pub record Unicode : Type 0 where
  pub is_space : ℕ → Bool
  pub decimal : ℕ → Option ℕ

unfoldable pub partition_from : ℕ → Text → Text → Text × Bool × Text
partition_from sep seen [] = (seen, false, [])
partition_from sep seen (c ∷ t) =
    if c == sep then (seen, true, t) else partition_from sep (seen ++ c ∷ []) t

-- `text.partition(sep)`, with whether the separator was met.
unfoldable pub partition : ℕ → Text → Text × Bool × Text
unfolding partition_from
partition sep t = partition_from sep [] t

unfoldable pub split_from : ℕ → Text → Text → List Text
split_from sep piece [] = piece ∷ []
split_from sep piece (c ∷ t) =
    let closed = split_from sep [] t in
    let longer = split_from sep (piece ++ c ∷ []) t in if c == sep then piece ∷ closed else longer

-- `text.split(sep)`.
unfoldable pub split : ℕ → Text → List Text
unfolding split_from
split sep t = split_from sep [] t

abbrev pub pieces : Text → List Text → List Text
pieces [] rest = rest
pieces (c ∷ t) rest = (c ∷ t) ∷ rest

module _ (u : Unicode) where
  unfoldable pub words_from : Text → Text → List Text
  words_from word [] = pieces word []
  words_from word (c ∷ t) =
      let closed = words_from [] t in
      let longer = words_from (word ++ c ∷ []) t in
      if u.is_space c then pieces word closed else longer

  -- `text.split()`: the runs of characters that are no white space.
  unfoldable pub words : Text → List Text
  unfolding words_from
  words t = words_from [] t

  -- The digits after the first, one underscore allowed before each; the value so far, and how many.
  unfoldable pub digits_from : ℕ → ℕ → Text → Option (ℕ × ℕ)
  digits_from value count [] = some (value, count)
  digits_from value count (c ∷ []) = elim (u.decimal c) [
    | none ↦ none
    | some d ↦ some (value * 10 + d, count + 1)
  ]
  digits_from value count (c ∷ e ∷ t) = elim (u.decimal c) [
    | some d ↦ digits_from (value * 10 + d) (count + 1) (e ∷ t)
    | none ↦ elim (u.decimal e) [
      | none ↦ none
      | some d ↦ if c == b'_' then digits_from (value * 10 + d) (count + 1) t else none
    ]
  ]

  unfoldable pub digits : Text → Option ℕ
  unfolding digits_from
  digits [] = none
  digits (c ∷ t) = elim (u.decimal c) [
    | none ↦ none
    | some d ↦ elim (digits_from d 1 t) [
      | none ↦ none
      -- Python refuses to read more digits than these.
      | some (value, count) ↦ if leb count 4300 then some value else none
    ]
  ]

  unfoldable pub lstrip : Text → Text
  lstrip [] = []
  lstrip (c ∷ t) = if u.is_space c then lstrip t else c ∷ t

  unfoldable pub strip : Text → Text
  unfolding lstrip
  strip t = reverse (lstrip (reverse (lstrip t)))

  unfoldable pub signed : Text → Option ℤ
  unfolding digits
  signed [] = none
  signed (c ∷ t) =
      if c == b'-'
      then Option.map (λ n. pos 0 -ℤ pos n) (digits t)
      else (if c == b'+' then Option.map pos (digits t) else Option.map pos (digits (c ∷ t)))

  -- `int(value)`; nothing where Python raises ValueError.
  unfoldable pub int_of : Text → Option ℤ
  unfolding signed strip
  int_of t = signed (strip t)

-- ===== src/Cron/Bounds.antt =====
-- What `parse` lets through: each field is a sorted set of values of its range.
use queuefy.Prelude.{
  ℕ, zero, suc, ◌+◌, ◌-◌, ◌*◌, ◌/◌, ◌≤◌, ◌<◌, ◌≡◌, refl, inl, inr, false, ◌||◌, arith, ltb, ◌==◌,
  if◌then◌else◌, Bool-cases, ltb→lt, All, All-map, List, [], ◌∷◌,
}
use native.Mathlib.Numerals.{add-one}
use native.Mathlib.Nat.{mul-div-le}
use queuefy.Prelude.Int.{ℤ, pos, ltb_ℤ, leb_ℤ}
use queuefy.Prelude.Text.{Text}
use queuefy.Errors.{ok, ◌>>◌, raise_if, >>=-eq-ok, cron_error}
use queuefy.Cron.Text.{Unicode, split, partition}
use queuefy.Cron.Values.{elem, add_value, update, range_from, range_set, to_ℕ}
use queuefy.Cron.Parse.{number_of, ends_of, values_of, values_of_all, field_of}
use queuefy.Cron.Times.{Ascending}

-- A value of the range from `low` to `high`.
abbrev pub Within : ℕ → ℕ → ℕ → Type 0
Within low high v = (low ≤ v) × (v ≤ high)

abbrev pub IsField : ℕ → ℕ → List ℕ → Type 0
IsField low high vs = Ascending vs × All (Within low high) vs

pub add_value-All : (P : ℕ → Type 0) (v : ℕ) (xs : List ℕ) → P v → All P xs → All P (add_value v xs)
unfolding add_value
add_value-All P v [] p h = (p, tt)
add_value-All P v (x ∷ xs) p h = ground (arith, add_value-All P v xs p h.1)

above_trans : (a b : ℕ) (xs : List ℕ) → a < b → All (λ y. b < y) xs → All (λ y. a < y) xs
above_trans a b xs l h = All-map (λ (y : ℕ) (k : b < y). omega arith) xs h

pub add_value-Ascending : (v : ℕ) (xs : List ℕ) → Ascending xs → Ascending (add_value v xs)
unfolding add_value
add_value-Ascending v [] a = (tt, tt)
add_value-Ascending v (x ∷ xs) a = ground (
  arith,
  above_trans v x xs,
  add_value-Ascending v xs a.1,
  λ (l : x < v). add_value-All (λ y. x < y) v xs l a.0,
)

elem-add_value : (x v : ℕ) (xs : List ℕ) → elem x (add_value v xs) ≡ (v == x || elem x xs)
unfolding add_value
elem-add_value x v [] = refl
elem-add_value x v (y ∷ ys) = ground (arith, elem-add_value x v ys)

update-All : (P : ℕ → Type 0) (xs vs : List ℕ) → All P xs → All P vs → All P (update xs vs)
unfolding update
update-All P xs [] h k = h
update-All P xs (v ∷ vs) h k = update-All P (add_value v xs) vs (add_value-All P v xs k.0 h) k.1

update-Ascending : (xs vs : List ℕ) → Ascending xs → Ascending (update xs vs)
unfolding update
update-Ascending xs [] a = a
update-Ascending xs (v ∷ vs) a = update-Ascending (add_value v xs) vs (add_value-Ascending v xs a)

-- The union holds the values of both.
pub elem-update : (x : ℕ) (xs vs : List ℕ) → elem x (update xs vs) ≡ (elem x xs || elem x vs)
unfolding update
elem-update x xs [] = ground arith
elem-update x xs (v ∷ vs) = ground (arith, elem-update x (add_value v xs) vs, elem-add_value x v xs)

range_from-All :
    (low stop start step k : ℕ)
    → low ≤ start
    → start + step * k < stop
    → All (λ y. (low ≤ y) × (y < stop)) (range_from start step (suc k))
unfolding range_from
range_from-All low stop start step zero l h = (omega arith, tt)
range_from-All low stop start step (suc k) l h =
    (omega arith, range_from-All low stop (start + step) step k (omega arith) (omega arith))

stays_below :
    (start end step : ℕ)
    → start < end + 1
    → 0 < step
    → start + step * ((end + 1 - start - 1) / step) < end + 1
stays_below start end step l p = omega (arith, mul-div-le (end + 1 - start - 1) step)

range_set-All :
    (low high start end step : ℕ)
    → low ≤ start
    → end ≤ high
    → 0 < step
    → All (Within low high) (range_set start (end + 1) step)
unfolding range_set
range_set-All low high start end step l h p = elim (Bool-cases (ltb start (end + 1))) [
  | inl some_values ↦
      let k = (end + 1 - start - 1) / step in
      rw (some_values, add-one k)
        (All-map
          (λ (y : ℕ) (w : (low ≤ y) × (y < end + 1)). let r : Within low high y = omega arith in r)
          (range_from start step (suc k))
          (range_from-All low (end + 1) start step k l
            (stays_below start end step (ltb→lt start (end + 1) some_values) p)))
  | inr no_values ↦ rw no_values tt
]

-- What the guards of `values_of` leave.
checked-All :
    (low high : ℕ) (ends : ℤ × ℤ) (step : ℤ) (vs : List ℕ)
    → leb_ℤ step (pos 0) ≡ false
    → (raise_if
          (ltb_ℤ ends.0 (pos low) || (ltb_ℤ (pos high) ends.1 || ltb_ℤ ends.1 ends.0))
          cron_error
        >> ok (range_set (to_ℕ ends.0) (to_ℕ ends.1 + 1) (to_ℕ step)))
      ≡ ok vs
    → All (Within low high) vs
checked-All low high (a, b) step vs g e =
    ground (arith, range_set-All low high (to_ℕ a) (to_ℕ b) (to_ℕ step))

values_of-All :
    (u : Unicode) (token : Text) (low high : ℕ) (vs : List ℕ)
    → values_of u token low high ≡ ok vs
    → All (Within low high) vs
unfolding values_of
values_of-All u token low high vs e =
    let (base, sliced, step_spec) = partition b'/' token in
    let (step, _, e1) = >>=-eq-ok (if sliced then number_of u step_spec else ok (pos 1)) _ e in
    let (_, g, e2) = >>=-eq-ok (raise_if (leb_ℤ step (pos 0)) cron_error) _ e1 in
    let (ends, _, e3) = >>=-eq-ok (ends_of u base sliced low high) _ e2 in
    checked-All low high ends step vs (ground arith) e3

values_of_all-IsField :
    (u : Unicode) (tokens : List Text) (low high : ℕ) (xs vs : List ℕ)
    → IsField low high xs
    → values_of_all u tokens low high xs ≡ ok vs
    → IsField low high vs
unfolding values_of_all
values_of_all-IsField u [] low high xs vs f e = ground arith
values_of_all-IsField u (token ∷ tokens) low high xs vs f e =
    let (more, first, rest) = >>=-eq-ok (values_of u token low high) _ e in
    values_of_all-IsField u tokens low high (update xs more) vs
      (
        update-Ascending xs more f.0,
        update-All (Within low high) xs more f.1 (values_of-All u token low high more first),
      )
      rest

-- A field that is accepted holds values of its range, in order and each once.
pub field_of-IsField :
    (u : Unicode) (spec : Text) (low high : ℕ) (vs : List ℕ)
    → field_of u spec low high ≡ ok vs
    → IsField low high vs
unfolding field_of
field_of-IsField u spec low high vs e =
    values_of_all-IsField u (split b',' spec) low high [] vs (tt, tt) e

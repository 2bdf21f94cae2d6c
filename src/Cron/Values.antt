-- ===== src/Cron/Values.antt =====
-- Sets of numbers, as src/queuefy/cron.py builds them: sorted lists without repetition.
use queuefy.Prelude.{
  ℕ, zero, suc, ◌+◌, ◌-◌, ◌/◌, Bool, List, [], ◌∷◌, ltb, ◌==◌, if◌then◌else◌, any,
}
use queuefy.Prelude.Int.{ℤ, pos, negsuc}

unfoldable pub add_value : ℕ → List ℕ → List ℕ
add_value v [] = v ∷ []
add_value v (x ∷ xs) =
    if ltb v x then v ∷ x ∷ xs else (if v == x then x ∷ xs else x ∷ add_value v xs)

unfoldable pub update : List ℕ → List ℕ → List ℕ
unfolding add_value
update set [] = set
update set (v ∷ vs) = update (add_value v set) vs

unfoldable pub remove_value : ℕ → List ℕ → List ℕ
remove_value v [] = []
remove_value v (x ∷ xs) = if x == v then xs else x ∷ remove_value v xs

abbrev pub elem : ℕ → List ℕ → Bool
elem v = any (λ x. x == v)

-- `count` values from `start`, `step` apart.
unfoldable pub range_from : ℕ → ℕ → ℕ → List ℕ
range_from start step zero = []
range_from start step (suc count) = start ∷ range_from (start + step) step count

-- `set(range(start, stop, step))` for a step that is at least 1.
unfoldable pub range_set : ℕ → ℕ → ℕ → List ℕ
unfolding range_from
range_set start stop step =
    if ltb start stop then range_from start step ((stop - start - 1) / step + 1) else []

abbrev pub to_ℕ : ℤ → ℕ
to_ℕ (pos n) = n
to_ℕ (negsuc n) = 0

-- ===== src/Store/Redis/Claiming/Levels.antt =====
-- The levels and the entries that CLAIM of src/queuefy/store/redis.py gathers, in their order.
use queuefy.Prelude.{
  ℕ, ◌≡◌, ◌≢◌, refl, inl, inr, true, ◌||◌, List, [], ◌∷◌, ◌++◌, arith, if◌then◌else◌, All, any,
  Bool-cases,
}
use queuefy.Prelude.Int.{ℤ, ◌≤ℤ◌, ltb_ℤ, ◌==ℤ◌, ==ℤ_iff}
use queuefy.Prelude.Text.{Text, eq_of_test, ◌==◌ as text_eq}
use queuefy.Run.{Instant}
use queuefy.Store.Memory.Claiming.{serves}
use queuefy.Store.Redis.Places.{lane, stamp}
use queuefy.Store.Redis.Commands.{lists, Commands}
use queuefy.Store.Redis.Claiming.{
  Waiting, insert_level, sort_levels, sooner, insert_waiting, sort_waiting, add_levels, waiting_at,
  gather, ready,
}

-- Levels from the highest to the lowest.
abbrev pub Falling : List ℤ → Type 0
Falling [] = Unit
Falling (x ∷ xs) = All (λ (y : ℤ). y ≤ℤ x) xs × Falling xs

insert_level-All :
    (P : ℤ → Type 0) (x : ℤ) (xs : List ℤ) → P x → All P xs → All P (insert_level x xs)
unfolding insert_level
insert_level-All P x [] p h = (p, tt)
insert_level-All P x (y ∷ ys) p h = elim (Bool-cases (ltb_ℤ x y)) [
  | inl below ↦ rw below (h.0, insert_level-All P x ys p h.1)
  | inr above ↦ rw above (p, h)
]

All_below :
    (x y : ℤ) (xs : List ℤ) → y ≤ℤ x → All (λ (z : ℤ). z ≤ℤ y) xs → All (λ (z : ℤ). z ≤ℤ x) xs
All_below x y [] le h = tt
All_below x y (z ∷ xs) le h = (omega (arith, h.0), All_below x y xs le h.1)

insert_level-Falling : (x : ℤ) (xs : List ℤ) → Falling xs → Falling (insert_level x xs)
unfolding insert_level
insert_level-Falling x [] f = (tt, tt)
insert_level-Falling x (y ∷ ys) f = elim (Bool-cases (ltb_ℤ x y)) [
  | inl below ↦
      rw below
        (insert_level-All (λ z. z ≤ℤ y) x ys (ground arith) f.0, insert_level-Falling x ys f.1)
  | inr above ↦ let le : y ≤ℤ x = ground arith in rw above ((le, All_below x y ys le f.0), f)
]

pub sort_levels-Falling : (xs : List ℤ) → Falling (sort_levels xs)
unfolding sort_levels
sort_levels-Falling [] = tt
sort_levels-Falling (x ∷ xs) = insert_level-Falling x (sort_levels xs) (sort_levels-Falling xs)

lists-insert_level :
    (l x : ℤ) (xs : List ℤ) → lists l (x ∷ xs) ≡ true → lists l (insert_level x xs) ≡ true
unfolding insert_level
lists-insert_level l x [] h = h
lists-insert_level l x (y ∷ ys) h = elim (Bool-cases (ltb_ℤ x y)) [
  | inl below ↦ rw below (elim (Bool-cases (y ==ℤ l)) [
    | inl this ↦ rw this refl
    | inr other ↦ rw other (lists-insert_level l x ys (rw other at h))
  ])
  | inr above ↦ rw above h
]

pub lists-sort_levels : (l : ℤ) (xs : List ℤ) → lists l xs ≡ true → lists l (sort_levels xs) ≡ true
unfolding sort_levels
lists-sort_levels l [] h = h
lists-sort_levels l (x ∷ xs) h =
    lists-insert_level l x (sort_levels xs) (elim (Bool-cases (x ==ℤ l)) [
      | inl this ↦ rw this refl
      | inr other ↦ rw other (lists-sort_levels l xs (rw other at h))
    ])

lists-snoc : (l x : ℤ) (xs : List ℤ) → lists l xs || x ==ℤ l ≡ true → lists l (xs ++ x ∷ []) ≡ true
lists-snoc l x [] h = ground (arith, h)
lists-snoc l x (y ∷ ys) h = elim (Bool-cases (y ==ℤ l)) [
  | inl this ↦ rw this refl
  | inr other ↦ rw other (lists-snoc l x ys (rw other at h))
]

-- Nothing that is gathered is lost.
lists-add_levels :
    (l : ℤ) (ls levels : List ℤ)
    → lists l levels || lists l ls ≡ true
    → lists l (add_levels levels ls) ≡ true
unfolding add_levels
lists-add_levels l [] levels h = ground (arith, h)
lists-add_levels l (x ∷ ls) levels h = lists-add_levels l ls (base levels x) (kept h)
  where
    base : List ℤ → ℤ → List ℤ
    base levels' x' = if any (λ m. m ==ℤ x') levels' then levels' else levels' ++ x' ∷ []

    had : lists l levels || x ==ℤ l ≡ true → lists l (base levels x) ≡ true
    had h' = elim (Bool-cases (any (λ m. m ==ℤ x) levels)) [
      | inl seen ↦ rw seen (elim (Bool-cases (x ==ℤ l)) [
        | inl this ↦ rw (← (==ℤ_iff x l).0 this) seen
        | inr other ↦ ground (arith, h', other)
      ])
      | inr new ↦ rw new (lists-snoc l x levels h')
    ]

    kept : lists l levels || lists l (x ∷ ls) ≡ true → lists l (base levels x) || lists l ls ≡ true
    kept h' = elim (Bool-cases (lists l levels || x ==ℤ l)) [
      | inl there ↦ rw (had there) refl
      | inr elsewhere ↦ ground (arith, h', elsewhere)
    ]

module _ {T : Type 0} (e : Commands T) (t : T) where
  gather-keeps :
      (l : ℤ) (queues : List Text) (levels : List ℤ)
      → lists l levels ≡ true
      → lists l (gather e queues levels t) ≡ true
  unfolding gather
  gather-keeps l [] levels h = h
  gather-keeps l (q ∷ queues) levels h =
      gather-keeps l queues (add_levels levels (e.levels_of q t))
        (lists-add_levels l (e.levels_of q t) levels (rw h refl))

  pub lists-gather :
      (l : ℤ) (queue : Text) (queues : List Text) (levels : List ℤ)
      → serves queues queue ≡ true
      → lists l (e.levels_of queue t) ≡ true
      → lists l (gather e queues levels t) ≡ true
  unfolding gather serves
  lists-gather l queue [] levels served h = absurd (cc)
  lists-gather l queue (q ∷ queues) levels served h = elim (Bool-cases (text_eq queue q)) [
    | inl this ↦
        let listed : lists l (e.levels_of q t) ≡ true = rw (← eq_of_test queue q this) h in
        gather-keeps l queues (add_levels levels (e.levels_of q t))
          (lists-add_levels l (e.levels_of q t) levels (rw listed (ground arith)))
    | inr other ↦
        lists-gather l queue queues (add_levels levels (e.levels_of q t)) (rw other at served) h
  ]

  some_waiting :
      (queue : Text) (level : ℤ) (l : List (ℕ × ℤ)) → l ≢ [] → waiting_at queue level l ≢ []
  some_waiting queue level [] h = absurd (h refl)
  some_waiting queue level (m ∷ l) h = λ never. cc

  -- A lane with a member that is due makes its level ready.
  pub ready-some :
      (queue : Text) (queues : List Text) (level : ℤ) (moment : Instant) (most : ℕ)
      → serves queues queue ≡ true
      → e.due (lane queue level) (stamp moment) most t ≢ []
      → ready e queues level moment most t ≢ []
  unfolding ready serves
  ready-some queue [] level moment most served h = absurd (cc)
  ready-some queue (q ∷ queues) level moment most served h = elim (Bool-cases (text_eq queue q)) [
    | inl this ↦
        let due_there : e.due (lane q level) (stamp moment) most t ≢ [] =
          rw (← eq_of_test queue q this) h in
        left_some (waiting_at q level (e.due (lane q level) (stamp moment) most t))
          (ready e queues level moment most t)
          (some_waiting q level (e.due (lane q level) (stamp moment) most t) due_there)
    | inr other ↦
        right_some (waiting_at q level (e.due (lane q level) (stamp moment) most t))
          (ready e queues level moment most t)
          (ready-some queue queues level moment most (rw other at served) h)
  ]
    where
      left_some : (xs ys : List Waiting) → xs ≢ [] → xs ++ ys ≢ []
      left_some [] ys some_of = absurd (some_of refl)
      left_some (x ∷ xs) ys some_of = λ never. cc

      right_some : (xs ys : List Waiting) → ys ≢ [] → xs ++ ys ≢ []
      right_some [] ys some_of = some_of
      right_some (x ∷ xs) ys some_of = λ never. cc

insert_waiting-All :
    (P : Waiting → Type 0) (x : Waiting) (xs : List Waiting)
    → P x
    → All P xs
    → All P (insert_waiting x xs)
unfolding insert_waiting
insert_waiting-All P x [] p h = (p, tt)
insert_waiting-All P x (y ∷ ys) p h = elim (Bool-cases (sooner y x)) [
  | inl after_it ↦ rw after_it (h.0, insert_waiting-All P x ys p h.1)
  | inr before_it ↦ rw before_it (p, h)
]

pub sort_waiting-All :
    (P : Waiting → Type 0) (xs : List Waiting) → All P xs → All P (sort_waiting xs)
unfolding sort_waiting
sort_waiting-All P [] h = tt
sort_waiting-All P (x ∷ xs) h =
    insert_waiting-All P x (sort_waiting xs) h.0 (sort_waiting-All P xs h.1)

insert_waiting-some : (x : Waiting) (xs : List Waiting) → insert_waiting x xs ≢ []
unfolding insert_waiting
insert_waiting-some x [] = λ never. cc
insert_waiting-some x (y ∷ ys) = elim (Bool-cases (sooner y x)) [
  | inl after_it ↦ rw after_it (λ never. cc)
  | inr before_it ↦ rw before_it (λ never. cc)
]

pub sort_waiting-some : (xs : List Waiting) → xs ≢ [] → sort_waiting xs ≢ []
unfolding sort_waiting
sort_waiting-some [] h = absurd (h refl)
sort_waiting-some (x ∷ xs) h = insert_waiting-some x (sort_waiting xs)

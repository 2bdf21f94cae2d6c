-- ===== src/Cron/Times.antt =====
-- The loops of `time_on`: the first minute of a day, at or after the moment, that two sorted sets
-- name.
use queuefy.Prelude.{ℕ, ◌+◌, ◌*◌, ◌≤◌, ◌<◌, ◌≡◌, ◌⊎◌, true, none, some, List, [], ◌∷◌, arith, All}
use queuefy.Cron.Values.{elem}
use queuefy.Cron.Next.{minute_on, time_from}

abbrev pub Ascending : List ℕ → Type 0
Ascending [] = Unit
Ascending (x ∷ xs) = All (λ y. x < y) xs × Ascending xs

pub All-elem : (n x : ℕ) (xs : List ℕ) → All (λ y. n < y) xs → elem x xs ≡ true → n < x
All-elem n x [] a h = absurd (cc)
All-elem n x (y ∷ ys) a h = ground (arith, All-elem n x ys a.1)

pub below-elem : (n x : ℕ) (xs : List ℕ) → All (λ y. y < n) xs → elem x xs ≡ true → x < n
below-elem n x [] a h = absurd (cc)
below-elem n x (y ∷ ys) a h = ground (arith, below-elem n x ys a.1)

module _ (h m hour : ℕ) where
  minute_on-none :
      (ms : List ℕ) (y : ℕ) → minute_on h m hour ms ≡ none → elem y ms ≡ true → (hour ≤ h) × (y < m)
  unfolding minute_on
  minute_on-none [] y e i = absurd (cc)
  minute_on-none (x ∷ ms) y e i = ground (arith, minute_on-none ms y)

  minute_on-some :
      (ms : List ℕ) (t : ℕ × ℕ)
      → minute_on h m hour ms ≡ some t
      → (t.0 ≡ hour) × (elem t.1 ms ≡ true) × ((h < hour) ⊎ (m ≤ t.1))
  unfolding minute_on
  minute_on-some [] t e = absurd (cc)
  minute_on-some (x ∷ ms) t e = ground (arith, minute_on-some ms t)

  minute_on_least :
      (ms : List ℕ) (t : ℕ × ℕ) (y : ℕ)
      → Ascending ms
      → minute_on h m hour ms ≡ some t
      → elem y ms ≡ true
      → y < t.1
      → (hour ≤ h) × (y < m)
  unfolding minute_on
  minute_on_least [] t y a e i l = absurd (cc)
  minute_on_least (x ∷ ms) t y a e i l =
      ground (arith, minute_on_least ms t y a.1, All-elem x t.1 ms a.0, All-elem x y ms a.0)

abbrev pub of_day : ℕ → ℕ → ℕ
of_day h m = h * 60 + m

module _ (h m : ℕ) (minutes : List ℕ) (short : m < 60) (in_hour : All (λ y. y < 60) minutes) where
  -- When the loops find nothing, every time that the sets name is before the moment.
  pub time_from-none :
      (hours : List ℕ) (x y : ℕ)
      → time_from h m minutes hours ≡ none
      → elem x hours ≡ true
      → elem y minutes ≡ true
      → of_day x y < of_day h m
  unfolding time_from
  time_from-none [] x y e i j = absurd (cc)
  time_from-none (hour ∷ hours) x y e i j = ground (
    arith,
    below-elem 60 y minutes in_hour,
    minute_on-none h m hour minutes y,
    time_from-none hours x y,
  )

  pub time_from-some :
      (hours : List ℕ) (t : ℕ × ℕ)
      → time_from h m minutes hours ≡ some t
      → (elem t.0 hours ≡ true) × (elem t.1 minutes ≡ true) × (of_day h m ≤ of_day t.0 t.1)
  unfolding time_from
  time_from-some [] t e = absurd (cc)
  time_from-some (hour ∷ hours) t e = ground (
    arith,
    below-elem 60 t.1 minutes in_hour,
    minute_on-some h m hour minutes t,
    time_from-some hours t,
  )

  -- What the loops find is the first time, at or after the moment, that the sets name.
  pub time_from_least :
      (hours : List ℕ) (t : ℕ × ℕ) (x y : ℕ)
      → Ascending minutes
      → Ascending hours
      → time_from h m minutes hours ≡ some t
      → elem x hours ≡ true
      → elem y minutes ≡ true
      → of_day h m ≤ of_day x y
      → of_day t.0 t.1 ≤ of_day x y
  unfolding time_from
  time_from_least [] t x y a b e i j l = absurd (cc)
  time_from_least (hour ∷ hours) t x y a b e i j l = ground (
    arith,
    below-elem 60 y minutes in_hour,
    below-elem 60 t.1 minutes in_hour,
    minute_on-none h m hour minutes y,
    minute_on-some h m hour minutes t,
    minute_on_least h m hour minutes t y,
    All-elem hour x hours b.0,
    All-elem hour t.0 hours b.0,
    time_from-some hours t,
    time_from_least hours t x y,
  )

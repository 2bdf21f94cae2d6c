-- ===== src/Cron/Walk.antt =====
-- The reference that the search over the days is measured against: minute after minute.
use queuefy.Prelude.{
  ℕ, zero, suc, ◌+◌, ◌*◌, ◌<◌, ◌≡◌, refl, ap, inl, inr, Bool, ◌&&◌, Option, none, some, arith,
  Option-cases,
}
use native.Mathlib.Nat.{zero-add}
use queuefy.Calendar.{Date, Datetime, next_day, add_minute}
use queuefy.Cron.Values.{elem}
use queuefy.Cron.Parse.{Schedule}
use queuefy.Cron.Next.{on_day, at_time}
use queuefy.Cron.Times.{of_day}

-- `count` minutes after `c`.
unfoldable pub later : ℕ → Datetime → Option Datetime
later zero c = some c
later (suc count) c = elim (add_minute c) [ none ↦ none | some c' ↦ later count c' ]

-- The expression names this minute.
unfoldable pub matches : Schedule → Datetime → Bool
matches s c = on_day s c.date && (elem c.hour s.hours && elem c.minute s.minutes)

abbrev pub IsTime : Datetime → Type 0
IsTime c = (c.hour < 24) × (c.minute < 60)

abbrev pub minute_of_day : Datetime → ℕ
minute_of_day c = of_day c.hour c.minute

abbrev pub midnight : Datetime → Option Date → Option Datetime
midnight c none = none
midnight c (some d) = some (record c { date = d; hour = 0; minute = 0 })

-- Within a day the walk only moves the clock.
pub later_same_day :
    (count : ℕ) (c : Datetime) (x y : ℕ)
    → IsTime c
    → x < 24
    → y < 60
    → of_day x y ≡ minute_of_day c + count
    → later count c ≡ some (at_time c (x, y))
unfolding later add_minute
later_same_day zero c x y t hx hy e =
    let eh : c.hour ≡ x = omega arith in
    let em : c.minute ≡ y = omega arith in λ i. some (record c { hour = eh i; minute = em i })
later_same_day (suc count) c x y t hx hy e = ground (
  arith,
  later_same_day count (record c { minute = c.minute + 1 }) x y,
  later_same_day count (record c { hour = c.hour + 1; minute = 0 }) x y,
)

last_minute :
    (count : ℕ) (c : Datetime)
    → IsTime c
    → minute_of_day c + suc count ≡ 24 * 60
    → c.hour ≡ 23
    → c.minute ≡ 59
    → later count c ≡ some c
unfolding later
last_minute zero c t e h m = refl
last_minute (suc count) c t e h m = absurd (omega arith)

-- At the end of the day it comes to the next midnight.
pub later-midnight :
    (count : ℕ) (c : Datetime)
    → IsTime c
    → minute_of_day c + count ≡ 24 * 60
    → later count c ≡ midnight c (next_day c.date)
unfolding later add_minute
later-midnight zero c t e = absurd (omega arith)
later-midnight (suc count) c t e = ground (
  arith,
  last_minute count c t,
  later-midnight count (record c { minute = c.minute + 1 }),
  later-midnight count (record c { hour = c.hour + 1; minute = 0 }),
)

pub later-add :
    (a b n : ℕ) (c : Datetime)
    → n ≡ a + b
    → later n c ≡ elim (later a c) [ none ↦ none | some x ↦ later b x ]
unfolding later
later-add zero b n c e = rw zero-add at (ap (λ k. later k c) e)
later-add (suc a) b zero c e = absurd (omega arith)
later-add (suc a) b (suc n) c e = elim (Option-cases (add_minute c)) [
  | inl over ↦ rw (over, later)
  | inr (c', on) ↦ rw (on, later) (later-add a b n c' (omega arith))
]

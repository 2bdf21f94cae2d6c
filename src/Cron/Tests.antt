-- ===== src/Cron/Tests.antt =====
-- Expressions and moments from tests/test_cron.py, and the theorems at concrete inputs.
use queuefy.Prelude.{
  ℕ, ◌-◌, ◌≡◌, refl, ◌&&◌, none, some, [], ◌∷◌, leb, ◌==◌, if◌then◌else◌, arith, false,
}
use queuefy.Prelude.Text.{codes, ◌==◌ as text_eq}
use queuefy.Errors.{ok, err, cron_error}
use queuefy.Calendar.{Datetime, add_minute, next_day, weekday}
use queuefy.Cron.Text.{Unicode}
use queuefy.Cron.Parse.{Schedule, parse}
use queuefy.Cron.Walk.{later, matches, IsTime}
use queuefy.Cron.First.{IsFirst}
use queuefy.Cron.Answer.{next_after-IsFirst, next_after-finds}
use queuefy.Cron.Next.{
  next_after, search_days, first_candidate, found_on, next_midnight, on_day, time_on,
}

abbrev ascii : Unicode
ascii = record {
  is_space = λ c. c == 32;
  decimal = λ c. if leb 48 c && leb c 57 then some (c - 48) else none;
}

abbrev at : ℕ → ℕ → ℕ → ℕ → ℕ → Datetime
at year month day hour minute = record {
  date = record { year = year; month = month; day = day };
  hour = hour;
  minute = minute;
  second = 0;
  microsecond = 0;
}

program : Unit {0}
unfolding next_after parse search_days first_candidate add_minute found_on next_midnight next_day
    on_day weekday time_on text_eq later matches
program = tt

every_quarter : next_after ascii (codes "*/15 * * * *") (at 2026 1 1 10 7) ≡ ok (at 2026 1 1 10 15)
unfolding program
every_quarter = refl

leap_sunday : next_after ascii (codes "0 0 29 2 */7") (at 2088 3 1 0 0) ≡ ok (at 2128 2 29 0 0)
unfolding program
leap_sunday = refl

weekday_or_day : next_after ascii (codes "0 9 1 * 1") (at 2026 1 2 0 0) ≡ ok (at 2026 1 5 9 0)
unfolding program
weekday_or_day = refl

no_thirtieth : parse ascii (codes "0 0 30 2 *") ≡ err cron_error
unfolding program
no_thirtieth = refl

abbrev mondays : Schedule
mondays = record {
  minutes = 0 ∷ [];
  hours = 9 ∷ [];
  days = 1 ∷ [];
  months = 1 ∷ 2 ∷ 3 ∷ 4 ∷ 5 ∷ 6 ∷ 7 ∷ 8 ∷ 9 ∷ 10 ∷ 11 ∷ 12 ∷ [];
  weekdays = 1 ∷ [];
  day_starred = false;
  weekday_starred = false;
}

second_of_january : IsTime (at 2026 1 2 0 0)
second_of_january = (omega arith, omega arith)

next_after-IsFirst_example :
    (s : Schedule) × (c : Datetime) × (parse ascii (codes "0 9 1 * 1") ≡ ok s)
    × (first_candidate (at 2026 1 2 0 0) ≡ ok c)
    × IsFirst s c (at 2026 1 5 9 0)
unfolding program
next_after-IsFirst_example =
    next_after-IsFirst ascii (codes "0 9 1 * 1") (at 2026 1 2 0 0) second_of_january
      (at 2026 1 5 9 0) refl

next_after-finds_example :
    (r : Datetime) × (next_after ascii (codes "0 9 1 * 1") (at 2026 1 2 0 0) ≡ ok r)
unfolding program
next_after-finds_example =
    next_after-finds ascii (codes "0 9 1 * 1") (at 2026 1 2 0 0) second_of_january mondays
      (at 2026 1 2 0 1) (at 2026 1 5 9 0) 4859 refl refl refl refl (omega arith)

-- ===== src/Calendar.antt =====
-- The part of Python's `datetime` that src/queuefy/cron.py uses: the proleptic Gregorian calendar
-- from year 1 to year 9999. A zone is carried along unchanged by every operation here, so a datetime
-- is the wall clock that it shows.
use queuefy.Prelude.{
  ℕ, suc, ◌+◌, ◌-◌, ◌*◌, ◌/◌, ◌%◌, Bool, not, ◌&&◌, ◌||◌, Option, none, some, List, [], ◌∷◌, ◌++◌,
  ltb, ◌==◌, if◌then◌else◌,
}

pub record Date : Type 0 where
  pub year : ℕ
  pub month : ℕ
  pub day : ℕ

pub record Datetime : Type 0 where
  pub date : Date
  pub hour : ℕ
  pub minute : ℕ
  pub second : ℕ
  pub microsecond : ℕ

unfoldable pub is_leap : ℕ → Bool
is_leap y = y % 4 == 0 && (not (y % 100 == 0) || y % 400 == 0)

unfoldable pub days_in_month : ℕ → ℕ → ℕ
unfolding is_leap
days_in_month y m =
    if m == 2
    then (if is_leap y then 29 else 28)
    else (if m == 4 || (m == 6 || (m == 9 || m == 11)) then 30 else 31)

-- `date + timedelta(days=1)`; nothing past 9999-12-31.
unfoldable pub next_day : Date → Option Date
unfolding days_in_month
next_day d =
    if ltb d.day (days_in_month d.year d.month)
    then some (record d { day = d.day + 1 })
    else (if ltb d.month 12
        then some (record d { month = d.month + 1; day = 1 })
        else (if ltb d.year 9999
            then some (record { year = d.year + 1; month = 1; day = 1 })
            else none))

unfoldable pub days_before_month : ℕ → ℕ → ℕ
unfolding days_in_month
days_before_month y ℕ.zero = 0
days_before_month y (suc ℕ.zero) = 0
days_before_month y (suc (suc m)) = days_before_month y (suc m) + days_in_month y (suc m)

unfoldable pub days_before_year : ℕ → ℕ
days_before_year y = (y - 1) * 365 + (y - 1) / 4 - (y - 1) / 100 + (y - 1) / 400

unfoldable pub to_ordinal : Date → ℕ
unfolding days_before_year days_before_month
to_ordinal d = days_before_year d.year + days_before_month d.year d.month + d.day

-- Monday is 0.
unfoldable pub weekday : Date → ℕ
unfolding to_ordinal
weekday d = (to_ordinal d + 6) % 7

-- `moment + timedelta(minutes=1)`.
unfoldable pub add_minute : Datetime → Option Datetime
add_minute c =
    if ltb (c.minute + 1) 60
    then some (record c { minute = c.minute + 1 })
    else (if ltb (c.hour + 1) 24
        then some (record c { hour = c.hour + 1; minute = 0 })
        else elim (next_day c.date) [
          | none ↦ none
          | some d ↦ some (record c { date = d; hour = 0; minute = 0 })
        ])

-- `date.fromordinal`, by the cycles of 400, 100, 4 and 1 years; the days left of the year, from 0.
unfoldable pub month_and_day : ℕ → ℕ → ℕ → ℕ → Date
unfolding days_in_month
month_and_day ℕ.zero y m n = record { year = y; month = m; day = n + 1 }
month_and_day (suc months) y m n =
    let later = month_and_day months y (m + 1) (n - days_in_month y m) in
    if ltb n (days_in_month y m) then record { year = y; month = m; day = n + 1 } else later

unfoldable pub from_ordinal : ℕ → Date
unfolding month_and_day
from_ordinal ordinal =
    let n = ordinal - 1 in
    let n400 = n % 146097 in
    let n100 = n400 % 36524 in
    let n4 = n100 % 1461 in
    let year = n / 146097 * 400 + n400 / 36524 * 100 + n100 / 1461 * 4 + n4 / 365 in
    if n4 / 365 == 4 || n400 / 36524 == 4
    then record { year = year; month = 12; day = 31 }
    else month_and_day 11 (year + 1) 1 (n4 % 365)

-- The wall clock in utc of a count of microseconds from the first instant.
unfoldable pub datetime_of : ℕ → Datetime
unfolding from_ordinal
datetime_of t = record {
  date = from_ordinal (t / 86400000000 + 1);
  hour = t / 3600000000 % 24;
  minute = t / 60000000 % 60;
  second = t / 1000000 % 60;
  microsecond = t % 1000000;
}

-- The count of microseconds from the first instant to a wall clock in utc.
unfoldable pub instant_of : Datetime → ℕ
unfolding to_ordinal
instant_of c =
    (to_ordinal c.date - 1) * 86400000000
    + c.hour * 3600000000
    + c.minute * 60000000
    + c.second * 1000000
    + c.microsecond

unfoldable pub padded : ℕ → ℕ → List ℕ
padded ℕ.zero n = []
padded (suc width) n = padded width (n / 10) ++ (48 + n % 10) ∷ []

-- `isoformat` of a datetime whose zone is utc.
unfoldable pub isoformat : Datetime → List ℕ
unfolding padded
isoformat c =
    padded 4 c.date.year
    ++ 45 ∷ padded 2 c.date.month
    ++ 45 ∷ padded 2 c.date.day
    ++ 84 ∷ padded 2 c.hour
    ++ 58 ∷ padded 2 c.minute
    ++ 58 ∷ padded 2 c.second
    ++ (if c.microsecond == 0 then [] else 46 ∷ padded 6 c.microsecond)
    ++ 43 ∷ 48 ∷ 48 ∷ 58 ∷ 48 ∷ 48 ∷ []

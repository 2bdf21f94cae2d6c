-- ===== src/Cron/Next.antt =====
-- src/queuefy/cron.py: which days match, which minute of a day, and the search over the days.
use queuefy.Prelude.{
  ℕ, zero, suc, ◌+◌, ◌*◌, ◌%◌, Bool, ◌&&◌, ◌||◌, Option, none, some, List, [], ◌∷◌, ltb, leb,
  if◌then◌else◌,
}
use queuefy.Prelude.Text.{Text}
use queuefy.Errors.{Result, ok, err, ◌>>=◌, cron_error, overflow_error}
use queuefy.Calendar.{Date, Datetime, weekday, next_day, add_minute}
use queuefy.Cron.Text.{Unicode}
use queuefy.Cron.Values.{elem}
use queuefy.Cron.Parse.{Schedule, parse}

-- HORIZON.
abbrev pub horizon : ℕ
horizon = 41 * 366

unfoldable pub on_day : Schedule → Date → Bool
on_day s d =
    let day_match = elem d.day s.days in
    let weekday_match = elem ((weekday d + 1) % 7) s.weekdays in
    elem d.month s.months
    && (if s.day_starred || s.weekday_starred
        then day_match && weekday_match
        else day_match || weekday_match)

-- The loop over the minutes of one hour.
unfoldable pub minute_on : ℕ → ℕ → ℕ → List ℕ → Option (ℕ × ℕ)
minute_on h m hour [] = none
minute_on h m hour (minute ∷ minutes) =
    if ltb h hour || leb m minute then some (hour, minute) else minute_on h m hour minutes

-- The loop over the hours: `h` and `m` are those of the moment.
unfoldable pub time_from : ℕ → ℕ → List ℕ → List ℕ → Option (ℕ × ℕ)
unfolding minute_on
time_from h m minutes [] = none
time_from h m minutes (hour ∷ hours) =
    let later = time_from h m minutes hours in
    if ltb hour h
    then later
    else elim (minute_on h m hour minutes) [ none ↦ later | some t ↦ some t ]

abbrev pub at_time : Datetime → ℕ × ℕ → Datetime
at_time c (hour, minute) = record c { hour = hour; minute = minute }

unfoldable pub time_on : Datetime → List ℕ → List ℕ → Option Datetime
unfolding time_from
time_on c minutes hours = elim (time_from c.hour c.minute minutes hours) [
  | none ↦ none
  | some t ↦ some (at_time c t)
]

-- `(candidate + timedelta(days=1)).replace(hour=0, minute=0)`.
unfoldable pub next_midnight : Datetime → Result Datetime
next_midnight c = elim (next_day c.date) [
  | none ↦ err overflow_error
  | some d ↦ ok (record c { date = d; hour = 0; minute = 0 })
]

unfoldable pub found_on : Schedule → Datetime → Option Datetime
found_on s c = if on_day s c.date then time_on c s.minutes s.hours else none

-- The loop over the days, by the days left to look at.
unfoldable pub search_days : Schedule → ℕ → Datetime → Result Datetime
search_days s zero c = err cron_error
search_days s (suc days) c = elim (found_on s c) [
  | some t ↦ ok t
  | none ↦ elim (next_midnight c) [ err e ↦ err e | ok c' ↦ search_days s days c' ]
]

-- `(moment + timedelta(minutes=1)).replace(second=0, microsecond=0)`.
unfoldable pub first_candidate : Datetime → Result Datetime
first_candidate moment = elim (add_minute moment) [
  | none ↦ err overflow_error
  | some c ↦ ok (record c { second = 0; microsecond = 0 })
]

unfoldable pub next_after : Unicode → Text → Datetime → Result Datetime
next_after u expression moment = do
  schedule ← parse u expression
  candidate ← first_candidate moment
  search_days schedule horizon candidate

-- ===== src/Cron/Answer.antt =====
-- `next_after`: the first minute after a moment that an expression names, and always found.
use queuefy.Prelude.{ℕ, ◌+◌, ◌*◌, ◌<◌, ◌≡◌, true, some, arith}
use queuefy.Prelude.Text.{Text}
use queuefy.Errors.{ok, >>=-eq-ok}
use queuefy.Calendar.{Datetime, add_minute}
use queuefy.Cron.Text.{Unicode}
use queuefy.Cron.Parse.{Schedule, parse}
use queuefy.Cron.Next.{horizon, first_candidate, next_after}
use queuefy.Cron.Walk.{later, matches, IsTime, minute_of_day}
use queuefy.Cron.First.{IsFirst, search_days-IsFirst, search_days-finds}
use queuefy.Cron.Parsed.{parse-IsParsed}

first_candidate-IsTime :
    (moment c : Datetime) → IsTime moment → first_candidate moment ≡ ok c → IsTime c
unfolding first_candidate add_minute
first_candidate-IsTime moment c t e = ground arith

module _ (u : Unicode) (expression : Text) (moment : Datetime) (t : IsTime moment) where
  -- What `next_after` answers is the first minute the expression names of the walk, minute after
  -- minute, that starts at the first whole minute after the moment.
  pub next_after-IsFirst :
      (r : Datetime)
      → next_after u expression moment ≡ ok r
      → (s : Schedule) × (c : Datetime) × (parse u expression ≡ ok s)
        × (first_candidate moment ≡ ok c)
        × IsFirst s c r
  unfolding next_after
  next_after-IsFirst r e =
      let (s, parsed, e') = >>=-eq-ok (parse u expression) _ e in
      let (c, begun, e'') = >>=-eq-ok (first_candidate moment) _ e' in
      (
        s,
        c,
        parsed,
        begun,
        search_days-IsFirst s (parse-IsParsed u expression s parsed).clock horizon c r
            (first_candidate-IsTime moment c t begun) e'',
      )

  -- When the expression parses and names a minute that the walk reaches within the horizon, counted
  -- in whole days from the first candidate, `next_after` answers.
  pub next_after-finds :
      (s : Schedule) (c x : Datetime) (n : ℕ)
      → parse u expression ≡ ok s
      → first_candidate moment ≡ ok c
      → later n c ≡ some x
      → matches s x ≡ true
      → minute_of_day c + n < horizon * (24 * 60)
      → (r : Datetime) × (next_after u expression moment ≡ ok r)
  unfolding next_after
  next_after-finds s c x n parsed begun e h l =
      let (r, found) =
        search_days-finds s (parse-IsParsed u expression s parsed).clock horizon n c x
          (first_candidate-IsTime moment c t begun) e h l in
      (r, rw (parsed, begun) found)

-- ===== src/Cron/Parsed.antt =====
-- What an accepted expression names: five fields within their ranges, and a day that exists.
use queuefy.Prelude.{
  subst, ℕ, ◌<◌, ◌≡◌, inl, inr, Bool, true, false, not, arith, Bool-cases, All, All-map, List, [],
  ◌∷◌,
}
use queuefy.Prelude.Text.{Text}
use queuefy.Errors.{ok, Ensures, >>=-Ensures, ok-injective, raise_if, cron_error}
use queuefy.Cron.Text.{Unicode, words}
use queuefy.Cron.Values.{elem, remove_value}
use queuefy.Cron.Parse.{Schedule, field_of, sundays, reachable, starred, parse_fields, parse}
use queuefy.Cron.Times.{Ascending}
use queuefy.Cron.First.{IsClock}
use queuefy.Cron.Bounds.{Within, IsField, add_value-All, add_value-Ascending, field_of-IsField}

remove_value-All : (P : ℕ → Type 0) (v : ℕ) (xs : List ℕ) → All P xs → All P (remove_value v xs)
unfolding remove_value
remove_value-All P v [] h = tt
remove_value-All P v (x ∷ xs) h = ground (arith, remove_value-All P v xs h.1)

remove_value-Ascending : (v : ℕ) (xs : List ℕ) → Ascending xs → Ascending (remove_value v xs)
unfolding remove_value
remove_value-Ascending v [] a = tt
remove_value-Ascending v (x ∷ xs) a =
    ground (arith, remove_value-All (λ y. x < y) v xs a.0, remove_value-Ascending v xs a.1)

below_seven : (xs : List ℕ) → IsField 0 7 xs → elem 7 xs ≡ false → All (λ y. y < 7) xs
below_seven [] f e = tt
below_seven (x ∷ xs) ((a, b), (c, d)) e = ground (arith, below_seven xs (b, d))

none_past_seven :
    (x : ℕ) (xs : List ℕ) → All (λ y. x < y) xs → All (Within 0 7) xs → x ≡ 7 → All (λ y. y < 7) xs
none_past_seven x [] h k e = tt
none_past_seven x (y ∷ ys) h k e = absurd (omega arith)

without_seven : (xs : List ℕ) → IsField 0 7 xs → All (λ y. y < 7) (remove_value 7 xs)
unfolding remove_value
without_seven [] f = tt
without_seven (x ∷ xs) ((a, b), (c, d)) =
    ground (arith, none_past_seven x xs a d, without_seven xs (b, d))

-- The weekdays that the matcher reads: Sunday is 0 however it was written.
pub sundays-IsWeek :
    (xs : List ℕ) → IsField 0 7 xs → Ascending (sundays xs) × All (λ y. y < 7) (sundays xs)
unfolding sundays
sundays-IsWeek xs f = elim (Bool-cases (elem 7 xs)) [
  | inl seven ↦ rw seven (
    add_value-Ascending 0 (remove_value 7 xs) (remove_value-Ascending 7 xs f.0),
    add_value-All (λ y. y < 7) 0 (remove_value 7 xs) (omega arith) (without_seven xs f),
  )
  | inr no_seven ↦ rw no_seven (f.0, below_seven xs f no_seven)
]

pub record IsParsed (s : Schedule) : Type 0 where
  pub clock : IsClock s
  pub days : IsField 1 31 s.days
  pub months : IsField 1 12 s.months
  pub weekdays : Ascending s.weekdays × All (λ y. y < 7) s.weekdays
  -- Some day that the schedule names is one that a month it names can have.
  pub satisfiable : reachable s.days s.months s.weekday_starred ≡ true

module _ (u : Unicode) where
  minutes_and_hours :
      (f0 f1 : Text) (minutes hours : List ℕ) {days months weekdays : List ℕ} {a b : Bool}
      → field_of u f0 0 59 ≡ ok minutes
      → field_of u f1 0 23 ≡ ok hours
      → IsClock (record {
        minutes = minutes;
        hours = hours;
        days = days;
        months = months;
        weekdays = weekdays;
        day_starred = a;
        weekday_starred = b;
      })
  minutes_and_hours f0 f1 minutes hours p q =
      let (m, m') = field_of-IsField u f0 0 59 minutes p in
      let (h, h') = field_of-IsField u f1 0 23 hours q in
      record {
        minutes_sorted = m;
        hours_sorted = h;
        minutes_below =
            All-map (λ (y : ℕ) (w : Within 0 59 y). let r : y < 60 = omega arith in r) minutes m';
        hours_below =
            All-map (λ (y : ℕ) (w : Within 0 23 y). let r : y < 24 = omega arith in r) hours h';
      }

  parse_fields-IsParsed : (fields : List Text) → Ensures IsParsed (parse_fields u fields)
  unfolding parse_fields
  parse_fields-IsParsed (f0 ∷ f1 ∷ f2 ∷ f3 ∷ f4 ∷ []) =
      >>=-Ensures (field_of u f0 0 59) _ λ minutes p0.
        >>=-Ensures (field_of u f1 0 23) _ λ hours p1. >>=-Ensures (field_of u f2 1 31) _ λ days p2.
          >>=-Ensures (field_of u f3 1 12) _ λ months p3.
            >>=-Ensures (field_of u f4 0 7) _ λ weekdays p4.
              >>=-Ensures (raise_if (not (reachable days months (starred f4))) cron_error) _
                λ _ possible s e. subst IsParsed (ok-injective _ s e) (record {
                  clock = minutes_and_hours f0 f1 minutes hours p0 p1;
                  days = field_of-IsField u f2 1 31 days p2;
                  months = field_of-IsField u f3 1 12 months p3;
                  weekdays = sundays-IsWeek weekdays (field_of-IsField u f4 0 7 weekdays p4);
                  satisfiable = ground arith;
                })
  parse_fields-IsParsed _ = λ s e. absurd (cc)

  pub parse-IsParsed : (expression : Text) (s : Schedule) → parse u expression ≡ ok s → IsParsed s
  unfolding parse
  parse-IsParsed expression s e = parse_fields-IsParsed (words u expression) s e

-- ===== src/Cron/Parse.antt =====
-- src/queuefy/cron.py: an expression read into the values of its five fields.
use queuefy.Prelude.{
  ℕ, ◌+◌, Bool, false, not, ◌||◌, none, some, List, [], ◌∷◌, leb, ◌==◌, if◌then◌else◌, any,
}
use queuefy.Prelude.Int.{ℤ, pos, ltb_ℤ, leb_ℤ}
use queuefy.Prelude.Text.{Text, codes, ◌==◌ as text_eq}
use queuefy.Errors.{Result, ok, err, ◌>>=◌, ◌>>◌, raise_if, cron_error}
use queuefy.Cron.Text.{Unicode, int_of, partition, split, words}
use queuefy.Cron.Values.{elem, add_value, remove_value, update, range_set, to_ℕ}

-- `number_of`: `int(value)`, with the ValueError named after the expression.
unfoldable pub number_of : Unicode → Text → Result ℤ
unfolding int_of
number_of u t = elim (int_of u t) [ none ↦ err cron_error | some n ↦ ok n ]

module _ (u : Unicode) where
  -- The two ends that the base of a token names.
  unfoldable pub ends_of : Text → Bool → ℕ → ℕ → Result (ℤ × ℤ)
  unfolding number_of partition
  ends_of base sliced low high =
      if text_eq base (codes "*")
      then ok (pos low, pos high)
      else (let (start_spec, dashed, end_spec) = partition b'-' base in
          if dashed
          then (do start ← number_of u start_spec; end ← number_of u end_spec; ok (start, end))
          else (do single ← number_of u base; raise_if sliced cron_error; ok (single, single)))

  unfoldable pub values_of : Text → ℕ → ℕ → Result (List ℕ)
  unfolding ends_of number_of partition range_set
  values_of token low high =
      let (base, sliced, step_spec) = partition b'/' token in
      do
        step ← if sliced then number_of u step_spec else ok (pos 1)
        raise_if (leb_ℤ step (pos 0)) cron_error
        ends ← ends_of base sliced low high
        raise_if (ltb_ℤ ends.0 (pos low) || (ltb_ℤ (pos high) ends.1 || ltb_ℤ ends.1 ends.0))
            cron_error
        ok (range_set (to_ℕ ends.0) (to_ℕ ends.1 + 1) (to_ℕ step))

  unfoldable pub values_of_all : List Text → ℕ → ℕ → List ℕ → Result (List ℕ)
  unfolding values_of update
  values_of_all [] low high values = ok values
  values_of_all (token ∷ tokens) low high values = do
    more ← values_of token low high
    values_of_all tokens low high (update values more)

  unfoldable pub field_of : Text → ℕ → ℕ → Result (List ℕ)
  unfolding values_of_all split
  field_of spec low high = values_of_all (split b',' spec) low high []

unfoldable pub starred : Text → Bool
starred [] = false
starred (c ∷ t) = c == b'*'

-- MONTH_LENGTHS, counted from month 1.
abbrev pub longest_month : ℕ → ℕ
longest_month m =
    if m == 2 then 29 else (if m == 4 || (m == 6 || (m == 9 || m == 11)) then 30 else 31)

unfoldable pub reachable : List ℕ → List ℕ → Bool → Bool
reachable days months weekday_starred =
    not weekday_starred || any (λ month. any (λ day. leb day (longest_month month)) days) months

pub record Schedule : Type 0 where
  pub minutes : List ℕ
  pub hours : List ℕ
  pub days : List ℕ
  pub months : List ℕ
  pub weekdays : List ℕ
  pub day_starred : Bool
  pub weekday_starred : Bool

-- Sunday is written as 0 or 7, and the matcher speaks 0.
unfoldable pub sundays : List ℕ → List ℕ
unfolding add_value remove_value
sundays weekdays = if elem 7 weekdays then add_value 0 (remove_value 7 weekdays) else weekdays

module _ (u : Unicode) where
  unfoldable pub parse_fields : List Text → Result Schedule
  unfolding field_of sundays reachable starred
  parse_fields (f0 ∷ f1 ∷ f2 ∷ f3 ∷ f4 ∷ []) = do
    minutes ← field_of u f0 0 59
    hours ← field_of u f1 0 23
    days ← field_of u f2 1 31
    months ← field_of u f3 1 12
    weekdays ← field_of u f4 0 7
    raise_if (not (reachable days months (starred f4))) cron_error
    ok (record {
      minutes = minutes;
      hours = hours;
      days = days;
      months = months;
      weekdays = sundays weekdays;
      day_starred = starred f2;
      weekday_starred = starred f4;
    })
  parse_fields _ = err cron_error

  unfoldable pub parse : Text → Result Schedule
  unfolding parse_fields words
  parse expression = parse_fields (words u expression)

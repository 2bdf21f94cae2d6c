-- ===== src/Clock.antt =====
-- src/queuefy/clock.py: the instants that a datetime holds, and what a span in seconds has to be.
-- An instant is the count of microseconds since the first one, so the earliest slot is 0.
use queuefy.Prelude.{
  ℕ, ◌^◌, ◌+◌, ◌-◌, ◌/◌, suc, Bool, true, false, not, Option, none, some, leb, if◌then◌else◌,
}
use queuefy.Prelude.Int.{ℤ, pos, negsuc, pos_part, neg_part, ltb_ℤ, ◌*ℤ◌, ◌-ℤ◌}
use queuefy.Errors.{Result, ok, err, ◌>>=◌, ◌>>◌, raise_if, queue_error, overflow_error}
use queuefy.Value.{Value, int, float, infinity, ratio}
use queuefy.Run.{Instant}

-- EPOCH: the first instant of 1970.
abbrev pub epoch : Instant
epoch = 62135596800000000

-- WIDEST_SLOT: the last instant of the year 9999.
abbrev pub widest_slot : Instant
widest_slot = 315537897599999999

abbrev pub second : ℕ
second = 1000000

-- WIDEST_SECONDS, a whole number of seconds.
abbrev pub widest_seconds : ℕ
widest_seconds = (widest_slot - epoch) / second

-- `value > bound`, for a number; a comparison with no number in it is not asked for here.
unfoldable pub is_over : Value → ℤ → Bool
unfolding ◌*ℤ◌
is_over (int n) bound = ltb_ℤ bound n
is_over (float (ratio n d)) bound = ltb_ℤ (bound *ℤ pos (suc d)) n
is_over (float (infinity negative)) bound = not negative
is_over _ bound = false

unfoldable pub is_under : Value → ℤ → Bool
unfolding ◌*ℤ◌
is_under (int n) bound = ltb_ℤ n bound
is_under (float (ratio n d)) bound = ltb_ℤ n (bound *ℤ pos (suc d))
is_under (float (infinity negative)) bound = negative
is_under _ bound = false

-- The first whole number that rounds to no finite double.
unfoldable pub double_end : ℕ
double_end = 2 ^ 1024 - 2 ^ 970

-- `isfinite`, which turns a whole number into a double first.
unfoldable pub is_finite : Value → Result Bool
unfolding double_end
is_finite (int n) = if leb double_end (pos_part n + neg_part n) then err overflow_error else ok true
is_finite (float (ratio n d)) = ok true
is_finite _ = ok false

abbrev pub is_number : Value → Bool
is_number (int n) = true
is_number (float x) = true
is_number _ = false

unfoldable pub real : Value → Result (Unit {0})
unfolding is_finite
real value =
    raise_if (not (is_number value)) queue_error
    >> (is_finite value >>= λ finite. raise_if (not finite) queue_error)

unfoldable pub waited : Value → Instant → Result (Unit {0})
unfolding real is_over
waited seconds now =
    real seconds >> raise_if (is_over seconds (pos ((widest_slot - now) / second))) queue_error

unfoldable pub kept : Value → Instant → Result (Unit {0})
unfolding real is_over
kept seconds now = real seconds >> raise_if (is_over seconds (pos (now / second))) queue_error

-- A datetime: its clock, and how far ahead of utc its zone is, where it has one.
pub record Stamp : Type 0 where
  pub clock : Instant
  pub offset : Option ℤ

-- An instant that a datetime holds, of a count from the first one.
unfoldable pub in_range : ℤ → Result Instant
in_range (pos n) = if leb n widest_slot then ok n else err overflow_error
in_range (negsuc n) = err overflow_error

unfoldable pub as_utc : Stamp → Result Instant
unfolding in_range ◌-ℤ◌
as_utc value = elim value.offset [
  | none ↦ ok value.clock
  | some ahead ↦ in_range (pos value.clock -ℤ ahead)
]

-- What is handed over where a span belongs: a timedelta, a count of microseconds, or anything else.
pub data Handed : Type 0 where
  timedelta : ℤ → Handed
  no_span : Handed

-- `total_seconds` is how Python makes a float of the seconds of a span.
unfoldable pub spanned : (ℤ → Value) → Handed → Result Value
spanned total_seconds (timedelta span) = ok (total_seconds span)
spanned total_seconds no_span = err queue_error

-- A driver that holds no offset is handed the naive utc instant.
unfoldable pub naive_utc : Option Stamp → Result (Option Stamp)
unfolding as_utc
naive_utc none = ok none
naive_utc (some value) =
    as_utc value >>= λ instant. ok (some (record { clock = instant; offset = none }))

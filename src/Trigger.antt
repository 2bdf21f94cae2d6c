-- ===== src/Trigger.antt =====
-- src/queuefy/trigger.py: what turns an instant into the next one a recurring task is due.
pub mod Slots
pub mod Cron
use queuefy.Prelude.{ℕ, ◌/◌, not, ltb}
use queuefy.Prelude.Int.{ℤ, pos, negsuc, ◌+ℤ◌, ◌-ℤ◌, ◌*ℤ◌}
use queuefy.Errors.{Result, ok, ◌>>◌, raise_if, queue_error}
use queuefy.Value.{Value}
use queuefy.Run.{Instant}
use queuefy.Clock.{epoch, widest_seconds, real, is_over, in_range}

-- The abstract class: what a task says about when it comes round again. A subclass is its method.
pub record Trigger : Type 0 where
  pub next_after : Instant → Result Instant

-- `timedelta(seconds=...)` rounds a number of seconds to whole microseconds; it is a parameter.
pub record Interval : Type 0 where
  pub seconds : Value
  pub span : ℕ

module _ (span_of : Value → ℕ) where
  -- `__post_init__`, with the span that every call works out again.
  unfoldable pub interval : Value → Result Interval
  unfolding real is_over
  interval seconds =
      real seconds
      >> raise_if (not (is_over seconds (pos 0))) queue_error
      >> raise_if (is_over seconds (pos widest_seconds)) queue_error
      >> raise_if (ltb (span_of seconds) 1) queue_error
      >> ok (record { seconds = seconds; span = span_of seconds })

-- `//` of a signed span by one that advances.
unfoldable pub floor_div : ℤ → ℕ → ℤ
floor_div (pos n) d = pos (n / d)
floor_div (negsuc n) d = negsuc (n / d)

unfoldable pub interval_next_after : ℕ → Instant → Result Instant
unfolding floor_div in_range ◌+ℤ◌ ◌-ℤ◌ ◌*ℤ◌
interval_next_after span moment =
    in_range (pos epoch +ℤ pos span *ℤ (floor_div (pos moment -ℤ pos epoch) span +ℤ pos 1))

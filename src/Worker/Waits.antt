-- ===== src/Worker/Waits.antt =====
-- src/queuefy/worker.py: `waiting`, in microseconds as `timedelta(seconds=...)` makes them.
use queuefy.Prelude.{ℕ}
use queuefy.Value.{Value}
use queuefy.Run.{Run}
use queuefy.Retry.Delays.{Numbers, delay_for}

unfoldable pub waiting : Numbers Value → (Value → ℕ) → Value → Value → Run → ℕ
unfolding delay_for
waiting n span_of jitter drawn run =
    span_of
      (delay_for n run.retry_policy run.retry_delay run.attempts jitter run.max_retry_delay drawn)

-- ===== src/Trigger/Cron.antt =====
-- src/queuefy/trigger.py: `Cron`, over the instants of utc.
use queuefy.Prelude.Text.{Text}
use queuefy.Errors.{Result, ok, err, ◌>>=◌, cron_error}
use queuefy.Value.{Value, text}
use queuefy.Run.{Instant}
use queuefy.Calendar.{datetime_of, instant_of}
use queuefy.Trigger.{Trigger}
use queuefy.Cron.Text.{Unicode}
use queuefy.Cron.Parse.{parse}
use queuefy.Cron.Next.{next_after}

-- An expression that was read once; it is read again by every call.
unfoldable pub cron_next_after : Unicode → Text → Instant → Result Instant
unfolding next_after datetime_of instant_of
cron_next_after u expression moment =
    next_after u expression (datetime_of moment) >>= λ c. ok (instant_of c)

-- `__post_init__`.
unfoldable pub cron : Unicode → Value → Result Text
unfolding parse
cron u (text expression) = parse u expression >>= λ schedule. ok expression
cron u _ = err cron_error

abbrev pub cron_trigger : Unicode → Text → Trigger
cron_trigger u expression = record { next_after = cron_next_after u expression }

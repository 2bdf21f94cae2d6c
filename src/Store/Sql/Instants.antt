-- ===== src/Store/Sql/Instants.antt =====
-- src/queuefy/store/sqlalchemy.py: `UtcDateTime`, the columns that hold instants.
use queuefy.Prelude.{◌≡◌, refl, Option, none, some}
use queuefy.Errors.{Result, ok, err, ◌>>=◌}
use queuefy.Run.{Instant}
use queuefy.Clock.{Stamp, as_utc, naive_utc}

-- What the driver is handed, and what is read of what the driver answers.
unfoldable pub process_bind_param : Option Stamp → Result (Option Stamp)
unfolding naive_utc
process_bind_param value = naive_utc value

unfoldable pub process_result_value : Option Stamp → Result (Option Instant)
unfolding as_utc
process_result_value none = ok none
process_result_value (some value) = as_utc value >>= λ instant. ok (some instant)

-- A datetime of any zone that is written to a column is read back as the instant it is in utc; one
-- that no datetime of utc holds is refused where it is written.
pub bound_and_read :
    (value : Option Stamp)
    → (process_bind_param value >>= process_result_value) ≡ process_result_value value
unfolding process_bind_param process_result_value naive_utc
bound_and_read none = refl
bound_and_read (some value) = read_again (as_utc value)
  where
    read_again :
        (m : Result Instant)
        → ((m >>= λ t. ok (some (record { clock = t; offset = none }))) >>= process_result_value)
          ≡ (m >>= λ t. ok (some t))
    read_again (ok t) = refl
    read_again (err e) = refl

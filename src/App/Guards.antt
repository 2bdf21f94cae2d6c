-- ===== src/App/Guards.antt =====
-- src/queuefy/app.py: what a name, a key, a count and an instant have to be.
-- A guard that lets a value pass answers with it at the type that it has then.
use queuefy.Prelude.{ℕ, ◌++◌, not, ◌&&◌, Option, none, some, [], ◌∷◌, ltb, ◌==◌, length, any}
use queuefy.Prelude.Int.{ℤ, pos, negsuc, leb_ℤ}
use queuefy.Prelude.Text.{Text, codes}
use queuefy.Calendar.{datetime_of, isoformat}
use queuefy.Errors.{Result, ok, err, ◌>>=◌, ◌>>◌, raise_if, queue_error}
use queuefy.Value.{Value, text, int}
use queuefy.Run.{Instant}
use queuefy.Store.Base.{key_limit, priority_limit}
use queuefy.Clock.{Stamp, as_utc}
use queuefy.App.Payload.{encodable}

unfoldable pub occurrence_key : Text → Instant → Text
unfolding isoformat datetime_of
occurrence_key name moment = name ++ codes "@" ++ isoformat (datetime_of moment)

unfoldable pub writable : Value → Result Text
unfolding encodable
writable (text t) = do
  raise_if (not (encodable t)) queue_error
  raise_if (any (λ c. c == 0) t) queue_error
  ok t
writable _ = err queue_error

unfoldable pub holdable : Value → ℕ → Result Text
unfolding writable
holdable value limit = do t ← writable value; raise_if (ltb limit (length t)) queue_error; ok t

unfoldable pub keyed : Value → Result Text
unfolding holdable
keyed (text []) = err queue_error
keyed (text (c ∷ t)) = holdable (text (c ∷ t)) key_limit
keyed _ = err queue_error

unfoldable pub scheduled : Option Stamp → Result Instant
unfolding as_utc
scheduled none = err queue_error
scheduled (some when) = as_utc when

unfoldable pub whole : Value → Result ℤ
whole (int n) = ok n
whole _ = err queue_error

unfoldable pub ranked : Value → Result ℤ
unfolding whole
ranked priority = do
  n ← whole priority
  raise_if (not (leb_ℤ (negsuc 999) n && leb_ℤ n (pos priority_limit))) queue_error
  ok n

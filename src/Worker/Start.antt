-- ===== src/Worker/Start.antt =====
-- src/queuefy/worker.py: `worker_name` and `Worker.__init__`.
pub mod Ready
use queuefy.Prelude.{
  ℕ, ◌-◌, ◌++◌, Bool, true, false, not, Option, none, some, List, [], ◌∷◌, take, length, ◌==◌,
  if◌then◌else◌,
}
use queuefy.Prelude.Int.{ℤ, pos, pos_part, ltb_ℤ, ◌==ℤ◌}
use queuefy.Prelude.Text.{Text}
use queuefy.Errors.{Result, ok, err, ◌>>=◌, ◌>>◌, raise_if, queue_error}
use queuefy.Value.{
  Value, null, boolean, int, float, ratio, text, list, tuple, dict, Items, nil, cons, end,
}
use queuefy.Run.{Instant}
use queuefy.Store.Base.{worker_name_limit, queue_limit}
use queuefy.Clock.{Handed, timedelta, no_span, real, spanned, waited, kept, is_over, is_under}
use queuefy.App.Guards.{holdable, whole}
use queuefy.App.Recurring.{Written}
use queuefy.Worker.Passes.{Worker}

-- `tail` is the pid and the draw; the host gives way to it.
unfoldable pub worker_name : Text → Text → Text
worker_name host tail = take (worker_name_limit - length tail) host ++ tail

-- What `or` passes over.
unfoldable pub is_falsy : Value → Bool
is_falsy null = true
is_falsy (boolean b) = not b
is_falsy (int n) = n ==ℤ pos 0
is_falsy (float (ratio n d)) = n ==ℤ pos 0
is_falsy (text []) = true
is_falsy (list nil) = true
is_falsy (tuple nil) = true
is_falsy (dict end) = true
is_falsy _ = false

unfoldable pub queues_of : Items → Result (List Text)
unfolding holdable
queues_of nil = ok []
queues_of (cons v items) = do
  queue ← holdable v queue_limit
  queues ← queues_of items
  ok (queue ∷ queues)

-- No queues at all, one name, and what is read only once are refused.
unfoldable pub served : Value → Result (List Text)
unfolding queues_of
served (tuple (cons v items)) = queues_of (cons v items)
served (list (cons v items)) = queues_of (cons v items)
served _ = err queue_error

-- What a worker is asked for.
pub record Asked : Type 0 where
  pub name : Value
  pub queues : Value
  pub concurrency : Value
  pub poll : Value
  pub lease : Handed
  pub jitter : Value
  pub grace : Value
  pub keep : Option Handed

abbrev pub span_part : Handed → ℕ
span_part (timedelta n) = pos_part n
span_part no_span = 0

abbrev pub keep_part : Option Handed → Option ℕ
keep_part none = none
keep_part (some span) = some (span_part span)

-- `total_seconds` is how Python makes a float of a span, `own_name` is `worker_name()`, and `drawn`
-- the clock of the process less the draw.
module _ (total_seconds : ℤ → Value) (own_name : Text) (drawn : ℤ) (now : Instant)
    (written : Written) where
  unfoldable pub checked_lease : Handed → Result (Unit {0})
  unfolding spanned waited is_over
  checked_lease lease = do
    leased ← spanned total_seconds lease
    raise_if (not (is_over leased (pos 0))) queue_error
    waited leased now

  unfoldable pub checked_keep : Option Handed → Result (Unit {0})
  unfolding spanned kept is_under
  checked_keep none = ok tt
  checked_keep (some keep) = do
    keeping ← spanned total_seconds keep
    raise_if (is_under keeping (pos 0)) queue_error
    kept keeping now

  abbrev pub name_or : Value → Value
  name_or name = if is_falsy name then text own_name else name

  unfoldable pub start : Asked → Result Worker
  unfolding checked_lease real whole served checked_keep holdable is_falsy is_over is_under
  start asked = do
    checked_lease asked.lease
    real asked.poll
    raise_if (not (is_over asked.poll (pos 0))) queue_error
    concurrency ← whole asked.concurrency
    raise_if (ltb_ℤ concurrency (pos 1)) queue_error
    queues ← served asked.queues
    real asked.grace
    raise_if (is_under asked.grace (pos 0)) queue_error
    real asked.jitter
    raise_if (is_under asked.jitter (pos 0)) queue_error
    checked_keep asked.keep
    name ← holdable (name_or asked.name) worker_name_limit
    ok (record {
      name = name;
      queues = queues;
      concurrency = pos_part concurrency;
      poll = asked.poll;
      lease = span_part asked.lease;
      jitter = asked.jitter;
      grace = asked.grace;
      keep = keep_part asked.keep;
      purged = some drawn;
      running = [];
      stranded = 0;
      written = written;
    })

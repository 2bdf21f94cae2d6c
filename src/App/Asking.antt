-- ===== src/App/Asking.antt =====
-- src/queuefy/app.py: `task`, `trigger_for`, `enqueue`, `cancel`, `get`, `find` and `count`.
pub mod Found
use queuefy.Prelude.{ℕ, ◌&&◌, Bool, true, false, Option, none, some, List}
use queuefy.Prelude.Int.{ℤ}
use queuefy.Prelude.Text.{Text}
use queuefy.Errors.{Result, ok, err, ◌>>=◌, ◌>>◌, raise_if, queue_error}
use queuefy.Value.{Value, Float, Entries}
use queuefy.Run.{Run, RunStatus, Instant}
use queuefy.Trigger.{Trigger, Interval, interval, interval_next_after}
use queuefy.Trigger.Cron.{cron, cron_trigger}
use queuefy.Cron.Text.{Unicode}
use queuefy.Task.{Handler, Declared}
use queuefy.Store.Memory.Rows.{MemoryStore, get, count}
use queuefy.Store.Memory.Sweeping.{cancel}
use queuefy.App.Guards.{keyed}
use queuefy.App.Registry.{Tasks, register}
use queuefy.App.Enqueue.{Writing, enqueue_at}
use queuefy.App.Recurring.{in_utc}

-- `every`: a timedelta, a count of microseconds, or a number of seconds.
pub data Every : Type 0 where
  each_span : ℤ → Every
  each_seconds : Value → Every

module _ (u : Unicode) (span_of : Value → ℕ) (total_seconds : ℤ → Value) where
  abbrev pub seconds_of : Every → Value
  seconds_of (each_span span) = total_seconds span
  seconds_of (each_seconds seconds) = seconds

  abbrev pub interval_trigger : Interval → Trigger
  interval_trigger i = record { next_after = interval_next_after i.span }

  unfoldable pub trigger_for : Option Every → Option Value → Result (Option Trigger)
  unfolding interval interval_next_after cron
  trigger_for (some every) expression =
      interval span_of (seconds_of every) >>= λ i. ok (some (interval_trigger i))
  trigger_for none (some expression) = cron u expression >>= λ t. ok (some (cron_trigger u t))
  trigger_for none none = ok none

  abbrev pub is_given : {A : Type 0} → Option A → Bool
  is_given none = false
  is_given (some a) = true

  abbrev pub with_trigger : Declared → Option Trigger → Declared
  with_trigger task none = record task { trigger = none }
  with_trigger task (some trigger) = record task { trigger = some (some trigger) }

  -- `task(...)` and what it declares of a handler: the fields of `task`, with its trigger.
  unfoldable pub declare : Tasks → Declared → Option Every → Option Value → Instant → Result Tasks
  unfolding trigger_for register
  declare tasks task every expression now = do
    raise_if (is_given every && is_given expression) queue_error
    trigger ← trigger_for every expression
    register tasks (with_trigger task trigger) now

module _ {W : Type 0} (store : Writing W) where
  -- `now` is read for when the run is due, and again, as `built`, by the run itself.
  unfoldable pub enqueue :
      (Float → Text)
      → Tasks
      → Text
      → Option Value
      → Option Value
      → Option Value
      → Entries
      → Instant
      → Instant
      → W
      → W × Result Run
  unfolding enqueue_at
  enqueue repr_float tasks name key priority payload shorthand now built w =
      enqueue_at store repr_float tasks name (in_utc now) key priority payload shorthand built w

  -- `find`, behind the guard that a key passes where a run is written under one.
  unfoldable pub find_run : Value → W → W × Result (Option Run)
  unfolding keyed
  find_run key w = elim (keyed key) [
    | err e ↦ (w, err e)
    | ok k ↦ let (w', held) = store.find w (some k) in (w', ok held)
  ]

-- What is passed on to the memory store as it is.
unfoldable pub cancel_run : ℕ → Instant → MemoryStore → MemoryStore × Bool
unfolding cancel
cancel_run id now s = cancel s id now

unfoldable pub get_run : ℕ → MemoryStore → Option Run
unfolding get
get_run id s = get s id

unfoldable pub count_runs : Option RunStatus → Option Text → MemoryStore → ℕ
unfolding count
count_runs status queue s = count s status queue

-- ===== src/App/Enqueue.antt =====
-- src/queuefy/app.py: `build`, and `store_once`, which writes a run or answers with the holder of its
-- key.
pub mod Built
use queuefy.Prelude.{ℕ, zero, suc, Option, none, some}
use queuefy.Prelude.Int.{ℤ}
use queuefy.Prelude.Text.{Text}
use queuefy.Errors.{Result, ok, err, ◌>>=◌, ◌>>◌, queue_error}
use queuefy.Value.{Value, Float, Entries}
use queuefy.Run.{Run, Instant, fresh}
use queuefy.Clock.{Stamp}
use queuefy.Task.{Task}
use queuefy.App.Payload.{as_written}
use queuefy.App.Guards.{keyed, ranked, scheduled}
use queuefy.App.Registry.{Tasks, task_for, payload_of}

unfoldable pub checked_key : Option Value → Result (Option Text)
unfolding keyed
checked_key none = ok none
checked_key (some key) = keyed key >>= λ k. ok (some k)

unfoldable pub checked_priority : Option Value → ℤ → Result ℤ
unfolding ranked
checked_priority none priority = ok priority
checked_priority (some given) priority = ranked given

-- What the application asks of a store: the two calls that a run is written by, over whatever the
-- store and the rest of the world keep.
pub record Writing (W : Type 0) : Type 0 where
  pub add : W → Run → W × Option Run
  pub find : W → Option Text → W × Option Run

-- REWRITES.
abbrev pub rewrites : ℕ
rewrites = 3

module _ (repr_float : Float → Text) where
  -- `now` is the instant that the fields of a run default to.
  unfoldable pub build :
      Task → Option Stamp → Value → Option Value → Option Value → Instant → Result Run
  unfolding checked_key checked_priority scheduled as_written
  build task due_at payload key priority now = do
    key' ← checked_key key
    priority' ← checked_priority priority task.priority
    moment ← scheduled due_at
    arguments ← as_written repr_float payload
    ok (record (fresh task.name now) {
      queue = task.queue;
      payload = arguments;
      key = key';
      due_at = moment;
      max_attempts = task.max_attempts;
      timeout = task.timeout;
      retry_policy = task.retry_policy;
      retry_delay = task.retry_delay;
      max_retry_delay = task.max_retry_delay;
      priority = priority';
    })

module _ {W : Type 0} (store : Writing W) where
  -- The loop of `store_once`, by the times left.
  unfoldable pub write_or_find : ℕ → Run → W → W × Result Run
  write_or_find zero run w = (w, err queue_error)
  write_or_find (suc times) run w =
      let (w1, written) = store.add w run in
      elim written [
        | some r ↦ (w1, ok r)
        | none ↦
            let (w2, held) = store.find w1 run.key in
            elim held [ some r ↦ (w2, ok r) | none ↦ write_or_find times run w2 ]
      ]

  unfoldable pub store_once : Run → W → W × Result Run
  unfolding write_or_find
  store_once run w = write_or_find rewrites run w

  -- A run that could be built is written, or its holder found.
  abbrev pub once_built : Result Run → W → W × Result Run
  once_built (err e) w = (w, err e)
  once_built (ok run) w = store_once run w

  unfoldable pub enqueue_at :
      (Float → Text)
      → Tasks
      → Text
      → Option Stamp
      → Option Value
      → Option Value
      → Option Value
      → Entries
      → Instant
      → W
      → W × Result Run
  unfolding task_for payload_of build store_once
  enqueue_at repr_float tasks name when key priority payload shorthand now w =
      once_built
        (do
          task ← task_for tasks name
          arguments ← payload_of payload shorthand
          build repr_float task when arguments key priority now)
        w

-- ===== src/App/Registry.antt =====
-- src/queuefy/app.py: the registry of the tasks, and the gate that each passes through.
pub mod Gate
use queuefy.Prelude.{ℕ, ◌++◌, Bool, not, ◌||◌, Option, none, some, List, [], ◌∷◌, if◌then◌else◌}
use queuefy.Prelude.Int.{ℤ, pos, ltb_ℤ}
use queuefy.Prelude.Text.{Text, ◌==◌ as text_eq}
use queuefy.Errors.{Result, ok, err, ◌>>=◌, ◌>>◌, raise_if, queue_error, unknown_task}
use queuefy.Value.{Value, text, dict, Entries, end, entry}
use queuefy.Retry.{RetryPolicy}
use queuefy.Run.{Instant}
use queuefy.Store.Base.{task_name_limit, queue_limit, key_limit, attempt_limit}
use queuefy.Clock.{real, waited, is_over, is_under, widest_slot}
use queuefy.Trigger.{Trigger}
use queuefy.Task.{Handler, Declared, Task}
use queuefy.App.Guards.{occurrence_key, holdable, whole, ranked}

unfoldable pub generative : Handler → Bool
generative handler = handler.generates || handler.call_generates

-- What the policy of a task comes to: how an attempt is waited for, how many there are.
pub record Policy : Type 0 where
  pub retry_policy : RetryPolicy
  pub max_attempts : ℤ

unfoldable pub required {ℓ} : {A : Type ℓ} → Option A → Result A
required none = err queue_error
required (some a) = ok a

unfoldable pub checked_timeout : Option Value → Result (Unit {0})
unfolding real is_over
checked_timeout none = ok tt
checked_timeout (some timeout) =
    real timeout >> raise_if (not (is_over timeout (pos 0))) queue_error

unfoldable pub policed : Declared → Instant → Result Policy
unfolding required whole checked_timeout waited is_under is_over
policed task now = do
  retry_policy ← required task.retry_policy
  max_attempts ← whole task.max_attempts
  raise_if (ltb_ℤ max_attempts (pos 1)) queue_error
  raise_if (ltb_ℤ (pos attempt_limit) max_attempts) queue_error
  checked_timeout task.timeout
  waited task.retry_delay now
  raise_if (is_under task.retry_delay (pos 0)) queue_error
  waited task.max_retry_delay now
  raise_if (not (is_over task.max_retry_delay (pos 0))) queue_error
  ok (record { retry_policy = retry_policy; max_attempts = max_attempts })

-- The dictionary of the tasks, in the order of their registration.
abbrev pub Tasks : Type 0
Tasks = List Task

unfoldable pub named : Text → Tasks → Option Task
named name [] = none
named name (t ∷ ts) = let rest = named name ts in if text_eq t.name name then some t else rest

abbrev pub raise_if_named : Option Task → Result (Unit {0})
raise_if_named none = ok tt
raise_if_named (some t) = err queue_error

unfoldable pub checked_trigger : Text → Option (Option Trigger) → Result (Option Trigger)
unfolding holdable occurrence_key required
checked_trigger name none = ok none
checked_trigger name (some trigger) = do
  t ← required trigger
  key ← holdable (text (occurrence_key name widest_slot)) key_limit
  ok (some t)

unfoldable pub register : Tasks → Declared → Instant → Result Tasks
unfolding holdable named ranked generative policed checked_trigger
register tasks task now = do
  name ← holdable task.name task_name_limit
  raise_if_named (named name tasks)
  queue ← holdable task.queue queue_limit
  priority ← ranked task.priority
  raise_if (generative task.handler) queue_error
  policy ← policed task now
  trigger ← checked_trigger name task.trigger
  ok (
      tasks
      ++ (record {
        name = name;
        handler = task.handler;
        queue = queue;
        trigger = trigger;
        max_attempts = policy.max_attempts;
        timeout = task.timeout;
        retry_policy = policy.retry_policy;
        retry_delay = task.retry_delay;
        max_retry_delay = task.max_retry_delay;
        priority = priority;
      })
        ∷ [])

unfoldable pub task_for : Tasks → Text → Result Task
unfolding named
task_for tasks name = elim (named name tasks) [ none ↦ err unknown_task | some t ↦ ok t ]

unfoldable pub payload_of : Option Value → Entries → Result Value
payload_of none shorthand = ok (dict shorthand)
payload_of (some payload) end = ok payload
payload_of (some payload) (entry k v entries) = err queue_error

-- ===== src/Task.antt =====
-- src/queuefy/task.py: what a name means, as a caller writes it down and as the registry keeps it.
use queuefy.Prelude.{Bool, Option}
use queuefy.Prelude.Int.{ℤ}
use queuefy.Prelude.Text.{Text}
use queuefy.Value.{Value}
use queuefy.Retry.{RetryPolicy}
use queuefy.Trigger.{Trigger}

-- What `inspect` tells of a handler: whether it, or its `__call__`, is a generator function.
pub record Handler : Type 0 where
  pub generates : Bool
  pub call_generates : Bool

-- A task written by hand: any value may stand in its fields. Where the field is to be of a class of
-- the library, nothing stands for a value of any other class.
pub record Declared : Type 0 where
  pub name : Value
  pub handler : Handler
  pub queue : Value
  pub trigger : Option (Option Trigger)
  pub max_attempts : Value
  pub timeout : Option Value
  pub retry_policy : Option RetryPolicy
  pub retry_delay : Value
  pub max_retry_delay : Value
  pub priority : Value

-- The same task past the gate of `register`, which keeps every field as it was written.
pub record Task : Type 0 where
  pub name : Text
  pub handler : Handler
  pub queue : Text
  pub trigger : Option Trigger
  pub max_attempts : ℤ
  pub timeout : Option Value
  pub retry_policy : RetryPolicy
  pub retry_delay : Value
  pub max_retry_delay : Value
  pub priority : ℤ

-- ===== src/Run.antt =====
-- src/queuefy/run.py: one execution of one task, as every store keeps it.
-- An instant is the count of microseconds since the first instant that a datetime holds.
use queuefy.Prelude.{ℕ, Bool, true, false, ◌||◌, Option, none, ◌≡◌, arith}
use queuefy.Prelude.Int.{ℤ, pos, leb_ℤ}
use queuefy.Prelude.Text.{Text, codes}
use queuefy.Retry.{RetryPolicy, exponential}
use queuefy.Value.{Value, ratio, float, dict, end}

abbrev pub Instant : Type 0
Instant = ℕ

pub data RunStatus : Type 0 where
  pending running done failed canceled : RunStatus

unfoldable pub same_status : RunStatus → RunStatus → Bool
same_status pending pending = true
same_status running running = true
same_status done done = true
same_status failed failed = true
same_status canceled canceled = true
same_status _ _ = false

-- SETTLED: a run in one of these is over.
unfoldable pub is_settled : RunStatus → Bool
unfolding same_status
is_settled status =
    same_status status done || (same_status status failed || same_status status canceled)

pub record Run : Type 0 where
  pub name : Text
  pub queue : Text
  pub payload : Value
  pub key : Option Text
  pub status : RunStatus
  pub priority : ℤ
  pub due_at : Instant
  pub attempts : ℤ
  pub max_attempts : ℤ
  pub timeout : Option Value
  pub retry_policy : RetryPolicy
  pub retry_delay : Value
  pub max_retry_delay : Value
  pub worker : Option Text
  pub lease_until : Option Instant
  pub created_at : Instant
  pub started_at : Option Instant
  pub finished_at : Option Instant
  pub result : Option Value
  pub error : Option Text
  pub error_type : Option Text
  pub id : Option ℕ

unfoldable pub exhausted : Run → Bool
exhausted run = leb_ℤ run.max_attempts run.attempts

pub same_status_lem : (s t : RunStatus) → same_status s t ≡ true → s ≡ t
unfolding same_status
same_status_lem s t h = ground arith

-- `Run(name)`, every other field at its default, with the two instants that `now` gives.
abbrev pub fresh : Text → Instant → Run
fresh name moment = record {
  name = name;
  queue = codes "default";
  payload = dict end;
  key = none;
  status = pending;
  priority = pos 0;
  due_at = moment;
  attempts = pos 0;
  max_attempts = pos 1;
  timeout = none;
  retry_policy = exponential;
  retry_delay = float (ratio (pos 5) 0);
  max_retry_delay = float (ratio (pos 3600) 0);
  worker = none;
  lease_until = none;
  created_at = moment;
  started_at = none;
  finished_at = none;
  result = none;
  error = none;
  error_type = none;
  id = none;
}

-- ===== src/Store/Sql/Columns.antt =====
-- src/queuefy/store/sqlalchemy.py: the columns of a run, `to_values` and `to_run`.
-- A text is compared code point by code point by every column that names a run. The names of a status
-- and of a policy are written out, and read back through their classes.
use queuefy.Prelude.{ℕ, ◌≡◌, refl, Option, some, if◌then◌else◌}
use queuefy.Prelude.Int.{ℤ}
use queuefy.Prelude.Text.{Text, codes, ◌==◌ as text_eq}
use queuefy.Errors.{Result, ok, err, ◌>>=◌, value_error}
use queuefy.Value.{Value}
use queuefy.Retry.{RetryPolicy, fixed, linear, exponential, exponential_jitter}
use queuefy.Run.{Run, RunStatus, Instant, pending, running, done, failed, canceled}

pub record Columns : Type 0 where
  pub key : Option Text
  pub name : Text
  pub queue : Text
  pub payload : Value
  pub status : Text
  pub priority : ℤ
  pub due_at : Instant
  pub attempts : ℤ
  pub max_attempts : ℤ
  pub timeout : Option Value
  pub retry_policy : Text
  pub retry_delay : Value
  pub max_retry_delay : Value
  pub worker : Option Text
  pub lease_until : Option Instant
  pub created_at : Instant
  pub started_at : Option Instant
  pub finished_at : Option Instant
  pub result : Option Value
  pub error : Option Text
  pub error_type : Option Text

-- `status.value`.
unfoldable pub status_name : RunStatus → Text
status_name pending = codes "pending"
status_name running = codes "running"
status_name done = codes "done"
status_name failed = codes "failed"
status_name canceled = codes "canceled"

-- `RunStatus(name)`.
unfoldable pub status_of : Text → Result RunStatus
unfolding text_eq
status_of t =
    if text_eq t (codes "pending")
    then ok pending
    else (if text_eq t (codes "running")
        then ok running
        else (if text_eq t (codes "done")
            then ok done
            else (if text_eq t (codes "failed")
                then ok failed
                else (if text_eq t (codes "canceled") then ok canceled else err value_error))))

unfoldable pub policy_name : RetryPolicy → Text
policy_name fixed = codes "fixed"
policy_name linear = codes "linear"
policy_name exponential = codes "exponential"
policy_name exponential_jitter = codes "exponential_jitter"

unfoldable pub policy_of : Text → Result RetryPolicy
unfolding text_eq
policy_of t =
    if text_eq t (codes "fixed")
    then ok fixed
    else (if text_eq t (codes "linear")
        then ok linear
        else (if text_eq t (codes "exponential")
            then ok exponential
            else (if text_eq t (codes "exponential_jitter")
                then ok exponential_jitter
                else err value_error)))

unfoldable pub to_values : Run → Columns
unfolding status_name policy_name
to_values run = record {
  key = run.key;
  name = run.name;
  queue = run.queue;
  payload = run.payload;
  status = status_name run.status;
  priority = run.priority;
  due_at = run.due_at;
  attempts = run.attempts;
  max_attempts = run.max_attempts;
  timeout = run.timeout;
  retry_policy = policy_name run.retry_policy;
  retry_delay = run.retry_delay;
  max_retry_delay = run.max_retry_delay;
  worker = run.worker;
  lease_until = run.lease_until;
  created_at = run.created_at;
  started_at = run.started_at;
  finished_at = run.finished_at;
  result = run.result;
  error = run.error;
  error_type = run.error_type;
}

-- A row is its columns under the number that the database gave it.
unfoldable pub to_run : ℕ → Columns → Result Run
unfolding status_of policy_of
to_run id row = do
  status ← status_of row.status
  retry_policy ← policy_of row.retry_policy
  ok (record {
    id = some id;
    key = row.key;
    name = row.name;
    queue = row.queue;
    payload = row.payload;
    status = status;
    priority = row.priority;
    due_at = row.due_at;
    attempts = row.attempts;
    max_attempts = row.max_attempts;
    timeout = row.timeout;
    retry_policy = retry_policy;
    retry_delay = row.retry_delay;
    max_retry_delay = row.max_retry_delay;
    worker = row.worker;
    lease_until = row.lease_until;
    created_at = row.created_at;
    started_at = row.started_at;
    finished_at = row.finished_at;
    result = row.result;
    error = row.error;
    error_type = row.error_type;
  })

pub status_of-status_name : (s : RunStatus) → status_of (status_name s) ≡ ok s
unfolding status_of status_name
status_of-status_name pending = refl
status_of-status_name running = refl
status_of-status_name done = refl
status_of-status_name failed = refl
status_of-status_name canceled = refl

pub policy_of-policy_name : (p : RetryPolicy) → policy_of (policy_name p) ≡ ok p
unfolding policy_of policy_name
policy_of-policy_name fixed = refl
policy_of-policy_name linear = refl
policy_of-policy_name exponential = refl
policy_of-policy_name exponential_jitter = refl

-- A run that is written is read back field for field, under the number the database gave it.
pub to_run-to_values :
    (id : ℕ) (run : Run) → to_run id (to_values run) ≡ ok (record run { id = some id })
unfolding to_run to_values
to_run-to_values id run =
    rw (status_of-status_name run.status, policy_of-policy_name run.retry_policy) refl

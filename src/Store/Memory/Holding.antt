-- ===== src/Store/Memory/Holding.antt =====
-- src/queuefy/store/memory.py: what only the attempt that holds a run may do.
pub mod Exact
pub mod Attempts
use queuefy.Prelude.{ℕ, ◌+◌, Bool, true, false, ◌&&◌, Option, none, some, if◌then◌else◌}
use queuefy.Prelude.Int.{ℤ, pos, negsuc, ◌==ℤ◌, ◌+ℤ◌}
use queuefy.Prelude.Text.{Text, is_some_eq}
use queuefy.Prelude.Assoc.{put}
use queuefy.Value.{Value}
use queuefy.Run.{Run, Instant, pending, running, done, failed, same_status}
use queuefy.Store.Memory.Rows.{MemoryStore, get}

unfoldable pub holds : Run → Text → ℤ → Bool
unfolding same_status
holds run worker attempt =
    is_some_eq run.worker worker && (same_status run.status running && run.attempts ==ℤ attempt)

unfoldable pub held : MemoryStore → ℕ → Text → ℤ → Option Run
unfolding get holds
held s id worker attempt = elim (get s id) [
  | none ↦ none
  | some run ↦ if holds run worker attempt then some run else none
]

-- What the five methods below share: nothing changes unless the attempt holds the run.
unfoldable pub on_held : (Run → Run) → MemoryStore → ℕ → Text → ℤ → MemoryStore × Bool
unfolding held
on_held change s id worker attempt = elim (held s id worker attempt) [
  | none ↦ (s, false)
  | some run ↦ (record s { runs = put id (change run) s.runs }, true)
]

unfoldable pub extended : ℕ → Instant → Run → Run
extended lease moment run = record run { lease_until = some (moment + lease) }

unfoldable pub completed : Instant → Option Value → Run → Run
completed moment result run = record run {
  status = done;
  finished_at = some moment;
  result = result;
  error = none;
  error_type = none;
  worker = none;
  lease_until = none;
}

unfoldable pub gave_up : Instant → Text → Text → Run → Run
gave_up moment error error_type run = record run {
  status = failed;
  finished_at = some moment;
  error = some error;
  error_type = some error_type;
  worker = none;
  lease_until = none;
}

unfoldable pub requeued : Instant → Text → Text → ℤ → Run → Run
requeued due_at error error_type counted run = record run {
  status = pending;
  due_at = due_at;
  attempts = run.attempts +ℤ counted;
  error = some error;
  error_type = some error_type;
  worker = none;
  lease_until = none;
  started_at = none;
}

unfoldable pub heartbeat : MemoryStore → ℕ → Text → ℤ → ℕ → Instant → MemoryStore × Bool
unfolding on_held extended
heartbeat s id worker attempt lease moment = on_held (extended lease moment) s id worker attempt

unfoldable pub complete : MemoryStore → ℕ → Text → ℤ → Instant → Option Value → MemoryStore × Bool
unfolding on_held completed
complete s id worker attempt moment result = on_held (completed moment result) s id worker attempt

unfoldable pub fail : MemoryStore → ℕ → Text → ℤ → Instant → Text → Text → MemoryStore × Bool
unfolding on_held gave_up
fail s id worker attempt moment error error_type =
    on_held (gave_up moment error error_type) s id worker attempt

unfoldable pub requeue : MemoryStore → ℕ → Text → ℤ → Instant → Text → Text → ℤ → MemoryStore × Bool
unfolding on_held requeued
requeue s id worker attempt due_at error error_type counted =
    on_held (requeued due_at error error_type counted) s id worker attempt

unfoldable pub retry_later : MemoryStore → ℕ → Text → ℤ → Instant → Text → Text → MemoryStore × Bool
unfolding requeue
retry_later s id worker attempt due_at error error_type =
    requeue s id worker attempt due_at error error_type (pos 0)

unfoldable pub release : MemoryStore → ℕ → Text → ℤ → Instant → Text → Text → MemoryStore × Bool
unfolding requeue
release s id worker attempt due_at error error_type =
    requeue s id worker attempt due_at error error_type (negsuc 0)

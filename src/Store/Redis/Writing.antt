-- ===== src/Store/Redis/Writing.antt =====
-- src/queuefy/store/redis.py: ADD, SETTLE, HEARTBEAT and CANCEL, with the methods that run them, and
-- the reads.
pub mod Alike
pub mod Calls
pub mod Added
pub mod Insert
pub mod Keys
pub mod Asked
use queuefy.Prelude.{
  ℕ, suc, ◌+◌, Bool, true, false, ◌&&◌, Option, none, some, List, [], ◌∷◌, if◌then◌else◌,
}
use queuefy.Prelude.Int.{ℤ, pos, negsuc, ◌==ℤ◌}
use queuefy.Prelude.Text.{Text, ◌==◌ as text_eq}
use queuefy.Value.{Value}
use queuefy.Run.{Run, RunStatus, Instant, pending, running, done, failed, canceled, same_status}
use queuefy.Store.Redis.Places.{
  Place, lane, leased, settled, stamp, field, read_text, text_of, as_read, waiting_in,
}
use queuefy.Store.Redis.Commands.{Commands}

-- The test that SETTLE and HEARTBEAT share: a field that is not there is no text and no status.
abbrev pub held_by : Text → ℤ → Run → Bool
held_by worker attempt run =
    text_eq (text_of run.worker) worker
    && (same_status run.status running && run.attempts ==ℤ attempt)

abbrev pub closing : Instant → Option Value → Run → Run
closing moment result run = record run {
  status = done;
  finished_at = some moment;
  result = result;
  error = none;
  error_type = none;
  worker = none;
  lease_until = none;
}

abbrev pub failing : Instant → Text → Text → Run → Run
failing moment error error_type run = record run {
  status = failed;
  finished_at = some moment;
  error = field error;
  error_type = field error_type;
  worker = none;
  lease_until = none;
}

-- `requeued`.
abbrev pub requeuing : Instant → Text → Text → Run → Run
requeuing due_at error error_type run = record run {
  status = pending;
  due_at = due_at;
  error = field error;
  error_type = field error_type;
  worker = none;
  lease_until = none;
  started_at = none;
}

abbrev pub extending : Instant → Run → Run
extending until run = record run { lease_until = some until }

abbrev pub calling_off : Instant → Run → Run
calling_off moment run = record run { status = canceled; finished_at = some moment }

module _ {T : Type 0} (e : Commands T) where
  -- `ZADD` at a score that is a text: none is added at an empty one.
  abbrev pub seat : Place → Option Instant → ℕ → T → T
  seat place none i t = t
  seat place (some at) i t = e.zadd place (stamp at) i t

  abbrev pub assign_key : Option Text → ℕ → T → T
  assign_key none i t = t
  assign_key (some k) i t = e.assign k i t

  -- `INCR`, `HSET`, the priority of the queue, the set of the run, and `SET` of its key.
  unfoldable pub write_run : Run → T → T × Option Run
  unfolding waiting_in stamp
  write_run run t =
      let (t1, id) = e.incr t in
      let t2 = e.hwrite id (record (as_read run) { id = some id }) t1 in
      let t3 = e.list_level run.queue run.priority t2 in
      let (home, at) = waiting_in run in
      let t4 = seat home at id t3 in
      (assign_key (read_text run.key) id t4, some (record run { id = some id }))

  abbrev pub reserved_or : Run → T × Bool → T × Option Run
  reserved_or run (t, true) = write_run run t
  reserved_or run (t, false) = (t, none)

  abbrev pub add_under : Run → Option Text → T → T × Option Run
  add_under run none t = write_run run t
  add_under run (some k) t = reserved_or run (e.reserve k t)

  -- ADD: an answer of nothing is a key that was reserved.
  unfoldable pub add : Run → T → T × Option Run
  unfolding write_run
  add run t = add_under run (read_text run.key) t

  abbrev pub seat_finished : ℕ → Option Run → T → T
  seat_finished i none t = t
  seat_finished i (some run) t = seat settled run.finished_at i t

  abbrev pub seat_due : ℕ → Option Run → Instant → T → T
  seat_due i none due_at t = t
  seat_due i (some run) due_at t = e.zadd (lane run.queue run.priority) (stamp due_at) i t

  -- The lane of the run at `ARGV[4]`, or the settled ones at the instant that was just written.
  abbrev pub seat_again : ℕ → Option Instant → T → T
  seat_again i (some due_at) t = seat_due i (e.hash i t) due_at t
  seat_again i none t = seat_finished i (e.hash i t) t

  abbrev pub settle_run : (Run → Run) → Option Instant → ℤ → ℕ → T → T
  settle_run values due_at counted i t =
      let (t1, _) = e.zrem leased i t in
      let t2 = e.hset i values t1 in let t3 = e.hincrby i counted t2 in seat_again i due_at t3

  -- What SETTLE and HEARTBEAT begin with: nothing is done for an attempt that does not hold the run.
  abbrev pub if_held : Text → ℤ → Option Run → T → T → T × Bool
  if_held worker attempt none t' t = (t, false)
  if_held worker attempt (some run) t' t =
      if held_by worker attempt run then (t', true) else (t, false)

  -- SETTLE.
  unfoldable pub settle : ℕ → Text → ℤ → (Run → Run) → Option Instant → ℤ → T → T × Bool
  unfolding same_status text_eq stamp
  settle i worker attempt values due_at counted t =
      if_held worker attempt (e.hash i t) (settle_run values due_at counted i t) t

  unfoldable pub complete : ℕ → Text → ℤ → Instant → Option Value → T → T × Bool
  unfolding settle
  complete i worker attempt moment result t =
      settle i worker attempt (closing moment result) none (pos 0) t

  unfoldable pub fail : ℕ → Text → ℤ → Instant → Text → Text → T → T × Bool
  unfolding settle
  fail i worker attempt moment error error_type t =
      settle i worker attempt (failing moment error error_type) none (pos 0) t

  unfoldable pub retry_later : ℕ → Text → ℤ → Instant → Text → Text → T → T × Bool
  unfolding settle
  retry_later i worker attempt due_at error error_type t =
      settle i worker attempt (requeuing due_at error error_type) (some due_at) (pos 0) t

  unfoldable pub release : ℕ → Text → ℤ → Instant → Text → Text → T → T × Bool
  unfolding settle
  release i worker attempt due_at error error_type t =
      settle i worker attempt (requeuing due_at error error_type) (some due_at) (negsuc 0) t

  -- HEARTBEAT.
  unfoldable pub heartbeat : ℕ → Text → ℤ → ℕ → Instant → T → T × Bool
  unfolding same_status text_eq stamp
  heartbeat i worker attempt lease moment t =
      let until = moment + lease in
      if_held worker attempt (e.hash i t)
        (e.zadd leased (stamp until) i (e.hset i (extending until) t)) t

  abbrev pub cancel_run : ℕ → Instant → Option Run → T → T × Bool
  cancel_run i moment none t = (t, false)
  cancel_run i moment (some run) t =
      if same_status run.status pending
      then (
        e.zadd settled (stamp moment) i
            (e.hset i (calling_off moment) (e.zrem (lane run.queue run.priority) i t).0),
        true,
      )
      else (t, false)

  -- CANCEL.
  unfoldable pub cancel : ℕ → Instant → T → T × Bool
  unfolding same_status stamp
  cancel i moment t = cancel_run i moment (e.hash i t) t

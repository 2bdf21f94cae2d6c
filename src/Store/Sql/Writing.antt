-- ===== src/Store/Sql/Writing.antt =====
-- src/queuefy/store/sqlalchemy.py: the insert, the conditional writes, and the reads.
pub mod Rows
pub mod Insert
pub mod Alike
use queuefy.Prelude.{ℕ, ◌+◌, Bool, true, false, ◌&&◌, Option, none, some, List, [], ◌∷◌, ◌==◌}
use queuefy.Prelude.Int.{ℤ, pos, negsuc, ◌+ℤ◌, ◌==ℤ◌}
use queuefy.Prelude.Text.{Text, is_some_eq, ◌==◌ as text_eq}
use queuefy.Value.{Value}
use queuefy.Run.{Run, RunStatus, Instant, pending, running, done, failed, canceled, same_status}
use queuefy.Store.Sql.Engine.{Engine, Condition}
use queuefy.Store.Sql.Contention.{
  Tried, did, raised, integrity, Server, transaction, under_contention,
}

-- The row of one attempt.
unfoldable pub holding : ℕ → Text → ℤ → Condition
unfolding same_status
holding id worker attempt = λ i r.
    i == id
    && (is_some_eq r.worker worker && (r.attempts ==ℤ attempt && same_status r.status running))

unfoldable pub waiting_row : ℕ → Condition
unfolding same_status
waiting_row id = λ i r. i == id && same_status r.status pending

unfoldable pub pushed : ℕ → Instant → Run → Run
pushed lease moment r = record r { lease_until = some (moment + lease) }

unfoldable pub closed : Instant → Option Value → Run → Run
closed moment result r = record r {
  status = done;
  finished_at = some moment;
  result = result;
  error = none;
  error_type = none;
  worker = none;
  lease_until = none;
}

unfoldable pub ended : Instant → Text → Text → Run → Run
ended moment error error_type r = record r {
  status = failed;
  finished_at = some moment;
  error = some error;
  error_type = some error_type;
  worker = none;
  lease_until = none;
}

unfoldable pub sent_back : Instant → Text → Text → Run → Run
sent_back due_at error error_type r = record r {
  status = pending;
  due_at = due_at;
  error = some error;
  error_type = some error_type;
  worker = none;
  lease_until = none;
  started_at = none;
}

-- `requeued(...) | {"attempts": runs.c.attempts - 1}`.
unfoldable pub given_back : Instant → Text → Text → Run → Run
given_back due_at error error_type r = record (sent_back due_at error error_type r) {
  attempts = r.attempts +ℤ negsuc 0;
}

unfoldable pub dropped : Instant → Run → Run
dropped moment r = record r { status = canceled; finished_at = some moment }

module _ {T : Type 0} (e : Engine T) where
  abbrev pub Asked : Type 0 → Type 0
  Asked A = Server T → Server T × Tried A

  -- An IntegrityError rolls back: it is an answer where the run has a key, and raised where not.
  abbrev pub inserted : Run → Option ℕ → Tried (Option Run)
  inserted run (some id) = did (some (record run { id = some id }))
  inserted run none = elim run.key [ none ↦ raised integrity | some k ↦ did none ]

  abbrev pub then_inserted : Run → Server T × Tried (Option ℕ) → Server T × Tried (Option Run)
  then_inserted run (w, did written) = (w, inserted run written)
  then_inserted run (w, raised fault) = (w, raised fault)

  unfoldable pub insert_run : Run → Asked (Option Run)
  insert_run run w = then_inserted run (transaction (e.insert run) w)

  unfoldable pub add : Run → Asked (Option Run)
  unfolding insert_run
  add run = under_contention (insert_run run)

  unfoldable pub write_body : Condition → (Run → Run) → T → T × Bool
  write_body condition values t =
      let (t', changed) = e.update condition values t in (t', changed == 1)

  unfoldable pub write : Condition → (Run → Run) → Asked Bool
  unfolding write_body
  write condition values = under_contention (transaction (write_body condition values))

  unfoldable pub heartbeat : ℕ → Text → ℤ → ℕ → Instant → Asked Bool
  heartbeat id worker attempt lease moment = write (holding id worker attempt) (pushed lease moment)

  unfoldable pub complete : ℕ → Text → ℤ → Instant → Option Value → Asked Bool
  complete id worker attempt moment result =
      write (holding id worker attempt) (closed moment result)

  unfoldable pub fail : ℕ → Text → ℤ → Instant → Text → Text → Asked Bool
  fail id worker attempt moment error error_type =
      write (holding id worker attempt) (ended moment error error_type)

  unfoldable pub retry_later : ℕ → Text → ℤ → Instant → Text → Text → Asked Bool
  retry_later id worker attempt due_at error error_type =
      write (holding id worker attempt) (sent_back due_at error error_type)

  unfoldable pub release : ℕ → Text → ℤ → Instant → Text → Text → Asked Bool
  release id worker attempt due_at error error_type =
      write (holding id worker attempt) (given_back due_at error error_type)

  unfoldable pub cancel : ℕ → Instant → Asked Bool
  cancel id moment = write (waiting_row id) (dropped moment)

  unfoldable pub get : ℕ → Asked (Option Run)
  get id = transaction (λ t. (t, e.read id t))

  unfoldable pub find : Text → Asked (Option Run)
  find key = transaction (λ t. (t, e.named key t))

  abbrev wanted_status : Option RunStatus → Run → Bool
  wanted_status none r = true
  wanted_status (some s) r = same_status r.status s

  abbrev wanted_queue : Option Text → Run → Bool
  wanted_queue none r = true
  wanted_queue (some q) r = text_eq r.queue q

  unfoldable pub count : Option RunStatus → Option Text → Asked ℕ
  count status queue =
      transaction (λ t. (t, e.total (λ i r. wanted_status status r && wanted_queue queue r) t))

-- ===== src/App/Tests.antt =====
-- A recurring task, and the theorems of the application and of the interval at concrete inputs.
use queuefy.Prelude.{ℕ, ◌+◌, ◌<◌, ◌≤◌, ◌≡◌, refl, inl, ◌⊎◌, false, none, some, [], ◌∷◌, arith}
use queuefy.Prelude.Int.{pos, ◌+ℤ◌, ◌-ℤ◌, ◌*ℤ◌}
use queuefy.Prelude.Text.{Text, codes, ◌==◌ as text_eq}
use queuefy.Calendar.{isoformat, datetime_of}
use queuefy.Errors.{Result, ok}
use queuefy.Value.{Float, ratio, text, int, float, dict, end, entry, tuple, cons, nil, list}
use queuefy.Retry.{exponential}
use queuefy.Run.{Run, fresh}
use queuefy.Clock.{epoch, widest_slot, in_range, real, waited, is_over, is_under, is_finite, as_utc}
use queuefy.Trigger.{Trigger, floor_div, interval_next_after}
use queuefy.Trigger.Slots.{IsSlot, interval_next_after-IsSlot}
use queuefy.Task.{Task, Declared}
use queuefy.Store.Memory.Rows.{MemoryStore, empty, add, taken, find, first}
use queuefy.App.Payload.{as_written, settled, exact, encodable, key_text, put_entry, decimal}
use queuefy.App.Guards.{occurrence_key, writable, holdable, keyed, whole, ranked, scheduled}
use queuefy.App.Registry.{
  named, generative, policed, required, checked_timeout, checked_trigger, register, task_for,
  payload_of,
}
use queuefy.App.Registry.Gate.{Grown, IsTask, register-IsTask}
use queuefy.App.Enqueue.{
  checked_key, checked_priority, build, write_or_find, store_once, enqueue_at,
}
use queuefy.App.Enqueue.Built.{IsBuilt, build-IsBuilt}
use queuefy.App.Recurring.{slot_of, remember, in_utc, slot_run, write_slots, materialize}
use queuefy.App.Recurring.Turns.{IsIdle}
use queuefy.App.Recurring.Twice.{Separate, materialize_twice}
use queuefy.App.Shared.{memory, find_under}
use queuefy.App.Shared.Once.{store_once_lem}
use queuefy.App.Asking.{enqueue, find_run}
use queuefy.App.Asking.Found.{enqueue_found}

program : Unit {0}
unfolding interval_next_after floor_div in_range ◌+ℤ◌ ◌-ℤ◌ ◌*ℤ◌ real waited is_over is_under
    is_finite as_utc empty add taken find first as_written settled exact encodable key_text
    put_entry decimal occurrence_key writable holdable keyed whole ranked scheduled named generative
    policed required checked_timeout checked_trigger register checked_key checked_priority build
    write_or_find store_once slot_of remember slot_run write_slots materialize memory find_under
    isoformat datetime_of text_eq enqueue enqueue_at find_run task_for payload_of
program = tt

abbrev repr : Float → Text
repr x = codes "0.0"

abbrev minute : ℕ
minute = 60000000

abbrev every_minute : Trigger
every_minute = record { next_after = interval_next_after minute }

abbrev declared : Declared
declared = record {
  name = text (codes "mail");
  handler = record { generates = false; call_generates = false };
  queue = text (codes "default");
  trigger = some (some every_minute);
  max_attempts = int (pos 3);
  timeout = none;
  retry_policy = some exponential;
  retry_delay = float (ratio (pos 5) 0);
  max_retry_delay = float (ratio (pos 3600) 0);
  priority = int (pos 0);
}

abbrev task : Task
task = record {
  name = codes "mail";
  handler = record { generates = false; call_generates = false };
  queue = codes "default";
  trigger = some every_minute;
  max_attempts = pos 3;
  timeout = none;
  retry_policy = exponential;
  retry_delay = float (ratio (pos 5) 0);
  max_retry_delay = float (ratio (pos 3600) 0);
  priority = pos 0;
}

key_of_epoch : occurrence_key (codes "mail") epoch ≡ codes "mail@1970-01-01T00:00:00+00:00"
unfolding program
key_of_epoch = refl

key_of_end :
    occurrence_key (codes "mail") widest_slot ≡ codes "mail@9999-12-31T23:59:59.999999+00:00"
unfolding program
key_of_end = refl

tuple_is_list :
    as_written repr (dict (entry (int (pos 12)) (tuple (cons (int (pos 1)) nil)) end))
    ≡ ok (dict (entry (text (codes "12")) (list (cons (int (pos 1)) nil)) end))
unfolding program
tuple_is_list = refl

interval_next_after-IsSlot_example :
    (epoch < epoch + minute)
    × IsSlot epoch minute (epoch + minute)
    × ((epoch ≤ epoch) ⊎ (epoch + minute ≤ epoch))
unfolding program
interval_next_after-IsSlot_example =
    interval_next_after-IsSlot minute epoch (epoch + minute) epoch (omega arith) refl (0, inl refl)

register-IsTask_example : Grown [] (task ∷ []) × Separate (task ∷ [])
unfolding program
register-IsTask_example = register-IsTask [] (task ∷ []) declared epoch tt refl

task-IsTask : IsTask task
unfolding program
task-IsTask = record {
  name_fits = omega arith;
  queue_fits = omega arith;
  priority_fits = (omega arith, omega arith);
  tried = (omega arith, omega arith);
  runs_body = refl;
}

abbrev built : Run
built = record (fresh (codes "mail") epoch) {
  key = some (codes "k");
  max_attempts = pos 3;
  priority = pos 7;
}

build-IsBuilt_example :
    IsBuilt repr task task-IsTask
      (in_utc epoch)
      (dict end)
      (some (text (codes "k")))
      (some (int (pos 7)))
      epoch
      built
unfolding program
build-IsBuilt_example =
    build-IsBuilt repr task task-IsTask (in_utc epoch) (dict end) (some (text (codes "k")))
      (some (int (pos 7))) epoch built refl

store_once_lem_example :
    (r : Run) × ((store_once memory built empty).1 ≡ ok r)
    × (r.key ≡ some (codes "k"))
    × (store_once memory (record built { priority = pos 0 }) (store_once memory built empty).0
        ≡ ((store_once memory built empty).0, ok r))
store_once_lem_example =
    store_once_lem empty built (record built { priority = pos 0 }) (codes "k") refl refl

abbrev slot_written : Run
slot_written = record (fresh (codes "mail") epoch) {
  key = some (codes "mail@1970-01-01T00:01:00+00:00");
  max_attempts = pos 3;
  due_at = epoch + minute;
  id = some 1;
}

materialize_twice_example :
    IsIdle repr (materialize repr memory (task ∷ []) epoch epoch empty []).0 [] (
      materialize repr memory
        (task ∷ [])
        epoch
        (epoch + 5)
        (materialize repr memory (task ∷ []) epoch epoch empty []).0
        [])
unfolding program
materialize_twice_example =
    materialize_twice repr (task ∷ []) epoch epoch (epoch + 5) empty [] (slot_written ∷ []) (tt, tt)
      refl

abbrev asked : MemoryStore × Result Run
asked =
    enqueue memory repr (task ∷ []) (codes "mail") (some (text (codes "k"))) (some (int (pos 7)))
      none end epoch epoch empty

enqueue_found_example :
    find_run memory (text (codes "k")) asked.0 ≡ (asked.0, ok (some (record built { id = some 1 })))
unfolding program
enqueue_found_example =
    enqueue_found repr (task ∷ []) (codes "mail") (codes "k") (some (int (pos 7))) none end epoch
      epoch empty (record built { id = some 1 }) refl

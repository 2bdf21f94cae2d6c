-- ===== src/Worker/Tests.antt =====
-- The theorems of the worker at concrete inputs.
use queuefy.Prelude.{◌≤◌, ◌≡◌, refl, none, some, List, [], ◌∷◌, true, arith, length}
use queuefy.Prelude.Int.{ℤ, pos, ◌≤ℤ◌, ◌*ℤ◌, ◌+ℤ◌}
use queuefy.Prelude.Assoc.{lookup, put}
use queuefy.Prelude.Text.{Text, codes, ◌==◌ as text_eq}
use queuefy.Errors.{Error, ok}
use queuefy.Value.{Value, Float, null, int, float, ratio, text, tuple, nil, cons}
use queuefy.Run.{Run, fresh, running, exhausted, same_status}
use queuefy.Clock.{
  epoch, timedelta, is_over, is_under, real, waited, is_finite, double_end, spanned,
}
use queuefy.Task.{Task}
use queuefy.Store.Base.{error_limit, error_type_limit}
use queuefy.Store.Memory.Rows.{MemoryStore, empty, add, taken, get, first, find}
use queuefy.Store.Memory.Claiming.{
  before, insert, sort, ready, claimable, claim, claim_loop, started, serves,
}
use queuefy.Store.Memory.Life.{Call, adds, claims, step}
use queuefy.Store.Memory.Holding.{held, holds, extended}
use queuefy.Store.Memory.Sweeping.{reclaim, expired}
use queuefy.Store.Memory.Invariant.Numbers.{Numbered}
use queuefy.Worker.Beats.{push, push-held}
use queuefy.Store.Memory.History.{after}
use queuefy.App.Guards.{holdable, writable, whole}
use queuefy.App.Payload.{encodable}
use queuefy.App.Registry.{task_for, named}
use queuefy.Worker.Messages.{described, cut, storable, storable_char, hex}
use queuefy.Worker.Messages.Writable.{described-holdable}
use queuefy.Worker.Endings.{Failure}
use queuefy.Worker.Attempt.{Met, raised, begun, attempt, executed}
use queuefy.Worker.Attempt.Outcomes.{IsSilent, attempt-IsSilent}
use queuefy.Worker.Attempt.Verdicts.{IsEnded, verdict}
use queuefy.Worker.Attempt.Ends.{attempt-IsEnded}
use queuefy.Worker.Passes.{Worker, run_once}
use queuefy.Worker.Passes.Kept.{HasRoom, run_once-HasRoom}
use queuefy.Worker.Start.{Asked, start, served, queues_of, checked_lease, checked_keep, is_falsy}
use queuefy.Worker.Start.Ready.{IsReady, start-IsReady}

program : Unit {0}
unfolding held holds lookup text_eq described cut storable storable_char hex exhausted task_for
    named start served queues_of checked_lease checked_keep is_falsy is_over is_under real waited
    is_finite double_end spanned holdable writable whole encodable ◌*ℤ◌
program = tt

escape : storable (97 ∷ 56448 ∷ []) ≡ codes "a\\udc80"
unfolding program
escape = refl

described-holdable_example :
    (holdable (text (described (0 ∷ 97 ∷ []) (codes "ValueError")).0) error_limit
      ≡ ok (described (0 ∷ 97 ∷ []) (codes "ValueError")).0)
    × (length (described (0 ∷ 97 ∷ []) (codes "ValueError")).1 ≤ error_type_limit)
described-holdable_example = described-holdable (0 ∷ 97 ∷ []) (codes "ValueError")

abbrev run : Run
run = record (fresh (codes "mail") 10) {
  status = running;
  worker = some (codes "ann");
  attempts = pos 1;
  max_attempts = pos 3;
  lease_until = some 90;
  started_at = some 40;
  id = some 1;
}

abbrev shop : MemoryStore
shop = record { runs = (1, run) ∷ []; sequence = 2 }

abbrev failure : Failure
failure = record { spoken = codes "no route"; kind = codes "OSError" }

abbrev repr : Float → Text
repr x = codes "1.5"

abbrev say : Run → Error → Failure
say r e = record { spoken = codes "no such task"; kind = codes "UnknownTask" }

abbrev breaking : Task → Met
breaking task = raised failure

attempt-IsEnded_example :
    IsEnded
      (codes "ann")
      (λ r. 5)
      repr
      say
      run
      1
      run
      50
      (begun run ∷ [])
      (verdict (codes "ann") (λ r. 5) repr say run breaking (task_for [] run.name))
      (executed (attempt (codes "ann") (λ r. 5) repr say [] breaking shop run 50))
unfolding program
attempt-IsEnded_example =
    attempt-IsEnded (codes "ann") (λ r. 5) repr say [] breaking shop run run 1 50 refl refl
      (omega arith)

attempt-IsSilent_example :
    IsSilent shop
      (begun run ∷ [])
      (executed (attempt (codes "bob") (λ r. 5) repr say [] breaking shop run 50))
unfolding program
attempt-IsSilent_example =
    attempt-IsSilent (codes "bob") (λ r. 5) repr say [] breaking shop run 1 50 refl refl

abbrev seconds_of : ℤ → Value
seconds_of n = float (ratio n 999999)

ahead : (n : ℤ) → is_over (seconds_of n) (pos 0) ≡ true → pos 1 ≤ℤ n
unfolding is_over ◌*ℤ◌
ahead n h = ground arith

abbrev asked : Asked
asked = record {
  name = null;
  queues = tuple (cons (text (codes "default")) nil);
  concurrency = int (pos 8);
  poll = float (ratio (pos 1) 0);
  lease = timedelta (pos 60000000);
  jitter = float (ratio (pos 1) 3);
  grace = float (ratio (pos 30) 0);
  keep = none;
}

abbrev ann : Worker
ann = record {
  name = codes "host:1:0a0b0c0d";
  queues = codes "default" ∷ [];
  concurrency = 8;
  poll = float (ratio (pos 1) 0);
  lease = 60000000;
  jitter = float (ratio (pos 1) 3);
  grace = float (ratio (pos 30) 0);
  keep = none;
  purged = some (pos 7);
  running = [];
  stranded = 0;
  written = [];
}

start-IsReady_example : IsReady seconds_of ahead (codes "host:1:0a0b0c0d") (pos 7) epoch [] ann
unfolding program
start-IsReady_example =
    start-IsReady seconds_of ahead (codes "host:1:0a0b0c0d") (pos 7) epoch [] asked ann refl

run_once-HasRoom_example : HasRoom (run_once repr [] 50 60 70 (pos 9) ann shop).1
run_once-HasRoom_example = run_once-HasRoom repr [] 50 60 70 (pos 9) ann shop (omega arith)

shop-Numbered : Numbered shop
unfolding program
shop-Numbered = record { distinct = (refl, tt); below = (omega arith, tt) }

push-held_example :
    held (reclaim (push (codes "ann") 100 shop run 60) 150).0 1 (codes "ann") (pos 1)
    ≡ some (extended 100 60 run)
unfolding program
push-held_example =
    push-held (codes "ann") 100 shop run run 1 60 150 shop-Numbered refl refl (omega arith)

-- A run that was claimed until 90.
abbrev calls : List Call
calls =
    adds (record (fresh (codes "mail") 10) { max_attempts = pos 3 })
    ∷ claims (codes "bob") (codes "default" ∷ []) 1 50 40
    ∷ []

abbrev left : MemoryStore
left = after empty calls

abbrev left_run : Run
left_run = record (fresh (codes "mail") 10) {
  id = some 1;
  status = running;
  worker = some (codes "bob");
  attempts = pos 1;
  max_attempts = pos 3;
  started_at = some 40;
  lease_until = some 90;
}

on_claim : Unit {0}
unfolding after step empty add taken get first find before insert sort ready claimable claim
    claim_loop started serves expired same_status ◌+ℤ◌ lookup put text_eq
on_claim = tt

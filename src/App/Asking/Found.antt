-- ===== src/App/Asking/Found.antt =====
-- A run that was enqueued under a key is the one that is found under it.
use queuefy.Prelude.{◌≡◌, refl, sym, ap, ◌∙◌, inl, inr, Option, some, Bool-cases}
use queuefy.Prelude.Text.{Text}
use queuefy.Errors.{Result, ok, err, ◌>>=◌, >>=-eq-ok, ok-injective}
use queuefy.Value.{Value, Float, Entries, text}
use queuefy.Run.{Run, Instant}
use queuefy.Clock.{Stamp}
use queuefy.Task.{Task}
use queuefy.Store.Memory.Rows.{MemoryStore, taken, find}
use queuefy.Store.Memory.Rows.Exact.{written, taken-find}
use queuefy.App.Guards.{keyed}
use queuefy.App.Registry.{Tasks, task_for, payload_of}
use queuefy.App.Enqueue.{build, checked_key, store_once, once_built, enqueue_at}
use queuefy.App.Recurring.{in_utc}
use queuefy.App.Recurring.Turns.{keyed-text, build-key}
use queuefy.App.Shared.{memory, find_under}
use queuefy.App.Shared.Once.{store_once-taken, store_once-free, find-add}
use queuefy.App.Asking.{enqueue, find_run}

-- Whoever holds the key after `store_once` is the run that it answers with.
store_once-find :
    (s : MemoryStore) (run r : Run) (k : Text)
    → run.key ≡ some k
    → (store_once memory run s).1 ≡ ok r
    → find (store_once memory run s).0 k ≡ some r
store_once-find s run r k here e = elim (Bool-cases (taken s run.key)) [
  | inl full ↦
      let (held, found) = (taken-find s k).0 (rw here at full) in
      let answer = store_once-taken s run held k here found in
      let this : held ≡ r = ok-injective held r (sym (ap (λ x. x.1) answer) ∙ e) in
      rw answer (found ∙ ap some this)
  | inr free ↦
      let answer = store_once-free s run free in
      let this : written s run ≡ r =
        ok-injective (written s run) r (sym (ap (λ x. x.1) answer) ∙ e) in
      rw answer (find-add s run k here free ∙ ap some this)
]

-- A key that `build` took passes the guard of `find`.
build-keyed :
    (repr_float : Float → Text) (task : Task) (due : Option Stamp) (payload : Value) (k : Text)
    (priority : Option Value) (now : Instant) (run : Run)
    → build repr_float task due payload (some (text k)) priority now ≡ ok run
    → keyed (text k) ≡ ok k
unfolding build checked_key
build-keyed repr_float task due payload k priority now run e =
    let (key, kept, _) = >>=-eq-ok (keyed (text k) >>= λ k. ok (some k)) _ e in
    let (k', passed, _) = >>=-eq-ok (keyed (text k)) _ kept in
    passed ∙ ap ok (keyed-text k k' passed)

once_built-find :
    (k : Text) (m : Result Run) (s : MemoryStore) (r : Run)
    → ((run : Run) → m ≡ ok run → (run.key ≡ some k) × (keyed (text k) ≡ ok k))
    → (once_built memory m s).1 ≡ ok r
    → find_run memory (text k) (once_built memory m s).0 ≡ ((once_built memory m s).0, ok (some r))
unfolding find_run memory find_under
once_built-find k (err e) s r made answer = absurd (cc)
once_built-find k (ok run) s r made answer =
    let (here, passed) = made run refl in
    rw (passed, find_run) (rw (store_once-find s run r k here answer) refl)

-- Over the memory store and with nobody in between, an `enqueue` under a key that answers with a run
-- is found again: `find` under the same key answers with that very run, and changes nothing.
pub enqueue_found :
    (repr_float : Float → Text) (tasks : Tasks) (name k : Text) (priority payload : Option Value)
    (shorthand : Entries) (now built : Instant) (s : MemoryStore) (r : Run)
    → let s' =
        (enqueue memory repr_float tasks name
          (some (text k))
          priority
          payload
          shorthand
          now
          built
          s).0 in
      (enqueue memory repr_float tasks name
          (some (text k))
          priority
          payload
          shorthand
          now
          built
          s).1
        ≡ ok r
      → find_run memory (text k) s' ≡ (s', ok (some r))
unfolding enqueue enqueue_at
enqueue_found repr_float tasks name k priority payload shorthand now built s r e =
    once_built-find k _ s r
      (λ run made.
        let (task, _, e1) = >>=-eq-ok (task_for tasks name) _ made in
        let (arguments, _, e2) = >>=-eq-ok (payload_of payload shorthand) _ e1 in
        (
          build-key repr_float task (in_utc now) arguments k priority built run e2,
          build-keyed repr_float task (in_utc now) arguments k priority built run e2,
        ))
      e

-- ===== src/App/Shared/Once.antt =====
-- A key leaves one run: what `store_once` answers over the memory store.
use queuefy.Prelude.{
  ◌≡◌, refl, inl, inr, Bool, true, false, Option, none, some, List, [], ◌∷◌, ◌++◌, arith,
  Bool-cases, any,
}
use mathlib.Core.Option.{some-injective}
use queuefy.Prelude.Text.{Text, eq_refl, eq_of_test, is_some_eq}
use queuefy.Errors.{ok}
use queuefy.Run.{Run}
use queuefy.Store.Memory.Rows.{Entry, MemoryStore, add, taken, find, first, key_of}
use queuefy.Store.Memory.Rows.Exact.{taken-find, written}
use queuefy.App.Enqueue.{write_or_find, store_once}
use queuefy.App.Shared.{memory, find_under}

add-free :
    (s : MemoryStore) (run : Run) → taken s run.key ≡ false → (add s run).1 ≡ some (written s run)
unfolding add
add-free s run free = rw free

pub add-taken : (s : MemoryStore) (run : Run) → taken s run.key ≡ true → add s run ≡ (s, none)
unfolding add
add-taken s run full = rw full

first-append :
    (test : Entry → Bool) (es : List Entry) (e : Entry)
    → any test es ≡ false
    → test e ≡ true
    → first test (es ++ e ∷ []) ≡ some e.1
unfolding first
first-append test [] e h k = rw k
first-append test (x ∷ es) e h k = ground (arith, first-append test es e)

pub find-add :
    (s : MemoryStore) (run : Run) (k : Text)
    → run.key ≡ some k
    → taken s run.key ≡ false
    → find (add s run).0 k ≡ some (written s run)
unfolding find add taken
find-add s run k here free =
    let free' : any (key_of k) s.runs ≡ false = rw here at free in
    rw free (first-append (key_of k) s.runs (s.sequence, written s run) free' (rw here (eq_refl k)))

first-test :
    (test : Entry → Bool) (es : List Entry) (r : Run)
    → first test es ≡ some r
    → (e : Entry) × (test e ≡ true) × (e.1 ≡ r)
unfolding first
first-test test [] r h = absurd (cc)
first-test test (x ∷ es) r h = elim (Bool-cases (test x)) [
  | inl here ↦ (x, here, some-injective x.1 r (rw here at h))
  | inr other ↦ first-test test es r (rw other at h)
]

is_some_eq_lem : (o : Option Text) (k : Text) → is_some_eq o k ≡ true → o ≡ some k
is_some_eq_lem none k h = cc
is_some_eq_lem (some x) k h = rw (eq_of_test x k h)

find-key : (s : MemoryStore) (k : Text) (r : Run) → find s k ≡ some r → r.key ≡ some k
unfolding find
find-key s k r h =
    let (e, test, this) = first-test (key_of k) s.runs r h in
    is_some_eq_lem r.key k (rw (← this) test)

-- A key that is taken is answered for by its holder, and nothing is written.
pub store_once-taken :
    (s : MemoryStore) (run r : Run) (k : Text)
    → run.key ≡ some k
    → find s k ≡ some r
    → store_once memory run s ≡ (s, ok r)
unfolding store_once write_or_find memory find_under
store_once-taken s run r k here held =
    let full : taken s run.key ≡ true = rw here ((taken-find s k).1 (r, held)) in
    ground (arith, add-taken s run full)

pub store_once-free :
    (s : MemoryStore) (run : Run)
    → taken s run.key ≡ false
    → store_once memory run s ≡ ((add s run).0, ok (written s run))
unfolding store_once write_or_find memory
store_once-free s run free = ground (arith, add-free s run free)

-- Over the memory store and with nobody in between, `store_once` of a run with a key raises nothing
-- and answers with a run under that key; whoever asks again under the key is handed that same run,
-- and the store stays as it is.
pub store_once_lem :
    (s : MemoryStore) (run run' : Run) (k : Text)
    → run.key ≡ some k
    → run'.key ≡ some k
    → (r : Run) × ((store_once memory run s).1 ≡ ok r)
      × (r.key ≡ some k)
      × (store_once memory run' (store_once memory run s).0 ≡ ((store_once memory run s).0, ok r))
store_once_lem s run run' k here here' = elim (Bool-cases (taken s run.key)) [
  | inl full ↦
      let (r, held) = (taken-find s k).0 (rw here at full) in
      let answer = store_once-taken s run r k here held in
      (r, rw answer refl, find-key s k r held, rw answer (store_once-taken s run' r k here' held))
  | inr free ↦
      let answer = store_once-free s run free in
      (
        written s run,
        rw answer refl,
        here,
        rw answer (
            store_once-taken (add s run).0 run' (written s run) k here'
              (find-add s run k here free)),
      )
]

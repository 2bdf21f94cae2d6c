-- ===== src/Store/Memory/Rows.antt =====
-- src/queuefy/store/memory.py: the dictionary of runs, and what reads it or adds to it.
-- `runs` is an association list in insertion order. The lock `guard` makes every method one step, so
-- a method is a function from the store to the store and its answer. Values are never shared here,
-- which is what `deepcopy` is for there.
pub mod Exact
use queuefy.Prelude.{
  ℕ, suc, Bool, true, false, ◌&&◌, Option, none, some, List, [], ◌∷◌, ◌++◌, if◌then◌else◌, length,
  keep, any,
}
use queuefy.Prelude.Text.{Text, is_some_eq, ◌==◌ as text_eq}
use queuefy.Prelude.Assoc.{lookup}
use queuefy.Run.{Run, RunStatus, same_status}

abbrev pub Entry : Type 0
Entry = ℕ × Run

pub record MemoryStore : Type 0 where
  pub runs : List Entry
  -- The next number that `count(1)` gives.
  pub sequence : ℕ

unfoldable pub empty : MemoryStore
empty = record { runs = []; sequence = 1 }

unfoldable pub get : MemoryStore → ℕ → Option Run
get s id = lookup id s.runs

abbrev pub key_of : Text → Entry → Bool
key_of k e = is_some_eq e.1.key k

unfoldable pub taken : MemoryStore → Option Text → Bool
taken s none = false
taken s (some k) = any (key_of k) s.runs

unfoldable pub add : MemoryStore → Run → MemoryStore × Option Run
unfolding taken
add s run =
    let run' = record run { id = some s.sequence } in
    if taken s run.key
    then (s, none)
    else (record { runs = s.runs ++ (s.sequence, run') ∷ []; sequence = suc s.sequence }, some run')

unfoldable pub first : (Entry → Bool) → List Entry → Option Run
first test [] = none
first test (e ∷ es) = if test e then some e.1 else first test es

unfoldable pub find : MemoryStore → Text → Option Run
unfolding first
find s k = first (key_of k) s.runs

abbrev status_matches : Option RunStatus → Run → Bool
status_matches none run = true
status_matches (some t) run = same_status run.status t

abbrev queue_matches : Option Text → Run → Bool
queue_matches none run = true
queue_matches (some q) run = text_eq run.queue q

unfoldable pub count : MemoryStore → Option RunStatus → Option Text → ℕ
unfolding same_status
count s status queue =
    length (keep (λ (e : Entry). status_matches status e.1 && queue_matches queue e.1) s.runs)

-- ===== src/App/Shared.antt =====
-- The memory store as the application calls it, one caller at a time.
pub mod Once
use queuefy.Prelude.{Option, none, some, not, true, false, Bool}
use queuefy.Prelude.Text.{Text}
use queuefy.Run.{Run}
use queuefy.Store.Memory.Rows.{Entry, MemoryStore, add, find, first}
use queuefy.App.Enqueue.{Writing}

abbrev has_no_key : Entry → Bool
has_no_key e = elim e.1.key [ none ↦ true | some k ↦ false ]

-- `find`, nothing being the key of the first run that has none.
unfoldable pub find_under : MemoryStore → Option Text → Option Run
unfolding find first
find_under s none = first has_no_key s.runs
find_under s (some k) = find s k

unfoldable pub memory : Writing MemoryStore
memory = record { add = add; find = λ s k. (s, find_under s k) }

-- ===== src/Store/Memory/Sweeping.antt =====
-- src/queuefy/store/memory.py: `reclaim`, `cancel` and `purge`.
pub mod Exact
pub mod Recovery
use queuefy.Prelude.{
  ℕ, Bool, true, false, ◌&&◌, Option, none, some, List, ltb, if◌then◌else◌, length, take, keep,
}
use queuefy.Prelude.Text.{Text, codes}
use queuefy.Prelude.Assoc.{put, put_each, remove_each}
use queuefy.Run.{
  Run, Instant, pending, running, failed, canceled, same_status, is_settled, exhausted,
}
use queuefy.Store.Base.{reclaim_batch}
use queuefy.Store.Memory.Rows.{Entry, MemoryStore, get}

abbrev pub earlier : Option Instant → Instant → Bool
earlier none moment = false
earlier (some t) moment = ltb t moment

unfoldable pub expired : Instant → Run → Bool
unfolding same_status
expired moment run = same_status run.status running && earlier run.lease_until moment

abbrev stopped_answering : Text
stopped_answering = codes "the worker holding this run stopped answering"

unfoldable pub taken_back : Instant → Run → Run
unfolding exhausted
taken_back moment run =
    let run' = record run { worker = none; lease_until = none; started_at = none } in
    if exhausted run'
    then record run' {
      status = failed;
      finished_at = some moment;
      error = some stopped_answering;
      error_type = some (codes "LeaseExpired");
    }
    else record run' { status = pending; due_at = moment }

unfoldable pub abandoned : MemoryStore → Instant → List Entry
unfolding expired
abandoned s moment = take reclaim_batch (keep (λ (e : Entry). expired moment e.1) s.runs)

unfoldable pub reclaim : MemoryStore → Instant → MemoryStore × ℕ
unfolding abandoned put_each taken_back
reclaim s moment = (
  record s { runs = put_each (taken_back moment) (abandoned s moment) s.runs },
  length (abandoned s moment),
)

abbrev pub called_off : Instant → Run → Run
called_off moment run = record run { status = canceled; finished_at = some moment }

unfoldable pub cancel : MemoryStore → ℕ → Instant → MemoryStore × Bool
unfolding get same_status
cancel s id moment = elim (get s id) [
  | none ↦ (s, false)
  | some run ↦
      if same_status run.status pending
      then (record s { runs = put id (called_off moment run) s.runs }, true)
      else (s, false)
]

unfoldable pub over_before : Instant → Run → Bool
unfolding is_settled
over_before moment run = is_settled run.status && earlier run.finished_at moment

unfoldable pub gone : MemoryStore → Instant → ℕ → List Entry
unfolding over_before
gone s moment limit = take limit (keep (λ (e : Entry). over_before moment e.1) s.runs)

unfoldable pub purge : MemoryStore → Instant → ℕ → MemoryStore × ℕ
unfolding gone remove_each
purge s moment limit =
    (record s { runs = remove_each (gone s moment limit) s.runs }, length (gone s moment limit))

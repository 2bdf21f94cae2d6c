-- ===== src/Worker/Endings.antt =====
-- src/queuefy/worker.py: `settle`, `release` and `after`, over the memory store.
pub mod Recorded
use queuefy.Prelude.{ℕ, ◌+◌, Bool, true, false, not, ◌&&◌, Option, none, some, if◌then◌else◌}
use queuefy.Prelude.Int.{pos}
use queuefy.Prelude.Text.{Text}
use queuefy.Errors.{Result, ok, err, ◌>>=◌}
use queuefy.Run.{Run, Instant, exhausted}
use queuefy.Clock.{in_range}
use queuefy.Store.Memory.Rows.{MemoryStore}
use queuefy.Store.Memory.Holding.{fail, retry_later, release}
use queuefy.Worker.Messages.{described}

-- What an exception says of itself, and the name of its class.
pub record Failure : Type 0 where
  pub spoken : Text
  pub kind : Text

-- The store, and whether the run comes back; nothing when the store would not take the ending.
abbrev pub Ending : Type 0
Ending = MemoryStore × Result (Option Bool)

abbrev pub recorded : Bool → MemoryStore × Bool → Ending
recorded back (s, taken) = (s, ok (if taken then some back else none))

-- `waiting` is how long the policy of a run makes it wait, in microseconds: floats and a random draw.
module _ (name : Text) (waiting : Run → ℕ) where
  -- `settle` of a run by the number it carries; no store ever hands out a run without one.
  unfoldable pub settle_under : Option ℕ → MemoryStore → Run → Failure → Bool → Instant → Ending
  settle_under none s run error retryable now = (s, ok none)
  settle_under (some id) s run error retryable now =
      let (description, kind) = described error.spoken error.kind in
      let back = retryable && not (exhausted run) in
      if back
      then elim (in_range (pos (now + waiting run))) [
        | err e ↦ (s, err e)
        | ok due_at ↦ recorded back (retry_later s id name run.attempts due_at description kind)
      ]
      else recorded back (fail s id name run.attempts now description kind)

  unfoldable pub settle : MemoryStore → Run → Failure → Bool → Instant → Ending
  unfolding settle_under
  settle s run error retryable now = settle_under run.id s run error retryable now

  unfoldable pub hand_back_under : Option ℕ → MemoryStore → Run → Failure → Instant → Ending
  hand_back_under none s run error now = (s, ok none)
  hand_back_under (some id) s run error now =
      let (description, kind) = described error.spoken error.kind in
      elim (in_range (pos (now + waiting run))) [
        | err e ↦ (s, err e)
        | ok due_at ↦ recorded true (release s id name run.attempts due_at description kind)
      ]

  unfoldable pub hand_back : MemoryStore → Run → Failure → Instant → Ending
  unfolding hand_back_under
  hand_back s run error now = hand_back_under run.id s run error now

  -- `started` is whether a line of the handler ever ran.
  unfoldable pub after : MemoryStore → Run → Failure → Bool → Instant → Ending
  after s run error started now =
      if started then settle s run error true now else hand_back s run error now

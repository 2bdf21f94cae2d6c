-- ===== src/Store/Redis/Reads.antt =====
-- src/queuefy/store/redis.py: `get`, `find` and `count`.
use queuefy.Prelude.{ℕ, Bool, true, false, ◌&&◌, Option, none, some, length, keep}
use queuefy.Prelude.Text.{Text, ◌==◌ as text_eq}
use queuefy.Run.{Run, RunStatus, same_status}
use queuefy.Store.Redis.Commands.{Commands}

abbrev pub wanted_by : Option RunStatus → Option Text → Option Run → Bool
-- A run that a pruning dropped beside the scan.
wanted_by status queue none = false
wanted_by none none (some run) = true
wanted_by none (some q) (some run) = text_eq run.queue q
wanted_by (some s) none (some run) = same_status run.status s
wanted_by (some s) (some q) (some run) = same_status run.status s && text_eq run.queue q

module _ {T : Type 0} (e : Commands T) where
  unfoldable pub get : ℕ → T → Option Run
  get i t = e.hash i t

  -- A key that is reserved and not yet assigned is an empty text, which names no run.
  abbrev pub get_named : Option (Option ℕ) → T → Option Run
  get_named (some (some i)) t = e.hash i t
  get_named _ t = none

  unfoldable pub find : Text → T → Option Run
  find key t = get_named (e.named key t) t

  unfoldable pub count : Option RunStatus → Option Text → T → ℕ
  unfolding same_status text_eq
  count status queue t = length (keep (λ i. wanted_by status queue (e.hash i t)) (e.scan t))

-- ===== src/Store/Redis/Writing/Asked.antt =====
-- The five methods of an attempt in src/queuefy/store/redis.py, and what the memory store would do.
use queuefy.Prelude.{ℕ, ◌≢◌, Bool, []}
use queuefy.Prelude.Int.{ℤ}
use queuefy.Prelude.Text.{Text}
use queuefy.Store.Memory.Life.{Act, extend, close, give_up, put_back, give_back}
use queuefy.Store.Sql.Writing.Alike.{memory_asked}
use queuefy.Store.Redis.Commands.{Commands, IsRedis}
use queuefy.Store.Redis.Kept.{IsKept}
use queuefy.Store.Redis.Writing.{heartbeat, complete, fail, retry_later, release}
use queuefy.Store.Redis.Writing.Alike.{IsAlike}
use queuefy.Store.Redis.Writing.Calls.{
  heartbeat-IsAlike, complete-IsAlike, fail-IsAlike, retry_later-IsAlike, release-IsAlike,
}

abbrev pub redis_asked : {T : Type 0} → Commands T → ℕ → Text → ℤ → Act → T → T × Bool
redis_asked e i worker attempt (extend lease moment) t = heartbeat e i worker attempt lease moment t
redis_asked e i worker attempt (close moment result) t = complete e i worker attempt moment result t
redis_asked e i worker attempt (give_up moment error kind) t =
    fail e i worker attempt moment error kind t
redis_asked e i worker attempt (put_back due_at error kind) t =
    retry_later e i worker attempt due_at error kind t
redis_asked e i worker attempt (give_back due_at error kind) t =
    release e i worker attempt due_at error kind t

-- An error and its type with a character each.
abbrev pub IsSaid : Act → Type 0
IsSaid (give_up moment error kind) = (error ≢ []) × (kind ≢ [])
IsSaid (put_back due_at error kind) = (error ≢ []) × (kind ≢ [])
IsSaid (give_back due_at error kind) = (error ≢ []) × (kind ≢ [])
IsSaid _ = Unit

-- Where every run waits as it should, and the worker, the error and its type are not empty: each of
-- the five methods answers what the memory store would, leaves under each number the run that the
-- memory store would leave, and leaves every run where it waits.
pub redis_asked-IsAlike :
    {T : Type 0} (e : Commands T) (law : IsRedis e) (i : ℕ) (t : T) (worker : Text) (attempt : ℤ)
    (x : Act)
    → worker ≢ []
    → IsSaid x
    → IsKept e.number (e.look t)
    → IsAlike e
        (memory_asked (e.look t).rows i worker attempt x)
        (redis_asked e i worker attempt x t)
redis_asked-IsAlike e law i t worker attempt (extend lease moment) plain said v =
    heartbeat-IsAlike e law i t worker attempt plain v lease moment
redis_asked-IsAlike e law i t worker attempt (close moment result) plain said v =
    complete-IsAlike e law i t worker attempt plain v moment result
redis_asked-IsAlike e law i t worker attempt (give_up moment error kind) plain said v =
    fail-IsAlike e law i t worker attempt plain v moment error kind said.0 said.1
redis_asked-IsAlike e law i t worker attempt (put_back due_at error kind) plain said v =
    retry_later-IsAlike e law i t worker attempt plain v due_at error kind said.0 said.1
redis_asked-IsAlike e law i t worker attempt (give_back due_at error kind) plain said v =
    release-IsAlike e law i t worker attempt plain v due_at error kind said.0 said.1

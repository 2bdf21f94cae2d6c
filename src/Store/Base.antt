-- ===== src/Store/Base.antt =====
-- src/queuefy/store/base.py: the limits that every store shares.
use queuefy.Prelude.{ℕ}
use queuefy.Prelude.Int.{ℤ, pos, negsuc}

-- How many rows past the asked-for limit a claim looks at.
abbrev pub claim_spread : ℕ
claim_spread = 5

-- How many expired leases one pass takes back.
abbrev pub reclaim_batch : ℕ
reclaim_batch = 500

abbrev pub worker_name_limit : ℕ
worker_name_limit = 128

abbrev pub task_name_limit : ℕ
task_name_limit = 255

abbrev pub key_limit : ℕ
key_limit = 255

abbrev pub queue_limit : ℕ
queue_limit = 64

abbrev pub priority_limit : ℕ
priority_limit = 1000

abbrev pub attempt_limit : ℕ
attempt_limit = 2147483647

abbrev pub error_limit : ℕ
error_limit = 4096

abbrev pub error_type_limit : ℕ
error_type_limit = 128

-- What a whole number inside a payload may be: -(2 ** 63) and 2 ** 64 - 1.
abbrev pub whole_floor : ℤ
whole_floor = negsuc 9223372036854775807

abbrev pub whole_ceiling : ℤ
whole_ceiling = pos 18446744073709551615

-- ===== src/Store/Redis/Opening.antt =====
-- src/queuefy/store/redis.py: `__init__`. Its sets and hashes are those under one prefix.
use queuefy.Prelude.{Bool}
use queuefy.Prelude.Text.{Text}
use queuefy.Errors.{Result, ok, ◌>>◌, raise_if, queue_error}

pub record RedisStore : Type 0 where
  pub prefix : Text

-- A client that decodes what redis answers is refused.
unfoldable pub open_store : (decode_responses : Bool) → (prefix : Text) → Result RedisStore
open_store decode_responses prefix = do
  raise_if decode_responses queue_error
  ok (record { prefix = prefix })

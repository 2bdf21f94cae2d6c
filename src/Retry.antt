-- ===== src/Retry.antt =====
-- src/queuefy/retry.py: the policies; Delays is how long a failed attempt waits.
pub mod Delays

pub data RetryPolicy : Type 0 where
  fixed linear exponential exponential_jitter : RetryPolicy

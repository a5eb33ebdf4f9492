-- ===== src/Redis.antt =====
-- app/infra/redis/client.py: whether there is a client for Redis, and whether Redis answers it.
use operations_management.Base.{Bool, true, false}

-- No client is configured; calls raise `RedisError` or `OSError`; or they return.
pub data Link : Type 0 where
  no_client failing answering : Link

abbrev pub is_answering : Link → Bool
is_answering Link.answering = true
is_answering _ = false

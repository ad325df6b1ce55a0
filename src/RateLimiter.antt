-- ===== src/RateLimiter.antt =====
-- core/rate_limiter.py: the sliding window of one key. The Redis server keeps the times of the
-- requests as a sorted set, whose members are the times themselves; the process keeps them as a list.
pub mod Window
use resolver_ai.Prelude.{
  ℕ, ◌+◌, Bool, false, List, ◌∷◌, any, filter, length, ltb, leb, ◌==◌, if◌then◌else◌,
}

-- RATE_LIMIT_ENABLED, `max_requests` and `window_seconds`, in the clock's unit
pub record Limit : Type 0 where
  pub enabled : Bool
  pub max_requests : ℕ
  pub window : ℕ

-- the bucket in memory and the sorted set in Redis
pub record Buckets : Type 0 where
  pub memory : List ℕ
  pub redis : List ℕ

-- `t > now - window_seconds`
abbrev pub is_recent : ℕ → ℕ → ℕ → Bool
is_recent window now t = ltb now (t + window)

unfoldable pub recent : ℕ → ℕ → List ℕ → List ℕ
recent window now ts = filter (is_recent window now) ts

-- the path in memory
unfoldable pub limit_in_memory : Limit → ℕ → Buckets → Buckets × Bool
limit_in_memory l now b =
    let bucket = now ∷ recent l.window now b.memory in
    (record b { memory = bucket }, ltb l.max_requests (length bucket))

-- a member of a set is not added again
abbrev pub zadd : ℕ → List ℕ → List ℕ
zadd now ts = if any (λ t. t == now) ts then ts else now ∷ ts

-- the pipeline in Redis: old members are removed, the rest is counted, the request is added
unfoldable pub limit_in_redis : Limit → ℕ → Buckets → Buckets × Bool
limit_in_redis l now b =
    let kept = recent l.window now b.redis in
    (record b { redis = zadd now kept }, leb l.max_requests (length kept))

-- `is_rate_limited`; `in_redis` says that the client is there and its pipeline does not raise
unfoldable pub is_rate_limited : Limit → Bool → ℕ → Buckets → Buckets × Bool
is_rate_limited l in_redis now b =
    if l.enabled
    then if in_redis then limit_in_redis l now b else limit_in_memory l now b
    else (b, false)

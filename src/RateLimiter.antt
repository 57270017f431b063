-- ===== src/RateLimiter.antt =====
-- doc-search/app/services/rate_limiter.py: the token bucket, in the Lua script and in the process.
--
-- Times are microseconds. Tokens are counted in parts of which 60000000 make one token, so that a
-- limit of `l` requests a minute refills exactly `l` parts in a microsecond. The source computes with
-- floats; the model is exact.
pub mod Waits
pub mod Quota
pub mod Expiry
use distributed_document_sea.Prelude.{
  ℕ, zero, suc, ◌+◌, ◌-◌, ◌*◌, ◌/◌, min, max, Text, text, Dict, lookup, insert, if◌then◌else◌, leb,
  ltb, Bool, true, false, List, [], ◌∷◌, Option, none, some,
}
use distributed_document_sea.Errors.{Exn, other, Result, ok, err, Seconds}
use distributed_document_sea.Keys.{rate_limit_key}

abbrev pub token : ℕ
token = 60000000

pub record RateLimitDecision : Type 0 where
  pub allowed : Bool
  pub limit_per_minute : ℕ
  pub remaining : ℕ
  pub retry_after_seconds : Seconds
  pub degraded : Bool

-- `_LocalBucket`, and the fields `tokens` and `ts` of the hash in Redis.
pub record LocalBucket : Type 0 where
  pub tokens : ℕ
  pub ts : ℕ

-- `_capacity`, for a burst ratio of `num / den`: at least 5 tokens.
unfoldable pub capacity_of : (num den limit : ℕ) → ℕ
capacity_of num den limit = max (5 * token) (limit * num * token / den)

-- The tokens at `now`: `min(capacity, tokens + max(0, now - ts) * refill_rate)`.
unfoldable pub refill : (capacity limit now : ℕ) → LocalBucket → ℕ
refill capacity limit now b = min capacity (b.tokens + (now - b.ts) * limit)

-- The bucket after a check for one token, and whether the token was there.
unfoldable pub take_token : (capacity limit now : ℕ) → LocalBucket → Bool × LocalBucket
unfolding refill
take_token capacity limit now b =
    let tokens = refill capacity limit now b in
    if leb token tokens
    then (true, record { tokens = tokens - token; ts = now })
    else (false, record { tokens = tokens; ts = now })

-- `(1 - tokens) / refill_rate`: parts by parts per second.
unfoldable pub retry_after : (limit : ℕ) → LocalBucket → Seconds
retry_after limit b = record { num = token - b.tokens; den = limit * 1000000 }

abbrev at_once : Seconds
at_once = record { num = 0; den = 1 }

unfoldable pub decision : (degraded : Bool) → (limit : ℕ) → Bool × LocalBucket → RateLimitDecision
unfolding retry_after
decision degraded limit (allowed, b) = record {
  allowed = allowed;
  limit_per_minute = limit;
  remaining = b.tokens / token;
  retry_after_seconds = if allowed then at_once else retry_after limit b;
  degraded = degraded;
}

abbrev pub or_full : (capacity now : ℕ) → Option LocalBucket → LocalBucket
or_full capacity now none = record { tokens = capacity; ts = now }
or_full capacity now (some b) = b

-- Python divides by the refill rate only when it refuses, and a rate of zero raises there: a bucket
-- that was stored before has been changed in place, a new one is not stored.
abbrev pub division_by_zero : Exn
division_by_zero = other (text "float division by zero")

abbrev is_zero : ℕ → Bool
is_zero zero = true
is_zero (suc _) = false

abbrev changed : Text → LocalBucket → Dict LocalBucket → Dict LocalBucket
changed key b local = elim (lookup key local) [ none ↦ local | some _ ↦ insert key b local ]

-- `_check_local`, with the limit that `check` then puts into the decision.
unfoldable pub check_local :
    (key : Text)
    → (capacity limit now : ℕ) → Dict LocalBucket
    → Result RateLimitDecision × Dict LocalBucket
unfolding decision take_token
check_local key capacity limit now local =
    let (allowed, b) = take_token capacity limit now (or_full capacity now (lookup key local)) in
    if allowed
    then (ok (decision true limit (true, b)), insert key b local)
    else if is_zero limit
    then (err division_by_zero, changed key b local)
    else (ok (decision true limit (false, b)), insert key b local)

-- A hash in Redis with the time at which it expires.
pub record RedisEntry : Type 0 where
  pub bucket : LocalBucket
  pub expires_at : ℕ

-- What Redis still holds of an entry: an expired key is gone.
unfoldable pub held : (now : ℕ) → Option RedisEntry → Option LocalBucket
held now none = none
held now (some e) = if ltb now e.expires_at then some e.bucket else none

-- `TOKEN_BUCKET_LUA` with a cost of 1 and a lifetime of `ttl` microseconds; `now` is Redis' clock.
unfoldable pub token_bucket_lua :
    (key : Text)
    → (capacity limit ttl now : ℕ) → Dict RedisEntry
    → (Bool × LocalBucket) × Dict RedisEntry
unfolding held take_token
token_bucket_lua key capacity limit ttl now redis =
    let r = take_token capacity limit now (or_full capacity now (held now (lookup key redis))) in
    (r, insert key (record { bucket = r.1; expires_at = now + ttl }) redis)

-- The state of the limiter of one process. `redis` is none for a cache backend without a client;
-- `reachable` says whether the script runs or raises.
pub record RateLimiter : Type 0 where
  pub redis : Option (Dict RedisEntry)
  pub reachable : Bool
  pub local : Dict LocalBucket

abbrev degrade :
    RateLimiter
    → Result RateLimitDecision × Dict LocalBucket
    → Result RateLimitDecision × RateLimiter
degrade s (r, local) = (r, record s { local = local })

-- `check`; the clock of the process and that of Redis are read apart.
unfoldable pub check :
    (num den : ℕ)
    → (tenant bucket : Text) → (limit now redis_now : ℕ) → RateLimiter
    → Result RateLimitDecision × RateLimiter
unfolding decision
check num den tenant bucket limit now redis_now s =
    let capacity = capacity_of num den limit in
    let key = rate_limit_key tenant bucket in
    let fallback = degrade s (check_local key capacity limit now s.local) in
    elim s.redis [
      | none ↦ fallback
      | some redis ↦
          let (r, redis') = token_bucket_lua key capacity limit 120000000 redis_now redis in
          if s.reachable
          then (ok (decision false limit r), record s { redis = some redis' })
          else fallback
    ]

-- ===== src/RateLimiter/Waits.antt =====
-- doc-search/app/services/rate_limiter.py: when the time that a refusal announces is finite.
use distributed_document_sea.Prelude.{ℕ, ◌<◌, ◌≡◌, Text, false, arith}
use distributed_document_sea.Errors.{ok}
use distributed_document_sea.RateLimiter.{
  RateLimitDecision, RateLimiter, take_token, check_local, decision, retry_after, check,
  token_bucket_lua,
}

module _ (num den : ℕ) (tenant bucket : Text) (now redis_now : ℕ) (s : RateLimiter)
    (d : RateLimitDecision) where
  -- With a positive limit, every decision announces a finite time.
  pub check_finite :
      (limit : ℕ)
      → 0 < limit
      → (check num den tenant bucket limit now redis_now s).0 ≡ ok d
      → 0 < d.retry_after_seconds.den
  unfolding check check_local decision retry_after take_token token_bucket_lua
  check_finite limit h e = ground arith

  -- With a limit of zero, a refusal announces an infinite time.
  pub check_infinite :
      (limit : ℕ)
      → limit ≡ 0
      → (check num den tenant bucket limit now redis_now s).0 ≡ ok d
      → d.allowed ≡ false
      → d.retry_after_seconds.den ≡ 0
  unfolding check check_local decision retry_after take_token token_bucket_lua
  check_infinite limit h e refused = ground arith

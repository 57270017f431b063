-- ===== src/Tests/Resilience.antt =====
-- The breaker, the retries, the rate limiter and the cache, at concrete settings.
use distributed_document_sea.Prelude.{
  ℕ, zero, suc, ◌+◌, ◌-◌, ◌*◌, ◌≤◌, ◌<◌, ◌≡◌, ◌↔◌, refl, Text, text, text_eq, Bool, true, false,
  leb, if◌then◌else◌, [], ◌∷◌, arith, lookup, inl,
}
use distributed_document_sea.Errors.{Exn, other, Result, ok, err}
use distributed_document_sea.Resilience.{
  closed, CircuitBreaker, init, state_value, before_call, with_retry,
}
use distributed_document_sea.Resilience.Interleaving.{here, next, start, reachable_breaker}
use distributed_document_sea.Resilience.Retries.{Outcome, with_retry-Outcome}
use distributed_document_sea.RateLimiter.{token, LocalBucket, take_token, refill, retry_after}
use distributed_document_sea.RateLimiter.Quota.{admitted, quota_bound, retry_exact}
use distributed_document_sea.Cache.Store.{peek}
use distributed_document_sea.Generation.{
  Counts, current_generation, invalidate_tenant, invalidate_next,
}
use distributed_document_sea.Tests.{codec, acme, up_cache}

abbrev breaker : CircuitBreaker
breaker = init (text "search") 2 10

admits : (before_call 0 breaker).0 ≡ ok tt
unfolding before_call init
admits = refl

reachable_breaker_example :
    let b = (before_call 0 breaker).1 in
    ((b.state ≡ closed) ↔ (b.failures < b.failure_threshold)) × (b.gauge ≡ state_value b.state)
reachable_breaker_example =
    reachable_breaker (text "search") 2 10 (omega arith) (next here (start admits))

-- A call that fails as long as its counter has not run out.
abbrev flaky : ℕ → Result ℕ × ℕ
flaky zero = (ok 7, 0)
flaky (suc n) = (err (other (text "timeout")), n)

abbrev always : Exn → Bool
always e = true

abbrev longest : ℕ → ℕ → ℕ
longest i d = d

with_retry-Outcome_example :
    Outcome always longest 50 1000 flaky 3 2 (with_retry always longest 50 1000 3 flaky 2)
with_retry-Outcome_example = with_retry-Outcome always longest 50 1000 flaky 3 2 (omega arith)

-- A bucket of five tokens for 60 requests a minute, and an empty one.
abbrev full : LocalBucket
full = record { tokens = 300000000; ts = 0 }

abbrev empty : LocalBucket
empty = record { tokens = 0; ts = 0 }

quota_bound_example :
    (admitted 300000000 60 (0 ∷ 1000000 ∷ []) full).0 * token
      + (admitted 300000000 60 (0 ∷ 1000000 ∷ []) full).1.tokens
    ≤ 300000000 + ((admitted 300000000 60 (0 ∷ 1000000 ∷ []) full).1.ts - 0) * 60
quota_bound_example =
    quota_bound 300000000 60 (0 ∷ 1000000 ∷ []) full (omega arith, (omega arith, tt))

refused : (take_token 300000000 60 500000 empty).0 ≡ false
unfolding take_token refill
refused = ground arith

retry_exact_example :
    (take_token 300000000 60 1500000 (take_token 300000000 60 500000 empty).1).0
    ≡ leb
        ((retry_after 60 (take_token 300000000 60 500000 empty).1).num * 1000000)
        ((1500000 - 500000) * (retry_after 60 (take_token 300000000 60 500000 empty).1).den)
retry_exact_example = retry_exact 300000000 60 500000 1500000 empty (omega arith) refused

no_count : (t : Text) → Counts codec 5 t 0 up_cache
unfolding peek lookup
no_count t = inl (refl, refl)

invalidate_next_example :
    (current_generation codec 5 acme (invalidate_tenant codec 5 acme up_cache)).0
    ≡ (if text_eq acme acme then 1 else 0)
invalidate_next_example =
    invalidate_next codec 5 5 0 0 acme acme up_cache (omega arith) (omega arith) refl
      (no_count acme) (no_count acme)

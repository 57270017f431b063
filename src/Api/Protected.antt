-- ===== src/Api/Protected.antt =====
-- doc-search/app/api/deps.py: what runs before the handler of a protected route, over the state of
-- one API process and the services that it shares with the others.
--
-- The framework reads the body of a request before anything else, and fails if it is no JSON: `body` is
-- that error, if there is one, and none for a route that takes no body. Then the dependencies run in
-- the order of the source: the tenant, then the limiter. What the framework makes of the path, the
-- query and the fields of the body comes after them: it is an argument, the validated parameters or
-- the error.
use distributed_document_sea.Prelude.{ℕ, Text, List, Option, none, some}
use distributed_document_sea.Errors.{Result, ok, err, Exn}
use distributed_document_sea.Cache.{Codec, Model, InMemoryCache}
use distributed_document_sea.DocumentService.{DocumentResponse, World}
use distributed_document_sea.Engine.{SearchQuery, EngineResult}
use distributed_document_sea.Search.{SearchModel}
use distributed_document_sea.Tenants.{Tenant, Registry, get_current_tenant}
use distributed_document_sea.RateLimiter.{RateLimitDecision, RateLimiter, check}
use distributed_document_sea.Api.{admit_or_throttle}

-- What the process is built with: the models of the cache, the search of the engine, sha256 and the
-- settings; the burst ratio of the limiter is `num / den`.
pub record Service (c : Codec) (S : Type 0) : Type 0 where
  pub documents : Model c DocumentResponse
  pub document_ttl : ℕ
  pub responses : SearchModel c
  pub sha256 : Text → Text
  pub engine_search : SearchQuery → S → Result EngineResult × S
  pub max_page_size : ℕ
  pub max_result_window : ℕ
  pub tenants : Model c Tenant
  pub hash_api_key : Text → Text
  pub tenant_ttl : ℕ
  pub num : ℕ
  pub den : ℕ

-- The state: the document world, the rows of the tenants, the limiter and the search engine.
pub record Site (c : Codec) (S : Type 0) : Type 0 where
  pub world : World c
  pub tenants : List Tenant
  pub limiter : RateLimiter
  pub engine : S

-- What a route leaves: its result, and `request.state.rate_limit`, if it was set.
pub record Outcome (A : Type 0) : Type 0 where
  pub result : Result A
  pub rate_limit : Option RateLimitDecision

abbrev pub with_cache : {c : Codec} {S : Type 0} → Site c S → InMemoryCache c → Site c S
with_cache s m = record s { world = record s.world { cache = m } }

-- `request.state.rate_limit = decision`, unless `check` raised
abbrev pub decided : Result RateLimitDecision → Option RateLimitDecision
decided (err e) = none
decided (ok d) = some d

module _ (c : Codec) {S : Type 0} (service : Service c S) where
  -- `get_current_tenant` on the state.
  unfoldable pub authenticate : Option Text → Site c S → Result Tenant × Site c S
  authenticate x_api_key s =
      let db : Registry = record { tenants = s.tenants; reachable = s.world.db.reachable } in
      let (r, m) =
        get_current_tenant c service.tenants service.hash_api_key service.tenant_ttl s.world.now
          x_api_key db s.world.cache in
      (r, with_cache s m)

  module _ {P A : Type 0} (validated : Result P)
      (handler : Tenant → P → Site c S → Result A × Site c S) where
    abbrev run_handler :
        Tenant → Result P → Option RateLimitDecision → Site c S → Outcome A × Site c S
    run_handler tenant (err e) d s = (record { result = err e; rate_limit = d }, s)
    run_handler tenant (ok p) d s =
        let (r, s') = handler tenant p s in (record { result = r; rate_limit = d }, s')

    abbrev pub after_decision :
        Tenant
        → Result RateLimitDecision
        → Option RateLimitDecision
        → Site c S
        → Outcome A × Site c S
    after_decision tenant (err e) d s = (record { result = err e; rate_limit = d }, s)
    after_decision tenant (ok _) d s = run_handler tenant validated d s

    -- `rate_limited(bucket)`, and the handler if it admits.
    unfoldable pub after_authentication : Text → ℕ → Result Tenant × Site c S → Outcome A × Site c S
    after_authentication bucket redis_now (err e, s) =
        (record { result = err e; rate_limit = none }, s)
    after_authentication bucket redis_now (ok tenant, s) =
        let (r, limiter) =
          check service.num service.den tenant.id bucket tenant.rate_limit_per_minute s.world.now
            redis_now s.limiter in
        after_decision tenant (admit_or_throttle tenant r) (decided r)
          (record s { limiter = limiter })

    -- A request with the given key to a route of the bucket.
    unfoldable pub protected : Text → Option Exn → ℕ → Option Text → Site c S → Outcome A × Site c S
    unfolding after_authentication
    protected bucket (some e) redis_now x_api_key s =
        (record { result = err e; rate_limit = none }, s)
    protected bucket none redis_now x_api_key s =
        after_authentication bucket redis_now (authenticate x_api_key s)

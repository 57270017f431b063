-- ===== src/Api/Refusals.antt =====
-- doc-search/app/api/deps.py: requests that the dependencies refuse, and those that they let through.
use distributed_document_sea.RateLimiter.Waits.{check_finite, check_infinite}
use distributed_document_sea.Prelude.{
  ℕ, ◌≡◌, ◌⊎◌, inl, inr, refl, ap, ◌∙◌, Text, text, decimal, true, false, [], ◌∷◌, Option, none,
  some, ◌+◌, ◌/◌, ◌<◌, arith,
}
use distributed_document_sea.Errors.{Result, ok, err, app_error, status_code, Seconds, other}
use distributed_document_sea.Errors.Handlers.{
  respond, retry_after_header, handle_app_error, handle_unexpected,
}
use distributed_document_sea.Cache.{Codec, InMemoryCache, get_json}
use distributed_document_sea.Keys.{tenant_key}
use distributed_document_sea.Tenants.{
  Tenant, Registry, get_by_api_key_hash, get_current_tenant, raise_unauthorized,
}
use distributed_document_sea.Tenants.Sessions.{IsUnseen, unseen_key}
use distributed_document_sea.RateLimiter.{RateLimitDecision, RateLimiter, check}
use distributed_document_sea.Api.{admit_or_throttle, rate_limit_headers}
use distributed_document_sea.Api.Protected.{
  Service, Site, with_cache, decided, authenticate, after_decision, after_authentication, protected,
}
use distributed_document_sea.Api.Replies.{Response, sent, with_context, request_id, dispatch}
use distributed_document_sea.Api.Routes.{Drawn, Headers, request}

retry_after_header-finite :
    (w : Seconds) → 0 < w.den → retry_after_header w ≡ ok (w.num / w.den + 1)
unfolding retry_after_header
retry_after_header-finite w h = ground arith

retry_after_header-infinite :
    (w : Seconds) → w.den ≡ 0 → retry_after_header w ≡ err (other (text "OverflowError"))
unfolding retry_after_header
retry_after_header-infinite w h = ground arith

-- The database, the queue, the registry and the engine are as they were.
pub record IsUntouched {c : Codec} {S : Type 0} (s s' : Site c S) : Type 0 where
  pub same_db : s'.world.db ≡ s.world.db
  pub same_queue : s'.world.queue ≡ s.world.queue
  pub same_tenants : s'.tenants ≡ s.tenants
  pub same_engine : s'.engine ≡ s.engine

module _ (c : Codec) {S : Type 0} (service : Service c S) (drawn : Drawn) where
  -- A key that stands for no active tenant.
  abbrev pub IsRefused : Option Text → Site c S → Type 0
  IsRefused key s =
      (key ≡ none)
      ⊎ (key ≡ some [])
      ⊎ ((x : ℕ) × (xs : Text) × (key ≡ some (x ∷ xs))
          × IsUnseen c service.tenants service.hash_api_key service.tenant_ttl s.world.now (x ∷ xs)
              s.world.cache
          × (get_by_api_key_hash (service.hash_api_key (x ∷ xs)) s.tenants ≡ none))

  abbrev registry_of : Site c S → Registry
  registry_of s = record { tenants = s.tenants; reachable = s.world.db.reachable }

  abbrev looked_up : Option Text → Site c S → Result Tenant × InMemoryCache c
  looked_up key s =
      get_current_tenant c service.tenants service.hash_api_key service.tenant_ttl s.world.now key
        (registry_of s) s.world.cache

  refused_lookup :
      (key : Option Text) (s : Site c S)
      → s.world.db.reachable ≡ true
      → IsRefused key s
      → (message : Text) × (m : InMemoryCache c) × (looked_up key s
          ≡ (err (raise_unauthorized message), m))
  unfolding get_current_tenant
  refused_lookup key s up (inl e) = (text "Missing X-API-Key header.", s.world.cache, rw e refl)
  refused_lookup key s up (inr (inl e)) =
      (text "Missing X-API-Key header.", s.world.cache, rw e refl)
  refused_lookup key s up (inr (inr (x, xs, e, unseen, unknown))) =
      let key = tenant_key (service.hash_api_key (x ∷ xs)) in
      let m = (get_json c s.world.now key s.world.cache).1 in
      let found =
        unseen_key c service.tenants service.hash_api_key service.tenant_ttl s.world.now x xs
          (registry_of s) s.world.cache up unseen in
      ([], m, ap (λ k. looked_up k s) e ∙ found ∙ rw unknown refl)

  abbrev checked : Text → Tenant → Site c S → Result RateLimitDecision × RateLimiter
  checked bucket t s =
      check service.num service.den t.id bucket t.rate_limit_per_minute s.world.now drawn.redis_now
        s.limiter

  -- The state at the decision of the limiter.
  abbrev pub admitted_site : Text → Option Text → Tenant → Site c S → Site c S
  admitted_site bucket key t s = record (with_cache s (looked_up key s).1) {
    limiter = (checked bucket t s).1;
  }

  -- The key stands for the tenant, and the limiter decides so.
  abbrev pub IsDecided : Text → Option Text → Tenant → RateLimitDecision → Site c S → Type 0
  IsDecided bucket key t d s = ((looked_up key s).0 ≡ ok t) × ((checked bucket t s).0 ≡ ok d)

  module _ {P : Type 0} (bucket : Text) (validated : Result P)
      (handler : Tenant → P → Site c S → Result Response × Site c S) where
    -- The request, by what the authentication gives.
    abbrev served : Headers → Site c S → Result Tenant × InMemoryCache c → Response × Site c S
    served h s (r, m) =
        let (o, s') =
          after_authentication c service validated handler bucket drawn.redis_now
            (r, with_cache s m) in
        (dispatch (request_id drawn.rid h.x_request_id) o, s')

    served_lem :
        (h : Headers) (s : Site c S)
        → request c service drawn bucket none validated handler h s
          ≡ served h s (looked_up h.x_api_key s)
    unfolding request protected authenticate
    served_lem h s = refl

    -- With the database up, a request whose body could be read, or that has none, and that comes
    -- without a key, with an empty one, or with one that the cache knows nothing of and no active
    -- tenant has, is answered with 401 on every protected route, whatever the validation of its
    -- parameters would say, and the database, the queue, the registry, the engine and the limiter
    -- are as they were.
    pub unauthorized_401 :
        (h : Headers) (s : Site c S)
        → s.world.db.reachable ≡ true
        → IsRefused h.x_api_key s
        → let out = request c service drawn bucket none validated handler h s in
          (out.0.status ≡ 401) × IsUntouched s out.1 × (out.1.limiter ≡ s.limiter)
    unfolding after_authentication dispatch sent respond with_context app_error status_code
    unauthorized_401 h s up refused =
        let (message, m, e) = refused_lookup h.x_api_key s up refused in
        let whole = served_lem h s ∙ ap (λ l. served h s l) e in
        rw whole (
          refl,
          record { same_db = refl; same_queue = refl; same_tenants = refl; same_engine = refl },
          refl,
        )

    -- The request, by the decision of the limiter.
    abbrev decided_request :
        Headers → Tenant → Site c S → Result RateLimitDecision → Response × Site c S
    decided_request h t s r =
        let (o, s') =
          after_decision c service validated handler t (admit_or_throttle t r) (decided r)
            (admitted_site bucket h.x_api_key t s) in
        (dispatch (request_id drawn.rid h.x_request_id) o, s')

    request_decided :
        (h : Headers) (t : Tenant) (d : RateLimitDecision) (s : Site c S)
        → IsDecided bucket h.x_api_key t d s
        → request c service drawn bucket none validated handler h s ≡ decided_request h t s (ok d)
    unfolding after_authentication
    request_decided h t d s (known, decision) =
        served_lem h s
        ∙ ap (λ r. served h s (r, (looked_up h.x_api_key s).1)) known
        ∙ ap (λ r. decided_request h t s r) decision

    -- An authenticated request of a tenant with a positive limit, whose body could be read and
    -- which the limiter refuses, is answered with 429 on every protected route, with the headers
    -- Retry-After, which is the next whole second after the wait, X-Request-ID and those of the
    -- limit, and the handler has not run: the database, the queue, the registry and the engine are
    -- as they were.
    pub throttled_429 :
        (h : Headers) (t : Tenant) (d : RateLimitDecision) (s : Site c S)
        → IsDecided bucket h.x_api_key t d s
        → d.allowed ≡ false
        → 0 < t.rate_limit_per_minute
        → let out = request c service drawn bucket none validated handler h s in
          let wait = d.retry_after_seconds in
          (out.0.status ≡ 429)
          × (out.0.headers
              ≡ (text "Retry-After", decimal (wait.num / wait.den + 1))
                ∷ (text "X-Request-ID", request_id drawn.rid h.x_request_id)
                ∷ rate_limit_headers (some d))
          × IsUntouched s out.1
    unfolding admit_or_throttle dispatch sent respond with_context app_error status_code
        handle_app_error
    throttled_429 h t d s (known, decision) refused limited =
        let finite =
          check_finite service.num service.den t.id bucket s.world.now drawn.redis_now s.limiter d
            t.rate_limit_per_minute limited decision in
        rw
          (
            request_decided h t d s (known, decision),
            refused,
            retry_after_header-finite d.retry_after_seconds finite,
          )
          (
            refl,
            refl,
            record { same_db = refl; same_queue = refl; same_tenants = refl; same_engine = refl },
          )

    -- An authenticated request of a tenant with a limit of zero, whose body could be read and which
    -- the limiter refuses, is answered with 500 and none of the headers of the middleware, because
    -- the wait is infinite and the handler of the refusal raises; the database, the queue, the
    -- registry and the engine are as they were.
    pub infinite_wait_500 :
        (h : Headers) (t : Tenant) (d : RateLimitDecision) (s : Site c S)
        → IsDecided bucket h.x_api_key t d s
        → d.allowed ≡ false
        → t.rate_limit_per_minute ≡ 0
        → let out = request c service drawn bucket none validated handler h s in
          (out.0.status ≡ 500) × (out.0.headers ≡ []) × IsUntouched s out.1
    unfolding admit_or_throttle dispatch sent respond with_context app_error status_code
        handle_app_error handle_unexpected
    infinite_wait_500 h t d s (known, decision) refused unlimited =
        let infinite =
          check_infinite service.num service.den t.id bucket s.world.now drawn.redis_now s.limiter d
            t.rate_limit_per_minute unlimited decision refused in
        rw
          (
            request_decided h t d s (known, decision),
            refused,
            retry_after_header-infinite d.retry_after_seconds infinite,
          )
          (
            refl,
            refl,
            record { same_db = refl; same_queue = refl; same_tenants = refl; same_engine = refl },
          )

    -- A request that is let through is answered by its handler, or refused as its parameters say.
    pub request_admitted :
        (h : Headers) (t : Tenant) (d : RateLimitDecision) (s : Site c S) (p : P)
        → IsDecided bucket h.x_api_key t d s
        → d.allowed ≡ true
        → validated ≡ ok p
        → request c service drawn bucket none validated handler h s ≡ (
            let (r, s') = handler t p (admitted_site bucket h.x_api_key t s) in
            (
              dispatch
                  (request_id drawn.rid h.x_request_id)
                  (record { result = r; rate_limit = some d }),
              s',
            ))
    unfolding admit_or_throttle
    request_admitted h t d s p decision allowed valid =
        request_decided h t d s decision ∙ rw (allowed, valid) refl

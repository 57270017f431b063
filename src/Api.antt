-- ===== src/Api.antt =====
-- doc-search/app/api/deps.py, doc-search/app/api/routes/search.py and
-- doc-search/app/middleware/request_context.py: what stands between a request and the services.
pub mod Scope
pub mod Protected
pub mod Replies
pub mod Routes
pub mod Refusals
pub mod Ownership
pub mod ReadYourWrites
use distributed_document_sea.Prelude.{
  ℕ, zero, suc, ◌-◌, ◌/◌, min, max, Text, text, text_eq, decimal, if◌then◌else◌, Bool, true, false,
  List, [], ◌∷◌, Option, none, some,
}
use distributed_document_sea.Errors.{
  Exn, app, app_error, forbidden, rate_limited, Result, ok, err, ◌>>=◌,
}
use distributed_document_sea.Engine.{SearchQuery}
use distributed_document_sea.Tenants.{Tenant}
use distributed_document_sea.RateLimiter.{RateLimitDecision}

abbrev pub tenant_mismatch : Exn
tenant_mismatch =
    app (app_error forbidden (text "The requested tenant does not match the authenticated tenant."))

abbrev asserted : Text → Text → Result Text
asserted [] tenant_id = ok tenant_id
asserted (x ∷ xs) tenant_id =
    if text_eq (x ∷ xs) tenant_id then ok tenant_id else err tenant_mismatch

-- `enforce_tenant_scope`
unfoldable pub enforce_tenant_scope : Option Text → Tenant → Result Text
enforce_tenant_scope none tenant = ok tenant.id
enforce_tenant_scope (some requested) tenant = asserted requested tenant.id

-- The end of the dependency `rate_limited`, by the outcome of the limiter's `check`.
unfoldable pub admit_or_throttle : Tenant → Result RateLimitDecision → Result RateLimitDecision
admit_or_throttle tenant (err e) = err e
admit_or_throttle tenant (ok d) =
    if d.allowed
    then ok d
    else err (app (app_error (rate_limited d.retry_after_seconds tenant.rate_limit_per_minute) []))

-- The query parameters of `GET /search`, after the framework has checked their bounds.
pub record SearchParams : Type 0 where
  pub q : Text
  pub tenant : Option Text
  pub page : ℕ
  pub size : ℕ
  pub fuzzy : Bool
  pub highlight : Bool
  pub facets : Bool

-- The `SearchQuery` that `search_documents` passes to the service.
unfoldable pub clamped : (max_page_size max_result_window : ℕ) → Text → SearchParams → SearchQuery
clamped max_page_size max_result_window tenant_id p =
    let size = min p.size max_page_size in
    let max_page = max 1 (max_result_window / size) in
    record {
      tenant_id = tenant_id;
      text = p.q;
      page = min p.page max_page;
      size = size;
      fuzzy = p.fuzzy;
      highlight = p.highlight;
      facets = p.facets;
    }

-- `search_documents`, up to the call of the service: the query, or the refusal.
unfoldable pub search_documents :
    (max_page_size max_result_window : ℕ) → Tenant → SearchParams → Result SearchQuery
unfolding clamped
search_documents max_page_size max_result_window tenant p =
    enforce_tenant_scope p.tenant tenant >>= λ tenant_id.
    ok (clamped max_page_size max_result_window tenant_id p)

-- The headers of the rate limit that the middleware adds.
unfoldable pub rate_limit_headers : Option RateLimitDecision → List (Text × Text)
rate_limit_headers none = []
rate_limit_headers (some d) = elim d.limit_per_minute [
  | zero ↦ []
  | suc n ↦
      (text "X-RateLimit-Limit", decimal d.limit_per_minute)
      ∷ (text "X-RateLimit-Remaining", decimal d.remaining)
      ∷ []
]

-- ===== src/Tests/Routes.antt =====
-- Whole requests at a concrete site.
use distributed_document_sea.Prelude.{
  ℕ, ◌-◌, ◌≡◌, inl, refl, Text, text, text_eq, decimal, lookup, insert, true, false, [], ◌∷◌, none,
  some, arith,
}
use distributed_document_sea.Errors.{other, Result, ok, err}
use distributed_document_sea.Keys.{rate_limit_key, document_key, tenant_key, search_generation_key}
use distributed_document_sea.Generation.{invalidate_tenant}
use distributed_document_sea.Cache.{client_incr, incr, get_json, set_json, get}
use distributed_document_sea.Documents.{find_first, taken, listed}
use distributed_document_sea.Documents.Queries.{row}
use distributed_document_sea.DocumentService.{create}
use distributed_document_sea.Engine.{SearchQuery, EngineResult}
use distributed_document_sea.Tenants.{Tenant, get_by_api_key_hash, get_current_tenant}
use distributed_document_sea.RateLimiter.{
  RateLimitDecision, RateLimiter, token, check, check_local, decision, capacity_of,
  token_bucket_lua,
}
use distributed_document_sea.Api.{rate_limit_headers, admit_or_throttle}
use distributed_document_sea.Api.Protected.{Service, Site, protected, authenticate}
use distributed_document_sea.Api.Replies.{Response, document, request_id}
use distributed_document_sea.Api.Routes.{
  Drawn, Headers, request, delete_documents, get_documents, post_documents,
}
use distributed_document_sea.Api.Refusals.{
  IsDecided, IsUntouched, unauthorized_401, throttled_429, infinite_wait_500,
}
use distributed_document_sea.Api.Ownership.{
  not_found_response, IsLetThrough, IsNotOwned, at_handler, created_at, foreign_delete_404,
}
use distributed_document_sea.Api.ReadYourWrites.{read_your_write, created}
use distributed_document_sea.Tests.{
  codec, document_model, tenant_model, search_model, acme, first_id, second_id, payload, world,
}

abbrev owner : Tenant
owner = record {
  id = acme;
  name = text "Acme";
  api_key_hash = text "key";
  status = text "active";
  rate_limit_per_minute = 120;
}

abbrev hash : Text → Text
hash key = key

abbrev engine_search : SearchQuery → ℕ → Result EngineResult × ℕ
engine_search q n = (err (other (text "timeout")), n)

abbrev service : Service codec ℕ
service = record {
  documents = document_model;
  document_ttl = 60;
  responses = search_model;
  sha256 = hash;
  engine_search = engine_search;
  max_page_size = 50;
  max_result_window = 10000;
  tenants = tenant_model;
  hash_api_key = hash;
  tenant_ttl = 60;
  num = 1;
  den = 4;
}

abbrev limiter : RateLimiter
limiter = record { redis = none; reachable = false; local = [] }

-- A tenant with a document, and an empty cache.
abbrev site : Site codec ℕ
site = record { world = world; tenants = owner ∷ []; limiter = limiter; engine = 0 }

abbrev drawn : Drawn
drawn = record {
  rid = text "r";
  document_id = second_id;
  event_id = text "e";
  occurred_at = text "now";
  redis_now = 20;
  took = 1;
  ttl = 30;
}

abbrev keyless : Headers
keyless = record { x_api_key = none; x_request_id = none }

abbrev keyed : Headers
keyed = record { x_api_key = some (text "key"); x_request_id = none }

abbrev untouched : Tenant → Text → Site codec ℕ → Result Response × Site codec ℕ
untouched tenant id s = (err (other (text "not reached")), record s { engine = 1 })

unauthorized_401_example :
    let out = request codec service drawn (text "read") none (ok first_id) untouched keyless site in
    (out.0.status ≡ 401) × IsUntouched site out.1 × (out.1.limiter ≡ site.limiter)
unauthorized_401_example =
    unauthorized_401 codec service drawn (text "read") (ok first_id) untouched keyless site refl
      (inl refl)

-- The bucket of the tenant's reads is empty.
abbrev drained : RateLimiter
drained = record {
  redis = none;
  reachable = false;
  local = (text "rl:acme:read", record { tokens = 0; ts = 20 }) ∷ [];
}

abbrev busy : Site codec ℕ
busy = record site { limiter = drained }

abbrev refusal : RateLimitDecision
refusal = decision true 120 (false, record { tokens = 0; ts = 20 })

busy-IsDecided : IsDecided codec service drawn (text "read") (some (text "key")) owner refusal busy
unfolding get_current_tenant check capacity_of get_json get lookup get_by_api_key_hash text_eq
    check_local rate_limit_key decision
busy-IsDecided = (refl, refl)

throttled_429_example :
    let out = request codec service drawn (text "read") none (ok first_id) untouched keyed busy in
    (out.0.status ≡ 429)
    × (out.0.headers
        ≡ (text "Retry-After", text "1")
          ∷ (text "X-Request-ID", request_id (text "r") none)
          ∷ rate_limit_headers (some refusal))
    × IsUntouched busy out.1
unfolding decision decimal
throttled_429_example =
    throttled_429 codec service drawn (text "read") (ok first_id) untouched keyed owner refusal busy
      busy-IsDecided refl (omega arith)

-- A tenant with a limit of zero, whose bucket in Redis is empty.
abbrev unlimited : Tenant
unlimited = record owner { rate_limit_per_minute = 0 }

abbrev spent : RateLimiter
spent = record {
  redis = some (
      (text "rl:acme:read", record { bucket = record { tokens = 0; ts = 20 }; expires_at = 100 })
      ∷ []);
  reachable = true;
  local = [];
}

abbrev stopped : Site codec ℕ
stopped = record site { tenants = unlimited ∷ []; limiter = spent }

abbrev endless : RateLimitDecision
endless = decision false 0 (false, record { tokens = 0; ts = 20 })

stopped-IsDecided :
    IsDecided codec service drawn (text "read") (some (text "key")) unlimited endless stopped
unfolding get_current_tenant check capacity_of get_json get lookup get_by_api_key_hash text_eq
    token_bucket_lua rate_limit_key decision
stopped-IsDecided = (refl, refl)

infinite_wait_500_example :
    let out =
      request codec service drawn (text "read") none (ok first_id) untouched keyed stopped in
    (out.0.status ≡ 500) × (out.0.headers ≡ []) × IsUntouched stopped out.1
unfolding decision
infinite_wait_500_example =
    infinite_wait_500 codec service drawn (text "read") (ok first_id) untouched keyed unlimited
      endless stopped stopped-IsDecided refl refl

-- The first write of the tenant takes a token of its full bucket.
abbrev admission : RateLimitDecision
admission = decision true 120 (true, record { tokens = capacity_of 1 4 120 - token; ts = 20 })

site-IsLetThrough : IsLetThrough codec service drawn (text "write") keyed owner admission site
unfolding get_current_tenant check capacity_of get_json get lookup get_by_api_key_hash text_eq
    check_local rate_limit_key decision
site-IsLetThrough = ((refl, refl), refl)

site-IsNotOwned : IsNotOwned acme second_id site.world.db.rows
unfolding row find_first text_eq
site-IsNotOwned = inl refl

foreign_delete_404_example : delete_documents codec service drawn (ok second_id) keyed site ≡ (
  not_found_response codec service drawn keyed admission,
  at_handler codec service drawn (text "write") keyed owner site,
)
unfolding row find_first
foreign_delete_404_example =
    foreign_delete_404 codec service drawn keyed owner admission second_id site site-IsLetThrough
      refl (refl, tt) site-IsNotOwned

known : listed site.world.db.tenant_ids acme ≡ true
unfolding listed text_eq
known = refl

fresh_id : taken second_id site.world.db.rows ≡ false
unfolding taken text_eq
fresh_id = refl

-- The site after the creation, a little later.
abbrev after_post : Site codec ℕ
after_post = created_at codec service drawn 21 payload keyed site

abbrev read_admission : RateLimitDecision
read_admission = decision true 120 (true, record { tokens = capacity_of 1 4 120 - token; ts = 21 })

read-IsLetThrough :
    IsLetThrough codec service drawn (text "read") keyed owner read_admission after_post
unfolding get_current_tenant check capacity_of get_json get lookup get_by_api_key_hash text_eq
    check_local rate_limit_key decision post_documents request protected authenticate
    admit_or_throttle create taken invalidate_tenant client_incr incr set_json insert tenant_key
    search_generation_key document_key listed
read-IsLetThrough = ((refl, refl), refl)

no_entry :
    (get_json codec 21
      (document_key acme second_id)
      (at_handler codec service drawn (text "read") keyed owner after_post).world.cache).0
    ≡ none
unfolding get_current_tenant check capacity_of get_json get lookup get_by_api_key_hash text_eq
    check_local rate_limit_key decision post_documents request protected authenticate
    admit_or_throttle create taken invalidate_tenant client_incr incr set_json insert tenant_key
    search_generation_key document_key listed
no_entry = refl

read_your_write_example :
    let out = get_documents codec service drawn (ok second_id) keyed after_post in
    (out.0.status ≡ 200) × (out.0.body ≡ document (created second_id acme 20 payload))
read_your_write_example =
    read_your_write codec service drawn drawn keyed keyed owner admission read_admission payload 21
      site site-IsLetThrough refl fresh_id known read-IsLetThrough no_entry

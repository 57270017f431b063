-- ===== src/Tests/Requests.antt =====
-- Authentication, search, health and validation, at concrete requests.
use distributed_document_sea.Prelude.{
  ℕ, ◌≡◌, refl, Text, text, lookup, filter, take, Bool, true, false, if◌then◌else◌, ◌&&◌, [], none,
  some, arith,
}
use distributed_document_sea.Errors.{other, Result, ok, err}
use distributed_document_sea.Cache.{get, get_json}
use distributed_document_sea.Cache.Store.{peek}
use distributed_document_sea.Cache.FailOpen.{cached}
use distributed_document_sea.Keys.{search_key, canonical}
use distributed_document_sea.Keys.Isolation.{search_key_isolated}
use distributed_document_sea.Generation.{current_generation}
use distributed_document_sea.Engine.{SearchQuery, EngineResult}
use distributed_document_sea.Search.{response_of, as_hit, jittered_ttl, search}
use distributed_document_sea.Search.Refill.{search_refill}
use distributed_document_sea.Tenants.{Tenant}
use distributed_document_sea.Api.{SearchParams}
use distributed_document_sea.Health.{
  ProbeRun, build_health, health, readiness, healthy, degraded, unhealthy,
}
use distributed_document_sea.Health.Verdict.{answers, ready_iff_critical_answer}
use distributed_document_sea.Schemas.{
  validate_document, validate_tags, validate_metadata, is_valid_entry,
}
use distributed_document_sea.Schemas.Bounds.{IsAcceptable, accepted-IsAcceptable}
use distributed_document_sea.Tests.{codec, search_model, acme, payload, up_cache}

-- A digest of 64 characters.
abbrev digest : Text → Text
digest s = text "0123456789abcdef0123456789abcdef0123456789abcdef0123456789abcdef"

search_key_isolated_example :
    (acme ≡ acme)
    × (let n : ℕ = 0 in n ≡ n)
    × (take 24 (digest (canonical (text "a") 1 10 false true false))
        ≡ take 24 (digest (canonical (text "b") 1 10 false true false)))
unfolding search_key
search_key_isolated_example =
    search_key_isolated digest (λ s. refl) acme acme 0 0 (text "a") (text "b") 1 1 10 10 false false
      true true false false refl

abbrev query : SearchQuery
query = record {
  tenant_id = acme;
  text = text "report";
  page = 1;
  size = 10;
  fuzzy = false;
  highlight = true;
  facets = false;
}

abbrev answer : EngineResult
answer = record { hits = []; total = 0; total_is_lower_bound = false; took_ms = 3; facets = [] }

-- An engine that answers while its counter is even and then fails.
abbrev engine : SearchQuery → Bool → Result EngineResult × Bool
engine q true = (ok answer, false)
engine q false = (err (other (text "timeout")), false)

nothing : (key : Text) → cached codec 5 key up_cache ≡ none
unfolding cached peek lookup
nothing key = refl

generation_stays :
    (current_generation codec 6 acme up_cache).0 ≡ (current_generation codec 5 acme up_cache).0
unfolding current_generation get_json get lookup
generation_stays = refl

search_refill_example :
    (search codec search_model digest engine 6 1 30 acme query
      ((search codec search_model digest engine 5 2 30 acme query (up_cache, true)).1.0, false)).0
    ≡ ok (as_hit 1 (response_of acme query answer))
unfolding jittered_ttl
search_refill_example =
    search_refill codec search_model digest engine 5 6 2 1 30 30 acme query up_cache true false
      false answer (refl, ground arith) refl (nothing _) (omega arith) (omega arith)
      generation_stays refl

abbrev owner : Tenant
owner = record {
  id = acme;
  name = text "Acme";
  api_key_hash = text "h";
  status = text "active";
  rate_limit_per_minute = 120;
}

abbrev params : SearchParams
params = record {
  q = text "report";
  tenant = some acme;
  page = 1000;
  size = 50;
  fuzzy = false;
  highlight = true;
  facets = false;
}

abbrev answered : ProbeRun
answered = record { duration = 10; outcome = ok true }

abbrev refused : ProbeRun
refused = record { duration = 10; outcome = err (other (text "ConnectionError")) }

ready_iff_critical_answer_example :
    ((readiness 1000 (build_health answered answered refused answered)).0
      ≡ (if answers 1000 answered && answers 1000 answered then 200 else 503))
    × ((health 1000 (build_health answered answered refused answered)).0
        ≡ (if answers 1000 answered && answers 1000 answered then 200 else 503))
    × ((health 1000 (build_health answered answered refused answered)).1.status ≡ (
        if answers 1000 answered && answers 1000 answered
        then (if answers 1000 refused && answers 1000 answered then healthy else degraded)
        else unhealthy))
ready_iff_critical_answer_example =
    ready_iff_critical_answer 1000 answered answered refused answered

payload_accepted : validate_document payload ≡ some payload
unfolding validate_document validate_tags validate_metadata filter is_valid_entry
payload_accepted = refl

accepted-IsAcceptable_example : IsAcceptable payload
accepted-IsAcceptable_example = accepted-IsAcceptable payload payload payload_accepted

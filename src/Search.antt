-- ===== src/Search.antt =====
-- doc-search/app/services/search_service.py (the counter of a tenant is in Generation) and the
-- schemas of doc-search/app/schemas/search.py, as one request runs alone: no equal request is in
-- flight when it comes in. Concurrent equal requests are in the child SingleFlight.
pub mod Fill
pub mod Refill
pub mod SingleFlight
use distributed_document_sea.Prelude.{
  ℕ, max, Text, text, Dict, Bool, true, false, if◌then◌else◌, List, [], ◌∷◌, map, Option, none,
  some, ◌≡◌, insert,
}
use distributed_document_sea.Errors.{Exn, other, Result, ok, err, is_unavailable, raise_unavailable}
use distributed_document_sea.Documents.{MetadataValue}
use distributed_document_sea.Cache.{Codec, InMemoryCache, get_json, set_json}
use distributed_document_sea.Keys.{search_key}
use distributed_document_sea.Generation.{current_generation}
use distributed_document_sea.Engine.{SearchQuery, EngineHit, EngineResult}

pub record SearchHit : Type 0 where
  pub id : Text
  pub title : Text
  pub score : ℕ
  pub snippet : Option Text
  pub content_type : Option Text
  pub tags : List Text
  pub metadata : Dict MetadataValue
  pub created_at : Option ℕ
  pub updated_at : Option ℕ

pub record FacetValue : Type 0 where
  pub value : Text
  pub count : ℕ

pub record SearchResponse : Type 0 where
  pub query : Text
  pub tenant_id : Text
  pub page : ℕ
  pub size : ℕ
  pub total : ℕ
  pub total_is_lower_bound : Bool
  pub took_ms : ℕ
  pub cached : Bool
  pub hits : List SearchHit
  pub facets : Dict (List FacetValue)

-- A response as a hit of the cache returns it.
abbrev pub as_hit : ℕ → SearchResponse → SearchResponse
as_hit took r = record r { cached = true; took_ms = took }

-- pydantic on `SearchResponse`, and JSON objects: `model_dump(mode="json")` and `model_validate`, which
-- reads each field from its key, and `dict(value)`, `none` if the value is no object.
pub record SearchModel (c : Codec) : Type 0 where
  pub boolean : Bool → c.Value
  pub object : Dict (c.Value) → c.Value
  pub to_dict : c.Value → Option (Dict (c.Value))
  pub dump : SearchResponse → Dict (c.Value)
  pub validate : Dict (c.Value) → Option SearchResponse
  pub to_dict_object : (d : Dict (c.Value)) → to_dict (object d) ≡ some d
  pub validate_dump : (r : SearchResponse) → validate (dump r) ≡ some r
  pub validate_cached :
      (b : Bool) (d : Dict (c.Value)) (r : SearchResponse)
      → validate d ≡ some r
      → validate (insert (text "cached") (boolean b) d) ≡ some (record r { cached = b })
  pub validate_took :
      (n : ℕ) (d : Dict (c.Value)) (r : SearchResponse)
      → validate d ≡ some r
      → validate (insert (text "took_ms") (c.number n) d) ≡ some (record r { took_ms = n })

unfoldable pub search_hit : EngineHit → SearchHit
search_hit h = record {
  id = h.document_id;
  title = h.title;
  score = h.score;
  snippet = h.snippet;
  content_type = h.content_type;
  tags = h.tags;
  metadata = h.metadata;
  created_at = h.created_at;
  updated_at = h.updated_at;
}

abbrev facet_values : Text × List (Text × ℕ) → Text × List FacetValue
facet_values (name, buckets) = (name, map (λ b. record { value = b.0; count = b.1 }) buckets)

-- The response that `_execute` builds.
unfoldable pub response_of : Text → SearchQuery → EngineResult → SearchResponse
unfolding search_hit
response_of tenant_id q r = record {
  query = q.text;
  tenant_id = tenant_id;
  page = q.page;
  size = q.size;
  total = r.total;
  total_is_lower_bound = r.total_is_lower_bound;
  took_ms = r.took_ms;
  cached = false;
  hits = map search_hit r.hits;
  facets = map facet_values r.facets;
}

-- The error that `_execute` raises for one of the engine.
unfoldable pub engine_error : Exn → Exn
engine_error e = if is_unavailable e then e else raise_unavailable (text "search")

-- The key that `search` computes.
unfoldable pub key_of : (Text → Text) → Text → ℕ → SearchQuery → Text
key_of sha256 tenant_id generation q =
    search_key sha256 tenant_id generation q.text q.page q.size q.fuzzy q.highlight q.facets

-- `_ttl` for the value that `int(base + random.uniform(-jitter, jitter))` draws.
unfoldable pub jittered_ttl : ℕ → ℕ
jittered_ttl drawn = max 1 drawn

module _ (c : Codec) (model : SearchModel c) (sha256 : Text → Text) {S : Type 0}
    (engine_search : SearchQuery → S → Result EngineResult × S) where
  abbrev pub executed : Text → SearchQuery → Result EngineResult × S → Result SearchResponse × S
  executed tenant_id q (ok r, s) = (ok (response_of tenant_id q r), s)
  executed tenant_id q (err e, s) = (err (engine_error e), s)

  -- `_execute`
  unfoldable pub execute : Text → SearchQuery → S → Result SearchResponse × S
  execute tenant_id q s = executed tenant_id q (engine_search q s)

  -- `_cacheable`
  unfoldable pub cacheable : SearchResponse → c.Value
  cacheable r = model.object (insert (text "cached") (model.boolean false) (model.dump r))

  -- The payload of a hit, as it is marked before its validation.
  unfoldable pub marked : ℕ → Dict (c.Value) → Dict (c.Value)
  marked took payload =
      insert (text "took_ms") (c.number took) (insert (text "cached") (model.boolean true) payload)

  -- The response is stored before it is returned; an error is not.
  abbrev pub store_response :
      ℕ
      → ℕ
      → Text
      → InMemoryCache c
      → Result SearchResponse × S
      → Result SearchResponse × (InMemoryCache c × S)
  store_response now ttl key m (ok r, s) =
      (ok r, (set_json c now key (cacheable r) (jittered_ttl ttl) m, s))
  store_response now ttl key m (err e, s) = (err e, (m, s))

  -- `_single_flight`, with nothing in flight.
  unfoldable pub single_flight :
      ℕ
      → ℕ
      → Text
      → Text
      → SearchQuery
      → InMemoryCache c × S
      → Result SearchResponse × (InMemoryCache c × S)
  single_flight now ttl key tenant_id q (m, s) =
      store_response now ttl key m (execute tenant_id q s)

  abbrev pub validated : Option SearchResponse → Result SearchResponse
  validated none = err (other (text "ValidationError"))
  validated (some r) = ok r

  -- A hit of the cache; a value that is no object fails in `dict(cached)`.
  abbrev pub hit : ℕ → Option (Dict (c.Value)) → Result SearchResponse
  hit took none = err (other (text "TypeError"))
  hit took (some payload) = validated (model.validate (marked took payload))

  abbrev pub hit_or_flight :
      ℕ
      → ℕ
      → ℕ
      → Text
      → Text
      → SearchQuery
      → Option (c.Value)
      → InMemoryCache c × S
      → Result SearchResponse × (InMemoryCache c × S)
  hit_or_flight now took ttl key tenant_id q (some v) s = (hit took (model.to_dict v), s)
  hit_or_flight now took ttl key tenant_id q none s = single_flight now ttl key tenant_id q s

  -- `SearchService.search`; `took` is the time since the request came in, in milliseconds.
  unfoldable pub search :
      (now took ttl : ℕ)
      → Text
      → SearchQuery
      → InMemoryCache c × S
      → Result SearchResponse × (InMemoryCache c × S)
  search now took ttl tenant_id q (m, s) =
      let (generation, m1) = current_generation c now tenant_id m in
      let key = key_of sha256 tenant_id generation q in
      let (v, m2) = get_json c now key m1 in hit_or_flight now took ttl key tenant_id q v (m2, s)

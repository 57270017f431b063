-- ===== src/Engine/OpenSearch/Adapter.antt =====
-- doc-search/app/clients/opensearch_engine.py: `search` with its breaker and its retries, `_to_hit` and
-- `ensure_index`.
--
-- The calls of the client are parameters on the state of the cluster. The numbers of a breaker are
-- those of Resilience; `uniform` is the random draw of the retry loop, whose delays are milliseconds.
use distributed_document_sea.Prelude.{
  ℕ, ◌==◌, Text, text, text_eq, Dict, if◌then◌else◌, Bool, true, false, List, [], ◌∷◌, ◌++◌, map,
  Option, none, some,
}
use distributed_document_sea.Errors.{Result, ok, err}
use distributed_document_sea.Documents.{MetadataValue}
use distributed_document_sea.Resilience.{CircuitBreaker, call, with_retry}
use distributed_document_sea.Engine.{SearchQuery, EngineHit, EngineResult}
use distributed_document_sea.Engine.OpenSearch.{SearchBody, build_body}

-- `_source` of a hit: a key that is missing is none, and for the keys after `title` null is none too; an
-- id or a title is never null.
pub record RawSource : Type 0 where
  pub document_id : Option Text
  pub title : Option Text
  pub content_type : Option Text
  pub tags : Option (List Text)
  pub metadata : Option (Dict MetadataValue)
  pub created_at : Option Text
  pub updated_at : Option Text

-- A hit; the fragments of a field that is missing are an empty list.
pub record RawHit : Type 0 where
  pub id : Option Text
  pub score : Option ℕ
  pub source : RawSource
  pub content_fragments : List Text
  pub title_fragments : List Text

-- The response; an aggregation has its buckets.
pub record RawResponse : Type 0 where
  pub total_value : ℕ
  pub total_relation : Option Text
  pub hits : List RawHit
  pub aggregations : Option (Dict (List (Text × ℕ)))
  pub took : Option ℕ

-- What `_client.search` is called with.
pub record SearchRequest : Type 0 where
  pub index : Text
  pub body : SearchBody
  pub routing : Text
  pub preference : Text

-- `d.get(key, default)`, or `d.get(key) or default`
abbrev or_default : {A : Type 0} → A → Option A → A
or_default default none = default
or_default default (some v) = v

unfoldable pub snippet_of : List Text → List Text → Option Text
snippet_of (c ∷ content) title = some c
snippet_of [] (t ∷ title) = some t
snippet_of [] [] = none

-- `value.replace("Z", "+00:00")`
unfoldable pub replace_z : Text → Text
replace_z [] = []
replace_z (ch ∷ s) =
    let rest = replace_z s in if ch == b'Z' then text "+00:00" ++ rest else ch ∷ rest

-- `fromisoformat` is none where it raises `ValueError`.
module _ (fromisoformat : Text → Option ℕ) where
  -- `_dt`
  unfoldable pub dt : Option Text → Option ℕ
  unfolding replace_z
  dt none = none
  dt (some []) = none
  dt (some (ch ∷ value)) = fromisoformat (replace_z (ch ∷ value))

  -- `_to_hit`
  unfoldable pub to_hit : RawHit → EngineHit
  unfolding snippet_of dt
  to_hit raw = record {
    document_id = or_default (or_default [] raw.id) raw.source.document_id;
    score = or_default 0 raw.score;
    title = or_default [] raw.source.title;
    snippet = snippet_of raw.content_fragments raw.title_fragments;
    content_type = raw.source.content_type;
    tags = or_default [] raw.source.tags;
    metadata = or_default [] raw.source.metadata;
    created_at = dt raw.source.created_at;
    updated_at = dt raw.source.updated_at;
  }

  -- The result that `search` builds of a response.
  unfoldable pub to_result : RawResponse → EngineResult
  unfolding to_hit
  to_result r = record {
    hits = map to_hit r.hits;
    total = r.total_value;
    total_is_lower_bound = text_eq (or_default [] r.total_relation) (text "gte");
    took_ms = or_default 0 r.took;
    facets = or_default [] r.aggregations;
  }

-- The settings that the adapter reads.
pub record AdapterSettings : Type 0 where
  pub opensearch_index : Text
  pub search_track_total_hits : ℕ

unfoldable pub request_of : AdapterSettings → SearchQuery → SearchRequest
request_of settings q = record {
  index = settings.opensearch_index;
  body = build_body settings.search_track_total_hits q;
  routing = q.tenant_id;
  preference = q.tenant_id;
}

module _ (settings : AdapterSettings) (fromisoformat : Text → Option ℕ) (uniform : ℕ → ℕ → ℕ)
    {S : Type 0} (client_search : SearchRequest → S → Result RawResponse × S) where
  abbrev pub two_attempts : SearchQuery → S → Result RawResponse × S
  two_attempts q s =
      let (r, s', sleeps) =
        with_retry (λ e. true) uniform 50 500 2 (client_search (request_of settings q)) s in
      (r, s')

  abbrev pub converted : Result RawResponse → Result EngineResult
  converted (err e) = err e
  converted (ok r) = ok (to_result fromisoformat r)

  -- `OpenSearchEngine.search`, between two readings of the clock, on the cluster and the breaker.
  unfoldable pub search :
      (start end : ℕ)
      → SearchQuery
      → S × CircuitBreaker
      → Result EngineResult × (S × CircuitBreaker)
  unfolding request_of
  search start end q (s, b) =
      let (r, s', b') = call start end (two_attempts q) s b in (converted r, (s', b'))

-- The client's calls on indices and aliases.
module _ {S : Type 0} (exists : Text → S → Result Bool × S)
    (create : Text → S → Result (Unit {0}) × S) (exists_alias : Text → S → Result Bool × S)
    (put_alias : Text → Text → S → Result (Unit {0}) × S) where
  abbrev unless_aliased : Text → Text → Result Bool × S → Result (Unit {0}) × S
  unless_aliased physical index (err e, s) = (err e, s)
  unless_aliased physical index (ok true, s) = (ok tt, s)
  unless_aliased physical index (ok false, s) = put_alias physical index s

  abbrev after_create : Text → Text → Result (Unit {0}) × S → Result (Unit {0}) × S
  after_create physical index (err e, s) = (err e, s)
  after_create physical index (ok _, s) = unless_aliased physical index (exists_alias index s)

  abbrev unless_exists : Text → Text → Result Bool × S → Result (Unit {0}) × S
  unless_exists physical index (err e, s) = (err e, s)
  unless_exists physical index (ok true, s) = unless_aliased physical index (exists_alias index s)
  unless_exists physical index (ok false, s) = after_create physical index (create physical s)

  -- `ensure_index`
  unfoldable pub ensure_index : Text → S → Result (Unit {0}) × S
  ensure_index index s =
      let physical = index ++ text "-v1" in unless_exists physical index (exists physical s)

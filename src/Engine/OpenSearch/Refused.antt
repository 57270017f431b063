-- ===== src/Engine/OpenSearch/Refused.antt =====
-- doc-search/app/clients/opensearch_engine.py under doc-search/app/services/search_service.py: a search
-- that meets an open circuit.
use distributed_document_sea.Prelude.{ℕ, ◌-◌, ◌<◌, ◌≡◌, ap, ◌∙◌, Text, Option}
use distributed_document_sea.Errors.{Result, err, app_error, raise_unavailable, is_unavailable}
use distributed_document_sea.Cache.{Codec, InMemoryCache}
use distributed_document_sea.Resilience.{opened, CircuitBreaker}
use distributed_document_sea.Resilience.Calls.{call_refused}
use distributed_document_sea.Engine.{SearchQuery}
use distributed_document_sea.Engine.OpenSearch.Adapter
use distributed_document_sea.Engine.OpenSearch.Adapter.{
  AdapterSettings, SearchRequest, RawResponse, two_attempts, converted,
}
use distributed_document_sea.Search
use distributed_document_sea.Search.{SearchModel, engine_error}
use distributed_document_sea.Search.Fill.{Misses, after_reads, search_failure}

module _ (settings : AdapterSettings) (fromisoformat : Text → Option ℕ) (uniform : ℕ → ℕ → ℕ)
    {S : Type 0} (client_search : SearchRequest → S → Result RawResponse × S) (start end : ℕ) where
  adapter_refuses :
      (q : SearchQuery) (s : S) (b : CircuitBreaker)
      → b.state ≡ opened
      → start - b.opened_at < b.recovery
      → Adapter.search settings fromisoformat uniform client_search start end q (s, b)
        ≡ (err (raise_unavailable b.name), (s, b))
  unfolding Adapter.search
  adapter_refuses q s b o w =
      ap
        (λ (x : Result RawResponse × S × CircuitBreaker).
          (converted settings fromisoformat uniform client_search x.0, (x.1, x.2)))
        (call_refused (two_attempts settings fromisoformat uniform client_search q) start end s b o
          w)

  -- While the circuit of the search cluster is open and its recovery time has not passed, a search
  -- that the cache knows nothing of fails with the error that names the dependency; the cluster is
  -- not asked, the breaker does not change, and the cache has only been read.
  pub open_circuit_unavailable :
      (c : Codec) (model : SearchModel c) (sha256 : Text → Text) (now took ttl : ℕ) (t : Text)
      (q : SearchQuery) (m : InMemoryCache c) (s : S) (b : CircuitBreaker)
      → Misses c model sha256
          (Adapter.search settings fromisoformat uniform client_search start end)
          now
          t
          q
          m
      → b.state ≡ opened
      → start - b.opened_at < b.recovery
      → Search.search c model sha256
          (Adapter.search settings fromisoformat uniform client_search start end)
          now
          took
          ttl
          t
          q
          (m, (s, b))
        ≡ (
          err (raise_unavailable b.name),
          (
            after_reads c model sha256
                (Adapter.search settings fromisoformat uniform client_search start end)
                now
                t
                q
                m,
            (s, b),
          ),
        )
  unfolding engine_error is_unavailable app_error
  open_circuit_unavailable c model sha256 now took ttl t q m s b missed o w =
      let engine = Adapter.search settings fromisoformat uniform client_search start end in
      let refused = adapter_refuses q s b o w in
      search_failure c model sha256 engine now took ttl t q m (s, b) (raise_unavailable b.name)
        missed (ap (λ x. x.0) refused)
      ∙ ap
          (λ x.
            (err (raise_unavailable b.name), (after_reads c model sha256 engine now t q m, x.1)))
          refused

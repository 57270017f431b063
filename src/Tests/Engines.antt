-- ===== src/Tests/Engines.antt =====
-- The two search engines at a concrete document and cluster.
use distributed_document_sea.Tests.Floats.{tenths}
use distributed_document_sea.Prelude.{
  ℕ, ◌+◌, ◌*◌, ◌≡◌, ◌↔◌, refl, Text, text, lookup, length, take, drop, true, false, List, [], ◌∷◌,
  map, All, Option, none, arith,
}
use distributed_document_sea.Errors.{other, Result, ok, err, raise_unavailable}
use distributed_document_sea.Resilience.{opened, CircuitBreaker}
use distributed_document_sea.Cache.FailOpen.{cached}
use distributed_document_sea.Cache.Store.{peek}
use distributed_document_sea.Engine.{SearchQuery, offset, EngineResult}
use distributed_document_sea.Engine.InMemory.{InMemorySearchEngine}
use distributed_document_sea.Engine.InMemory.Tokens.{edit_distance_at_most_one}
use distributed_document_sea.Engine.InMemory.Typos.{OneEdit, edit_distance_at_most_one_lem}
use distributed_document_sea.Engine.InMemory.Search
use distributed_document_sea.Engine.InMemory.Search.{ranking, hit_of, analyse}
use distributed_document_sea.Engine.InMemory.Pages.{first_pages, first_pages-take}
use distributed_document_sea.Engine.InMemory.Isolation.{IsFound, search-IsFound}
use distributed_document_sea.Engine.OpenSearch.Adapter
use distributed_document_sea.Engine.OpenSearch.Adapter.{AdapterSettings, SearchRequest, RawResponse}
use distributed_document_sea.Engine.OpenSearch.Refused.{open_circuit_unavailable}
use distributed_document_sea.Processor.{to_search_source}
use distributed_document_sea.Search as SearchService
use distributed_document_sea.Search.Fill.{after_reads}
use distributed_document_sea.Tests.{codec, search_model, acme, first_id, report, up_cache}

abbrev query : SearchQuery
query = record {
  tenant_id = acme;
  text = text "report";
  page = 1;
  size = 10;
  fuzzy = false;
  highlight = true;
  facets = false;
}

abbrev engine : InMemorySearchEngine
engine = record {
  docs =
      (
        first_id,
        record {
          document_id = first_id;
          tenant_id = acme;
          version = 1;
          source = to_search_source report;
        },
      )
      ∷ [];
  available = true;
}

abbrev as_is : List Text → List Text
as_is words = words

abbrev rounded : ℕ → ℕ
rounded n = n

abbrev found : EngineResult
found = record {
  hits =
      map (hit_of as_is tenths rounded query)
        (take 10 (drop 0 (ranking as_is tenths rounded query engine.docs)));
  total = length (ranking as_is tenths rounded query engine.docs);
  total_is_lower_bound = false;
  took_ms = 3;
  facets = [];
}

finds : Search.search as_is tenths rounded 3 query engine ≡ ok found
unfolding Search.search offset Search.facets_of
finds = refl

search-IsFound_example : All (IsFound as_is tenths rounded query engine.docs) found.hits
search-IsFound_example = search-IsFound as_is tenths rounded 3 query engine found finds

edit_distance_at_most_one_lem_example :
    (edit_distance_at_most_one (text "cat") (text "cart") ≡ true)
    ↔ OneEdit (text "cat") (text "cart")
edit_distance_at_most_one_lem_example =
    edit_distance_at_most_one_lem (text "cat") (text "cart") (omega arith) (omega arith)

first_pages-take_example :
    first_pages as_is tenths rounded 2 query engine
    ≡ map
        (hit_of as_is tenths rounded query)
        (take (2 * 10) (ranking as_is tenths rounded query engine.docs))
first_pages-take_example = first_pages-take as_is tenths rounded 2 query engine refl

abbrev settings : AdapterSettings
settings = record { opensearch_index = text "documents"; search_track_total_hits = 10000 }

abbrev unreadable : Text → Option ℕ
unreadable s = none

abbrev longest : ℕ → ℕ → ℕ
longest i d = d

-- A cluster that counts what it is asked, and fails.
abbrev client : SearchRequest → ℕ → Result RawResponse × ℕ
client request n = (err (other (text "timeout")), n + 1)

abbrev tripped : CircuitBreaker
tripped = record {
  name = text "opensearch";
  failure_threshold = 5;
  recovery = 10;
  failures = 5;
  opened_at = 100;
  state = opened;
  gauge = 2;
}

abbrev adapter : SearchQuery → ℕ × CircuitBreaker → Result EngineResult × (ℕ × CircuitBreaker)
adapter = Adapter.search settings unreadable longest client 105 105

abbrev digest : Text → Text
digest s = text "0123456789abcdef0123456789abcdef0123456789abcdef0123456789abcdef"

nothing : (k : Text) → cached codec 5 k up_cache ≡ none
unfolding cached peek lookup
nothing k = refl

open_circuit_unavailable_example :
    SearchService.search codec search_model digest adapter 5 2 30 acme query
      (up_cache, (7, tripped))
    ≡ (
      err (raise_unavailable (text "opensearch")),
      (after_reads codec search_model digest adapter 5 acme query up_cache, (7, tripped)),
    )
open_circuit_unavailable_example =
    open_circuit_unavailable settings unreadable longest client 105 105 codec search_model digest 5
      2 30 acme query up_cache 7 tripped (nothing _) refl (omega arith)

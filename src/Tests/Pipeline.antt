-- ===== src/Tests/Pipeline.antt =====
-- A document on its way from the request to the search.
use distributed_document_sea.Tests.Floats.{tenths}
use distributed_document_sea.Pipeline.Deletion.{IsBehind, deleted_unsearchable}
use distributed_document_sea.Documents.Queries.{row}
use distributed_document_sea.Prelude.{
  ℕ, ◌≡◌, inl, refl, Text, text, text_eq, lookup, Bool, true, false, List, [], ◌∷◌, none, arith,
  ◌≢◌, some, All,
}
use distributed_document_sea.Documents
use distributed_document_sea.Documents.{find_first, Document, soft_deleted, status_eq, deleted}
use distributed_document_sea.Engine.{SearchQuery}
use distributed_document_sea.Engine.InMemory.{InMemorySearchEngine, in_memory}
use distributed_document_sea.Engine.InMemory.Search
use distributed_document_sea.Engine.InMemory.Pages.{hits_of}
use distributed_document_sea.Processor.{process, Worker}
use distributed_document_sea.Pipeline.{stored_of, drained}
use distributed_document_sea.Tests.{
  codec, acme, second_id, payload, world, report, first_id, report_event,
}

abbrev engine : InMemorySearchEngine
engine = record { docs = []; available = true }

abbrev query : SearchQuery
query = record {
  tenant_id = acme;
  text = text "report";
  page = 1;
  size = 10;
  fuzzy = false;
  highlight = true;
  facets = false;
}

abbrev is_uuid : Text → Bool
is_uuid s = true

abbrev same : Text → Text
same s = s

abbrev as_is : List Text → List Text
as_is words = words

abbrev rounded : ℕ → ℕ
rounded n = n

abbrev indexed : InMemorySearchEngine
indexed =
    drained codec is_uuid same second_id (text "e") (text "now") acme payload world none engine 30

-- The report after its deletion, in the table of a worker whose engine still has it.
abbrev dead_report : Document
dead_report = soft_deleted 25 report

abbrev stale_engine : InMemorySearchEngine
stale_engine = record { docs = (first_id, stored_of report) ∷ []; available = true }

abbrev told_worker : Worker codec in_memory
told_worker = record {
  db = record { rows = dead_report ∷ []; tenant_ids = acme ∷ []; reachable = true };
  cache = none;
  engine_state = stale_engine;
  now = 30;
}

dead_row : row first_id (dead_report ∷ []) ≡ some dead_report
unfolding row find_first text_eq soft_deleted
dead_row = refl

is_dead : status_eq dead_report.status deleted ≡ true
unfolding soft_deleted
is_dead = refl

report-IsBehind : IsBehind dead_report.version (lookup first_id stale_engine.docs)
unfolding soft_deleted lookup text_eq
report-IsBehind = omega arith

deleted_unsearchable_example :
    All
      (λ h. h.document_id ≢ first_id)
      (hits_of (
        Search.search as_is tenths rounded 3 query
          (process codec in_memory is_uuid same (report_event ∷ []) told_worker).1.engine_state))
deleted_unsearchable_example =
    deleted_unsearchable codec is_uuid same as_is tenths rounded report_event [] told_worker
      first_id dead_report refl refl (inl refl) refl refl dead_row is_dead report-IsBehind
      (refl, tt) 3 query

-- ===== src/Pipeline.antt =====
-- The write path from end to end: doc-search/app/services/document_service.py, the queue,
-- doc-search/app/workers/processor.py and the search of doc-search/app/clients/inmemory_engine.py.
pub mod Deletion
use distributed_document_sea.Prelude.{ℕ, Text, Bool, Option}
use distributed_document_sea.Cache.{Codec, InMemoryCache}
use distributed_document_sea.Documents
use distributed_document_sea.Documents.{Document, pending}
use distributed_document_sea.Events.{drain}
use distributed_document_sea.DocumentService
use distributed_document_sea.DocumentService.{DocumentCreate, World, new_document}
use distributed_document_sea.Engine.InMemory.{StoredDoc, InMemorySearchEngine, in_memory}
use distributed_document_sea.Engine.InMemory.Tokens.{tokenize}
use distributed_document_sea.Engine.InMemory.Search
use distributed_document_sea.Engine.InMemory.Search.{Analysed}
use distributed_document_sea.Processor.{Worker, process, to_search_source}

-- What the engine stores of a row.
abbrev pub stored_of : Document → StoredDoc
stored_of d = record {
  document_id = d.id;
  tenant_id = d.tenant_id;
  version = d.version;
  source = to_search_source d;
}

module _ (c : Codec) (is_uuid : Text → Bool) (canonical : Text → Text) where
  module _ (id event_id occurred_at tenant : Text) (payload : DocumentCreate) (w : World c)
      (cache : Option (InMemoryCache c)) (m : InMemorySearchEngine) (later : ℕ) where
    -- The world after the creation, and the worker that starts then.
    abbrev pub created : World c
    created = (DocumentService.create c id event_id occurred_at tenant payload w).1

    abbrev pub woken : Worker c in_memory
    woken = record { db = created.db; cache = cache; engine_state = m; now = later }

    -- The engine after the worker has drained the queue.
    abbrev pub drained : InMemorySearchEngine
    drained = (process c in_memory is_uuid canonical (drain created.queue).0 woken).1.engine_state

    abbrev new_row : Document
    new_row = new_document id tenant w.now payload

    -- What was sent, as the search analyses a document.
    abbrev pub sent : Analysed
    sent = record {
      doc = stored_of new_row;
      title_tokens = tokenize payload.title;
      content_tokens = tokenize payload.content;
    }

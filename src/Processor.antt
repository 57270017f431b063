-- ===== src/Processor.antt =====
-- doc-search/app/workers/processor.py: a batch of events becomes one bulk write of current rows.
--
-- `is_uuid` says whether `uuid.UUID` accepts a text, and `canonical` is the text of what it returns.
pub mod Latest
pub mod Outcomes
pub mod Plans
pub mod Sync
use distributed_document_sea.Prelude.{
  ℕ, Text, text_eq, Dict, lookup, insert, keys, if◌then◌else◌, leb, Bool, true, false, not, ◌&&◌,
  List, [], ◌∷◌, ◌++◌, map, filter, any, Option, none, some,
}
use distributed_document_sea.Errors.{Exn, Result, ok, err}
use distributed_document_sea.Cache.{Codec, InMemoryCache, client_incr}
use distributed_document_sea.Keys.{search_generation_key}
use distributed_document_sea.Documents.{
  Document, Rows, deleted, status_eq, find_first, get_many, mark_indexed, listed,
}
use distributed_document_sea.Events.{DocumentEvent}
use distributed_document_sea.Engine.{Source, Operation, index, delete, BulkResult, SearchEngine}
use distributed_document_sea.DocumentService.{Database, database_error}

pub record ProcessOutcome : Type 0 where
  pub indexed : List Text
  pub deleted : List Text
  pub failed : List Text
  pub skipped : List Text

abbrev pub no_outcome : ProcessOutcome
no_outcome = record { indexed = []; deleted = []; failed = []; skipped = [] }

-- `to_search_source`; the times are written out by the engine.
unfoldable pub to_search_source : Document → Source
to_search_source d = record {
  document_id = d.id;
  tenant_id = d.tenant_id;
  title = d.title;
  content = d.content;
  content_type = d.content_type;
  tags = d.tags;
  metadata = d.doc_metadata;
  version = d.version;
  created_at = d.created_at;
  updated_at = d.updated_at;
}

-- `current is None or event.version >= current.version`
abbrev pub supersedes : DocumentEvent → Option DocumentEvent → Bool
supersedes e none = true
supersedes e (some old) = leb old.version e.version

unfoldable pub note : DocumentEvent → Dict DocumentEvent → Dict DocumentEvent
note e latest =
    if supersedes e (lookup e.document_id latest) then insert e.document_id e latest else latest

-- The newest event of each document, in the order in which the documents are first met.
unfoldable pub collapse : List DocumentEvent → Dict DocumentEvent → Dict DocumentEvent
collapse [] latest = latest
collapse (e ∷ events) latest = collapse events (note e latest)

-- What the loop over `latest` collects.
pub record Plan : Type 0 where
  pub operations : List Operation
  pub index_ids : List Text
  pub delete_ids : List Text
  pub missing : List Text

-- The operation for a document, from its current row.
unfoldable pub operation_for : Text → Document → Operation
unfolding to_search_source
operation_for i d =
    if status_eq d.status deleted
    then delete i d.tenant_id d.version
    else index i d.tenant_id d.version (to_search_source d)

abbrev pub plan_one : Text → Option Document → Plan → Plan
plan_one i none p = record p { missing = i ∷ p.missing }
plan_one i (some d) p =
    if status_eq d.status deleted
    then record p { operations = operation_for i d ∷ p.operations; delete_ids = i ∷ p.delete_ids }
    else record p { operations = operation_for i d ∷ p.operations; index_ids = i ∷ p.index_ids }

-- `rows.get(document_id)`
unfoldable pub row_of : Text → Rows → Option Document
row_of i rows = find_first (λ d. text_eq d.id i) rows

unfoldable pub plan : List Text → Rows → Plan
unfolding row_of
plan [] rows = record { operations = []; index_ids = []; delete_ids = []; missing = [] }
plan (i ∷ ids) rows = plan_one i (row_of i rows) (plan ids rows)

-- The documents that the engine confirmed, and those that it did not.
unfoldable pub outcome_of : List Text → Plan → BulkResult → ProcessOutcome
outcome_of skipped p result = record {
  indexed = filter (listed result.succeeded) p.index_ids;
  deleted = filter (listed result.succeeded) p.delete_ids;
  failed = filter (λ i. not (listed result.succeeded i)) (p.index_ids ++ p.delete_ids);
  skipped = skipped;
}

-- The tenants of the changed documents, each once.
unfoldable pub add_tenant : Option DocumentEvent → List Text → List Text
add_tenant none ts = ts
add_tenant (some e) ts = if listed ts e.tenant_id then ts else e.tenant_id ∷ ts

unfoldable pub tenants_of : Dict DocumentEvent → List Text → List Text
unfolding add_tenant
tenants_of latest [] = []
tenants_of latest (i ∷ ids) = add_tenant (lookup i latest) (tenants_of latest ids)

pub record Worker (c : Codec) (engine : SearchEngine) : Type 0 where
  pub db : Database
  pub cache : Option (InMemoryCache c)
  pub engine_state : engine.State
  pub now : ℕ

-- The ids that `uuid.UUID` accepts, and those that it refuses.
abbrev pub well_formed : (Text → Bool) → Dict DocumentEvent → List Text
well_formed is_uuid latest = filter is_uuid (keys latest)

abbrev pub malformed : (Text → Bool) → Dict DocumentEvent → List Text
malformed is_uuid latest = filter (λ i. not (is_uuid i)) (keys latest)

module _ (c : Codec) (engine : SearchEngine) (is_uuid : Text → Bool) (canonical : Text → Text) where
  unfoldable pub bump_all : ℕ → List Text → InMemoryCache c → InMemoryCache c
  bump_all now [] m = m
  bump_all now (t ∷ ts) m = bump_all now ts (client_incr c now (search_generation_key t) m).1

  -- `_invalidate`
  unfoldable pub invalidate :
      Dict DocumentEvent → ProcessOutcome → Worker c engine → Worker c engine
  unfolding bump_all tenants_of
  invalidate latest o w = elim w.cache [
    | none ↦ w
    | some m ↦ record w {
      cache = some (bump_all w.now (tenants_of latest (o.indexed ++ o.deleted)) m);
    }
  ]

  -- What follows the bulk call.
  abbrev pub settle :
      Dict DocumentEvent
      → List Text
      → Plan
      → Result BulkResult × engine.State
      → Worker c engine
      → Result ProcessOutcome × Worker c engine
  settle latest skipped p (err e, s) w = (
    ok (record { indexed = []; deleted = []; failed = keys latest; skipped = skipped }),
    record w { engine_state = s },
  )
  settle latest skipped p (ok result, s) w =
      let o = outcome_of skipped p result in
      let marked = record w {
        engine_state = s;
        db = record w.db { rows = mark_indexed w.now (map canonical o.indexed) w.db.rows };
      } in
      (ok o, invalidate latest o marked)

  abbrev pub submit :
      Dict DocumentEvent
      → List Text
      → Plan
      → Worker c engine
      → Result ProcessOutcome × Worker c engine
  submit latest skipped p w = elim p.operations [
    | [] ↦ (ok (record no_outcome { skipped = skipped }), w)
    | op ∷ ops ↦ settle latest skipped p (engine.bulk (op ∷ ops) w.engine_state) w
  ]

  -- `IndexingProcessor.process`
  unfoldable pub process :
      List DocumentEvent → Worker c engine → Result ProcessOutcome × Worker c engine
  process [] w = (ok no_outcome, w)
  process (e ∷ events) w =
      let latest = collapse (e ∷ events) [] in
      let ids = well_formed is_uuid latest in
      let p = plan ids (get_many (map canonical ids) w.db.rows) in
      if w.db.reachable
      then submit latest (malformed is_uuid latest ++ p.missing) p w
      else (err database_error, w)

-- ===== src/DocumentService.antt =====
-- doc-search/app/services/document_service.py and the schemas of documents, over the world that the
-- service shares with the workers: the table, the cache, the queue and the clock.
--
-- The database is a list of rows, the ids of the table of tenants, which the foreign key of a document
-- refers to, and a flag: a session that cannot reach it raises before anything
-- is written. One reading of the clock serves one call.
pub mod Writes
pub mod Reads
pub mod Advertised
use distributed_document_sea.Prelude.{
  ℕ, Text, text, Dict, Bool, true, false, if◌then◌else◌, List, [], ◌∷◌, Option, none, some, ◌||◌,
  not,
}
use distributed_document_sea.Errors.{Exn, other, Result, ok, err, raise_not_found}
use distributed_document_sea.Cache.{Codec, Model, InMemoryCache, get_json, set_json, client_delete}
use distributed_document_sea.Keys.{document_key}
use distributed_document_sea.Generation.{invalidate_tenant}
use distributed_document_sea.Documents
use distributed_document_sea.Documents.{
  MetadataValue, DocumentStatus, pending, Document, Rows, soft_deleted, soft_delete, listed,
}
use distributed_document_sea.Events.{
  DocumentEvent, event_index, event_delete, InMemoryPublisher, publish,
}

-- A validated `DocumentCreate`.
pub record DocumentCreate : Type 0 where
  pub title : Text
  pub content : Text
  pub content_type : Text
  pub tags : List Text
  pub metadata : Dict MetadataValue

pub record DocumentResponse : Type 0 where
  pub id : Text
  pub tenant_id : Text
  pub title : Text
  pub content : Text
  pub content_type : Text
  pub tags : List Text
  pub metadata : Dict MetadataValue
  pub version : ℕ
  pub status : DocumentStatus
  pub created_at : ℕ
  pub updated_at : ℕ
  pub indexed_at : Option ℕ

-- `DocumentResponse.from_model`
unfoldable pub from_model : Document → DocumentResponse
from_model d = record {
  id = d.id;
  tenant_id = d.tenant_id;
  title = d.title;
  content = d.content;
  content_type = d.content_type;
  tags = d.tags;
  metadata = d.doc_metadata;
  version = d.version;
  status = d.status;
  created_at = d.created_at;
  updated_at = d.updated_at;
  indexed_at = d.indexed_at;
}

pub record Database : Type 0 where
  pub rows : Rows
  pub tenant_ids : List Text
  pub reachable : Bool

pub record World (c : Codec) : Type 0 where
  pub db : Database
  pub cache : InMemoryCache c
  pub queue : InMemoryPublisher
  pub now : ℕ

abbrev pub database_error : Exn
database_error = other (text "OperationalError")

abbrev pub integrity_error : Exn
integrity_error = other (text "IntegrityError")

-- The row that `create` builds, with the defaults of the columns.
unfoldable pub new_document : Text → Text → ℕ → DocumentCreate → Document
new_document id tenant_id now payload = record {
  id = id;
  tenant_id = tenant_id;
  title = payload.title;
  content = payload.content;
  content_type = payload.content_type;
  tags = payload.tags;
  doc_metadata = payload.metadata;
  version = 1;
  status = pending;
  created_at = now;
  updated_at = now;
  indexed_at = none;
  deleted_at = none;
}

-- The event that a write publishes; `event_id` and `occurred_at` are drawn for it.
unfoldable pub event_for : Text → Text → Text → Document → DocumentEvent
event_for type event_id occurred_at d = record {
  document_id = d.id;
  tenant_id = d.tenant_id;
  version = d.version;
  type = type;
  event_id = event_id;
  occurred_at = occurred_at;
}

module _ (c : Codec) where
  -- `_publish`: an error is swallowed.
  unfoldable pub publish_event : DocumentEvent → World c → World c
  publish_event e w = record w { queue = (publish e w.queue).1 }

  unfoldable pub invalidate : Text → World c → World c
  invalidate tenant_id w = record w { cache = invalidate_tenant c w.now tenant_id w.cache }

  abbrev pub with_rows : Rows → World c → World c
  with_rows rows w = record w { db = record w.db { rows = rows } }

  -- `DocumentService.create`; `id` is the uuid that is drawn for the document. The commit fails if
  -- the id is taken or the tenant has no row.
  unfoldable pub create :
      Text → Text → Text → Text → DocumentCreate → World c → Result Document × World c
  unfolding publish_event invalidate new_document event_for
  create id event_id occurred_at tenant_id payload w =
      let d = new_document id tenant_id w.now payload in
      let committed = with_rows (Documents.create d w.db.rows) w in
      let published = publish_event (event_for event_index event_id occurred_at d) committed in
      if w.db.reachable
      then (if Documents.taken id w.db.rows || not (listed w.db.tenant_ids tenant_id)
          then (err integrity_error, w)
          else (ok d, invalidate tenant_id published))
      else (err database_error, w)

  -- The commit of a soft delete and what follows it.
  abbrev delete_row :
      Text → Text → Text → Text → Option Document → World c → Result (Unit {0}) × World c
  delete_row tenant_id document_id event_id occurred_at none w =
      (err (raise_not_found (text "Document not found.")), w)
  delete_row tenant_id document_id event_id occurred_at (some d) w =
      let committed = with_rows (soft_delete w.now d w.db.rows) w in
      let uncached = record committed {
        cache = client_delete c (document_key tenant_id document_id ∷ []) committed.cache;
      } in
      (
        ok tt,
        publish_event (event_for event_delete event_id occurred_at (soft_deleted w.now d))
            (invalidate tenant_id uncached),
      )

  -- `DocumentService.delete`
  unfoldable pub delete : Text → Text → Text → Text → World c → Result (Unit {0}) × World c
  unfolding publish_event invalidate event_for
  delete event_id occurred_at tenant_id document_id w =
      if w.db.reachable
      then delete_row tenant_id document_id event_id occurred_at
          (Documents.get tenant_id document_id false w.db.rows) w
      else (err database_error, w)

  module _ (model : Model c DocumentResponse) (document_ttl : ℕ) where
    abbrev validated : Option DocumentResponse → Result DocumentResponse
    validated none = err (other (text "ValidationError"))
    validated (some r) = ok r

    abbrev fill : Text → Option Document → World c → Result DocumentResponse × World c
    fill key none w = (err (raise_not_found (text "Document not found.")), w)
    fill key (some d) w = (
      ok (from_model d),
      record w { cache = set_json c w.now key (model.dump (from_model d)) document_ttl w.cache },
    )

    abbrev on_miss : Text → Text → Text → World c → Result DocumentResponse × World c
    on_miss key tenant_id document_id w =
        if w.db.reachable
        then fill key (Documents.get tenant_id document_id false w.db.rows) w
        else (err database_error, w)

    abbrev hit_or_miss :
        Text → Text → Text → Option (c.Value) → World c → Result DocumentResponse × World c
    hit_or_miss key tenant_id document_id (some v) w = (validated (model.validate v), w)
    hit_or_miss key tenant_id document_id none w = on_miss key tenant_id document_id w

    -- `DocumentService.get`
    unfoldable pub get : Text → Text → World c → Result DocumentResponse × World c
    get tenant_id document_id w =
        let key = document_key tenant_id document_id in
        let (v, m) = get_json c w.now key w.cache in
        hit_or_miss key tenant_id document_id v (record w { cache = m })

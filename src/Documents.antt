-- ===== src/Documents.antt =====
-- doc-search/app/models/document.py and doc-search/app/repositories/document_repository.py: the rows
-- of the table `documents` and the queries on them.
--
-- A uuid is its canonical text. A table is the list of its rows in the order of their insertion; a
-- query without an order returns them so. `id` is the primary key, so `scalar_one_or_none` is the
-- first row that is selected. A time is a number of microseconds.
pub mod Queries
pub mod Growth
use distributed_document_sea.Prelude.{
  ℕ, zero, suc, ◌+◌, Text, text_eq, Dict, Bool, true, false, not, ◌&&◌, ◌||◌, if◌then◌else◌, ltb,
  leb, List, [], ◌∷◌, ◌++◌, Option, none, some, filter, any, take, map,
}

pub data DocumentStatus : Type 0 where
  pending indexed failed deleted : DocumentStatus

abbrev pub status_eq : DocumentStatus → DocumentStatus → Bool
status_eq pending pending = true
status_eq indexed indexed = true
status_eq failed failed = true
status_eq deleted deleted = true
status_eq _ _ = false

-- A value of the metadata: a string, a number by its literal, a Boolean, null, or anything that
-- holds other values.
pub data MetadataValue : Type 0 where
  str number : Text → MetadataValue
  boolean : Bool → MetadataValue
  null compound : MetadataValue

pub record Document : Type 0 where
  pub id : Text
  pub tenant_id : Text
  pub title : Text
  pub content : Text
  pub content_type : Text
  pub tags : List Text
  pub doc_metadata : Dict MetadataValue
  pub version : ℕ
  pub status : DocumentStatus
  pub created_at : ℕ
  pub updated_at : ℕ
  pub indexed_at : Option ℕ
  pub deleted_at : Option ℕ

abbrev pub Rows : Type 0
Rows = List Document

-- The primary key refuses an id that is there.
unfoldable pub taken : Text → Rows → Bool
taken i rows = any (λ d. text_eq d.id i) rows

-- `DocumentRepository.create`, where the primary key allows it
unfoldable pub create : Document → Rows → Rows
create d rows = rows ++ d ∷ []

-- the predicate of `DocumentRepository.get`
unfoldable pub selects : Text → Text → Bool → Document → Bool
selects tenant_id document_id include_deleted d =
    text_eq d.id document_id
    && (text_eq d.tenant_id tenant_id && (include_deleted || not (status_eq d.status deleted)))

unfoldable pub find_first : (Document → Bool) → Rows → Option Document
find_first p [] = none
find_first p (d ∷ rows) = if p d then some d else find_first p rows

-- `DocumentRepository.get`
unfoldable pub get : Text → Text → Bool → Rows → Option Document
get tenant_id document_id include_deleted rows =
    find_first (selects tenant_id document_id include_deleted) rows

-- `d.id in ids`
unfoldable pub listed : List Text → Text → Bool
listed ids i = any (λ j. text_eq j i) ids

-- `DocumentRepository.get_many`
unfoldable pub get_many : List Text → Rows → Rows
get_many ids rows = filter (λ d. listed ids d.id) rows

-- The row after `soft_delete`.
unfoldable pub soft_deleted : ℕ → Document → Document
soft_deleted now d = record d {
  status = deleted;
  deleted_at = some now;
  updated_at = now;
  version = d.version + 1;
}

-- The `UPDATE` of one row that a flush sends, by primary key.
unfoldable pub update_row : Document → Rows → Rows
update_row d rows = map (λ r. if text_eq r.id d.id then d else r) rows

-- `DocumentRepository.soft_delete`
unfoldable pub soft_delete : ℕ → Document → Rows → Rows
soft_delete now d rows = update_row (soft_deleted now d) rows

-- `updated_at` is declared with `onupdate`, so these statements set it as well.
unfoldable pub mark_row_indexed : ℕ → List Text → Document → Document
mark_row_indexed now ids d =
    if listed ids d.id && status_eq d.status pending
    then record d { status = indexed; indexed_at = some now; updated_at = now }
    else d

-- `DocumentRepository.mark_indexed`
unfoldable pub mark_indexed : ℕ → List Text → Rows → Rows
mark_indexed now ids rows = map (mark_row_indexed now ids) rows

unfoldable pub mark_row_failed : ℕ → List Text → Document → Document
mark_row_failed now ids d =
    if listed ids d.id && status_eq d.status pending
    then record d { status = failed; updated_at = now }
    else d

-- `DocumentRepository.mark_failed`
unfoldable pub mark_failed : ℕ → List Text → Rows → Rows
mark_failed now ids rows = map (mark_row_failed now ids) rows

-- the predicate of `find_stale`: `updated_at < now - older_than`
unfoldable pub is_stale : ℕ → ℕ → Document → Bool
is_stale now older_than d =
    (status_eq d.status pending || status_eq d.status failed) && ltb (d.updated_at + older_than) now

unfoldable pub insert_by_update : Document → Rows → Rows
insert_by_update d [] = d ∷ []
insert_by_update d (r ∷ rows) =
    if leb d.updated_at r.updated_at then d ∷ r ∷ rows else r ∷ insert_by_update d rows

-- `order_by(Document.updated_at)`
unfoldable pub order_by_update : Rows → Rows
unfolding insert_by_update
order_by_update [] = []
order_by_update (d ∷ rows) = insert_by_update d (order_by_update rows)

-- `DocumentRepository.find_stale`
unfoldable pub find_stale : ℕ → ℕ → ℕ → Rows → Rows
find_stale now older_than limit rows =
    take limit (order_by_update (filter (is_stale now older_than) rows))

-- ===== src/Engine.antt =====
-- doc-search/app/clients/search_engine.py: the port of a search engine and the data that crosses it.
pub mod InMemory
pub mod OpenSearch
use distributed_document_sea.Prelude.{ℕ, ◌+◌, ◌-◌, ◌*◌, Text, Dict, Bool, List, [], Option}
use distributed_document_sea.Errors.{Result}
use distributed_document_sea.Documents.{MetadataValue}

-- What `to_search_source` puts into an index operation.
pub record Source : Type 0 where
  pub document_id : Text
  pub tenant_id : Text
  pub title : Text
  pub content : Text
  pub content_type : Text
  pub tags : List Text
  pub metadata : Dict MetadataValue
  pub version : ℕ
  pub created_at : ℕ
  pub updated_at : ℕ

-- `IndexOperation` and `DeleteOperation`.
pub data Operation : Type 0 where
  index : (document_id tenant_id : Text) → ℕ → Source → Operation
  delete : (document_id tenant_id : Text) → ℕ → Operation

abbrev pub document_id : Operation → Text
document_id (index i _ _ _) = i
document_id (delete i _ _) = i

abbrev pub tenant_of : Operation → Text
tenant_of (index _ t _ _) = t
tenant_of (delete _ t _) = t

abbrev pub version_of : Operation → ℕ
version_of (index _ _ v _) = v
version_of (delete _ _ v) = v

pub record BulkResult : Type 0 where
  pub succeeded : List Text
  pub failed : List Text

pub record SearchQuery : Type 0 where
  pub tenant_id : Text
  pub text : Text
  pub page : ℕ
  pub size : ℕ
  pub fuzzy : Bool
  pub highlight : Bool
  pub facets : Bool

-- `SearchQuery.offset`; a page is at least 1.
unfoldable pub offset : SearchQuery → ℕ
offset q = (q.page - 1) * q.size

-- A score is the bits of its float; a time that is missing or unreadable is none.
pub record EngineHit : Type 0 where
  pub document_id : Text
  pub score : ℕ
  pub title : Text
  pub snippet : Option Text
  pub content_type : Option Text
  pub tags : List Text
  pub metadata : Dict MetadataValue
  pub created_at : Option ℕ
  pub updated_at : Option ℕ

pub record EngineResult : Type 0 where
  pub hits : List EngineHit
  pub total : ℕ
  pub total_is_lower_bound : Bool
  pub took_ms : ℕ
  pub facets : Dict (List (Text × ℕ))

-- The part of the protocol that the workers use: a `bulk` that may raise, on the adapter's state.
pub record SearchEngine : Type 1 where
  pub State : Type 0
  pub bulk : List Operation → State → Result BulkResult × State

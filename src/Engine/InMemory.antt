-- ===== src/Engine/InMemory.antt =====
-- doc-search/app/clients/inmemory_engine.py: the writes of the in-memory adapter.
pub mod Tokens
pub mod Typos
pub mod Closest
pub mod Snippets
pub mod Scores
pub mod Search
pub mod Ranking
pub mod Pages
pub mod Isolation
pub mod Frequencies
pub mod Completeness
use distributed_document_sea.Prelude.{
  ℕ, ◌≤◌, ◌<◌, ◌≡◌, ◌⊎◌, Text, text, text_eq, text_eq_iff, Dict, lookup, insert, erase,
  lookup-insert, lookup-erase, if◌then◌else◌, leb, Bool, true, false, List, [], ◌∷◌, map, Option,
  none, some, arith,
}
use distributed_document_sea.Errors.{other, Result, ok, err}
use distributed_document_sea.Engine.{
  Source, Operation, index, delete, document_id, version_of, BulkResult, SearchEngine,
}

-- `_StoredDoc`
pub record StoredDoc : Type 0 where
  pub document_id : Text
  pub tenant_id : Text
  pub version : ℕ
  pub source : Source

pub record InMemorySearchEngine : Type 0 where
  pub docs : Dict StoredDoc
  pub available : Bool

abbrev pub empty_engine : InMemorySearchEngine
empty_engine = record { docs = []; available = true }

-- External versioning: what is not newer than the stored document is a no-op.
unfoldable pub is_superseded : Operation → Option StoredDoc → Bool
is_superseded op none = false
is_superseded op (some d) = leb (version_of op) d.version

abbrev write : Operation → Dict StoredDoc → Dict StoredDoc
write (index i t v s) docs =
    insert i (record { document_id = i; tenant_id = t; version = v; source = s }) docs
write (delete i t v) docs = erase i docs

-- One round of the loop of `bulk`.
unfoldable pub apply : Operation → Dict StoredDoc → Dict StoredDoc
unfolding is_superseded
apply op docs = if is_superseded op (lookup (document_id op) docs) then docs else write op docs

unfoldable pub apply_all : List Operation → Dict StoredDoc → Dict StoredDoc
apply_all [] docs = docs
apply_all (op ∷ ops) docs = apply_all ops (apply op docs)

-- `InMemorySearchEngine.bulk`: every operation succeeds, a superseded one too.
unfoldable pub bulk :
    List Operation → InMemorySearchEngine → Result BulkResult × InMemorySearchEngine
bulk ops m =
    if m.available
    then (
      ok (record { succeeded = map document_id ops; failed = [] }),
      record m { docs = apply_all ops m.docs },
    )
    else (err (other (text "search engine unavailable")), m)

abbrev pub in_memory : SearchEngine
in_memory = record { State = InMemorySearchEngine; bulk = bulk }

-- What an operation makes of the stored document with its id.
abbrev pub after_write : Operation → Option StoredDoc → Option StoredDoc
after_write (index i t v s) o =
    if is_superseded (index i t v s) o
    then o
    else some (record { document_id = i; tenant_id = t; version = v; source = s })
after_write (delete i t v) o = if is_superseded (delete i t v) o then o else none

-- One operation, seen through any id.
pub lookup-apply :
    (op : Operation) (j : Text) (docs : Dict StoredDoc)
    → lookup j (apply op docs)
      ≡ (if text_eq (document_id op) j then after_write op (lookup j docs) else lookup j docs)
unfolding apply
lookup-apply (index i t v s) j docs = ground (
  arith,
  lookup-insert i j (record { document_id = i; tenant_id = t; version = v; source = s }) docs,
  text_eq_iff i j,
)
lookup-apply (delete i t v) j docs = ground (arith, lookup-erase i j docs, text_eq_iff i j)

-- An operation never leaves a stored document at an older version than it had.
pub apply_monotone :
    (op : Operation) (j : Text) (docs : Dict StoredDoc) (d d' : StoredDoc)
    → lookup j docs ≡ some d
    → lookup j (apply op docs) ≡ some d'
    → d.version ≤ d'.version
apply_monotone (index i t v s) j docs d d' h h' =
    unfold is_superseded in ground (arith, lookup-apply (index i t v s) j docs)
apply_monotone (delete i t v) j docs d d' h h' =
    unfold is_superseded in ground (arith, lookup-apply (delete i t v) j docs)

-- Applying an operation again changes no entry.
pub apply_again :
    (op : Operation) (j : Text) (docs : Dict StoredDoc)
    → lookup j (apply op (apply op docs)) ≡ lookup j (apply op docs)
apply_again (index i t v s) j docs =
    unfold is_superseded in
    ground (
      arith,
      lookup-apply (index i t v s) j (apply (index i t v s) docs),
      lookup-apply (index i t v s) j docs,
    )
apply_again (delete i t v) j docs =
    unfold is_superseded in
    ground (
      arith,
      lookup-apply (delete i t v) j (apply (delete i t v) docs),
      lookup-apply (delete i t v) j docs,
    )

-- Two index operations of one document with different versions leave the same entry in either
-- order.
pub index_order_irrelevant :
    (i t u : Text) (v w : ℕ) (s s' : Source) (j : Text) (docs : Dict StoredDoc)
    → (v < w) ⊎ (w < v)
    → lookup j (apply (index i t v s) (apply (index i u w s') docs))
      ≡ lookup j (apply (index i u w s') (apply (index i t v s) docs))
index_order_irrelevant i t u v w s s' j docs h =
    unfold is_superseded in
    ground (
      arith,
      lookup-apply (index i t v s) j (apply (index i u w s') docs),
      lookup-apply (index i u w s') j docs,
      lookup-apply (index i u w s') j (apply (index i t v s) docs),
      lookup-apply (index i t v s) j docs,
    )

-- After a newer delete of a stored document, an index operation of any version is stored: the in-
-- memory engine forgets the version with the document.
pub delete_forgets_version :
    (i t u : Text) (v old : ℕ) (s : Source) (docs : Dict StoredDoc) (d : StoredDoc)
    → lookup i docs ≡ some d
    → d.version < v
    → lookup i (apply (index i u old s) (apply (delete i t v) docs))
      ≡ some (record { document_id = i; tenant_id = u; version = old; source = s })
delete_forgets_version i t u v old s docs d h lt =
    unfold is_superseded in
    ground (
      arith,
      lookup-apply (index i u old s) i (apply (delete i t v) docs),
      lookup-apply (delete i t v) i docs,
      text_eq_iff i i,
    )

-- ===== src/Engine/OpenSearch.antt =====
-- doc-search/app/clients/opensearch_engine.py: the requests that the adapter builds and what it makes
-- of the answers. The cluster itself is a parameter.
pub mod Adapter
pub mod Refused
use distributed_document_sea.Prelude.{
  ℕ, ◌≡◌, refl, Text, text, if◌then◌else◌, ltb, ◌==◌, Bool, true, false, ◌&&◌, ◌||◌, List, [], ◌∷◌,
  map, filter, Option, none, some, arith,
}
use distributed_document_sea.Errors.{Result, ok, err}
use distributed_document_sea.Engine.{
  Source, Operation, index, delete, BulkResult, SearchQuery, offset,
}

-- The action of a bulk request for one operation: the document, its routing, its external version,
-- and the source of an index action.
pub record Action : Type 0 where
  pub id : Text
  pub routing : Text
  pub version : ℕ
  pub source : Option Source

-- `bulk`: the body for the operations.
unfoldable pub action_of : Operation → Action
action_of (index i t v s) = record { id = i; routing = t; version = v; source = some s }
action_of (delete i t v) = record { id = i; routing = t; version = v; source = none }

-- An item of the response: whether its action is `delete`, the id and the status, with the defaults
-- that the code gives to what is missing.
pub record Item : Type 0 where
  pub is_delete : Bool
  pub doc_id : Text
  pub status : ℕ

-- Whether `bulk` takes an item for a success.
unfoldable pub is_success : Item → Bool
is_success i = ltb i.status 300 || i.status == 409 || (i.is_delete && i.status == 404)

unfoldable pub classify : List Item → BulkResult
unfolding is_success
classify [] = record { succeeded = []; failed = [] }
classify (i ∷ items) =
    let rest = classify items in
    if is_success i
    then record rest { succeeded = i.doc_id ∷ rest.succeeded }
    else record rest { failed = i.doc_id ∷ rest.failed }

-- `bulk`: no operations, no request. `client_bulk` is the client's bulk call with its retries.
module _ {S : Type 0} (client_bulk : List Action → S → Result (List Item) × S) where
  abbrev classified : Result (List Item) × S → Result BulkResult × S
  classified (ok items, s) = (ok (classify items), s)
  classified (err e, s) = (err e, s)

  unfoldable pub bulk : List Operation → S → Result BulkResult × S
  unfolding action_of
  bulk [] s = (ok (record { succeeded = []; failed = [] }), s)
  bulk (op ∷ ops) s = classified (client_bulk (map action_of (op ∷ ops)) s)

-- `_build_body`, by the parts of it that depend on the query.
pub record SearchBody : Type 0 where
  pub from : ℕ
  pub size : ℕ
  pub track_total_hits : ℕ
  pub query : Text
  pub operator : Text
  pub fuzziness : Option Text
  pub minimum_should_match : Option Text
  pub filter_tenant_id : Text
  pub highlight : Bool
  pub aggs : List Text

unfoldable pub build_body : (track_total_hits : ℕ) → SearchQuery → SearchBody
unfolding offset
build_body track_total_hits q = record {
  from = offset q;
  size = q.size;
  track_total_hits = track_total_hits;
  query = q.text;
  operator = if q.fuzzy then text "or" else text "and";
  fuzziness = if q.fuzzy then some (text "AUTO") else none;
  minimum_should_match = if q.fuzzy then some (text "2<70%") else none;
  filter_tenant_id = q.tenant_id;
  highlight = q.highlight;
  aggs = if q.facets then text "content_type" ∷ text "tags" ∷ [] else [];
}

-- Every document is answered for by exactly one of the two lists, in the order of the items: a
-- stale write and the deletion of an absent document count as done, and only those errors do.
pub classify_partitions :
    (items : List Item)
    → ((classify items).succeeded ≡ map (λ i. i.doc_id) (filter is_success items))
      × ((classify items).failed
          ≡ map (λ i. i.doc_id) (filter (λ i. if is_success i then false else true) items))
unfolding classify is_success filter
classify_partitions [] = (refl, refl)
classify_partitions (i ∷ items) = ground (arith, classify_partitions items)

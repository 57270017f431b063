-- ===== src/Pipeline/Deletion.antt =====
-- The write path of a deletion: doc-search/app/workers/processor.py and the search of
-- doc-search/app/clients/inmemory_engine.py.
use distributed_document_sea.Engine.InMemory.Scores.{Floats}
use mathlib.Core.Path.{subst}
use distributed_document_sea.Prelude.{
  ℕ, ◌<◌, ◌≡◌, ◌≢◌, inl, inr, refl, sym, ap, ◌∙◌, Text, text_eq, text_eq_iff, Dict, lookup, insert,
  erase, Bool, true, List, [], ◌∷◌, Option, none, some, Bool-cases, arith, All, All-imp, Any,
}
use distributed_document_sea.Errors.{Result, ok, err}
use distributed_document_sea.Cache.{Codec}
use distributed_document_sea.Documents.{Document, deleted, status_eq}
use distributed_document_sea.Documents.Queries.{row}
use distributed_document_sea.Events.{DocumentEvent}
use distributed_document_sea.Engine.{SearchQuery, EngineHit, EngineResult, Operation, index, delete}
use distributed_document_sea.Engine.InMemory.{
  StoredDoc, in_memory, after_write, is_superseded, apply, apply_all,
}
use distributed_document_sea.Engine.InMemory.Search
use distributed_document_sea.Engine.InMemory.Pages.{hits_of}
use distributed_document_sea.Engine.InMemory.Isolation.{IsFound, search-IsFound}
use distributed_document_sea.Processor.{Worker, process, operation_for}
use distributed_document_sea.Processor.Sync.{process_syncs}

-- Every document is stored under its own id.
abbrev pub IsFiled : Dict StoredDoc → Type 0
IsFiled docs = All (λ e. e.0 ≡ e.1.document_id) docs

insert-IsFiled :
    (i : Text) (d : StoredDoc) (docs : Dict StoredDoc)
    → i ≡ d.document_id
    → IsFiled docs
    → IsFiled (insert i d docs)
unfolding insert
insert-IsFiled i d [] h k = (h, tt)
insert-IsFiled i d ((j, e) ∷ docs) h k = elim (Bool-cases (text_eq j i)) [
  | inl same ↦ rw same (h, k.1)
  | inr other ↦ rw other (k.0, insert-IsFiled i d docs h k.1)
]

erase-IsFiled : (i : Text) (docs : Dict StoredDoc) → IsFiled docs → IsFiled (erase i docs)
unfolding erase
erase-IsFiled i [] k = tt
erase-IsFiled i ((j, e) ∷ docs) k = elim (Bool-cases (text_eq j i)) [
  | inl same ↦ rw same (erase-IsFiled i docs k.1)
  | inr other ↦ rw other (k.0, erase-IsFiled i docs k.1)
]

apply-IsFiled : (op : Operation) (docs : Dict StoredDoc) → IsFiled docs → IsFiled (apply op docs)
unfolding apply
apply-IsFiled (index i t v s) docs k =
    elim (Bool-cases (is_superseded (index i t v s) (lookup i docs))) [
      | inl old ↦ rw old k
      | inr new ↦ rw new (
          insert-IsFiled i (record { document_id = i; tenant_id = t; version = v; source = s }) docs
            refl k)
    ]
apply-IsFiled (delete i t v) docs k =
    elim (Bool-cases (is_superseded (delete i t v) (lookup i docs))) [
      | inl old ↦ rw old k
      | inr new ↦ rw new (erase-IsFiled i docs k)
    ]

apply_all-IsFiled :
    (ops : List Operation) (docs : Dict StoredDoc) → IsFiled docs → IsFiled (apply_all ops docs)
unfolding apply_all
apply_all-IsFiled [] docs k = k
apply_all-IsFiled (op ∷ ops) docs k =
    apply_all-IsFiled ops (apply op docs) (apply-IsFiled op docs k)

-- A document that is found has an id under which something is stored.
stored-ne :
    (i : Text) (docs : Dict StoredDoc) (d : StoredDoc)
    → IsFiled docs
    → lookup i docs ≡ none
    → Any (λ e. e.1 ≡ d) docs
    → d.document_id ≢ i
unfolding lookup
stored-ne i [] d k h there = elim there [ ]
stored-ne i ((j, e) ∷ docs) d k h (inl same) =
    λ q. ground (arith, text_eq_iff j i, k.0, ap (λ x. x.document_id) same)
stored-ne i ((j, e) ∷ docs) d k h (inr later) = stored-ne i docs d k.1 (ground (arith)) later

-- The engine has no version of the document that is as new as the given one.
abbrev pub IsBehind : ℕ → Option StoredDoc → Type 0
IsBehind version none = Unit
IsBehind version (some d) = d.version < version

delete-gone :
    (i : Text) (d : Document) (o : Option StoredDoc)
    → status_eq d.status deleted ≡ true
    → IsBehind d.version o
    → after_write (operation_for i d) o ≡ none
unfolding operation_for is_superseded
delete-gone i d none dead h = rw dead refl
delete-gone i d (some x) dead h = rw dead (ground arith)

found_hits :
    (P : EngineHit → Type 0) (x : Result EngineResult)
    → ((r : EngineResult) → x ≡ ok r → All P r.hits)
    → All P (hits_of x)
found_hits P (ok r) h = h r refl
found_hits P (err e) h = tt

module _ (c : Codec) (is_uuid : Text → Bool) (canonical : Text → Text)
    (iterate : List Text → List Text) (floats : Floats) (rounded : ℕ → ℕ) where
  -- A document whose row is deleted is in no result once the worker, with the database and the
  -- engine up, has processed any batch that names its canonical id: no search of any tenant, fuzzy
  -- or not and on any page, has a hit with the id, if the engine had every document under its own
  -- id and no version of this one as new as the row.
  pub deleted_unsearchable :
      (e : DocumentEvent) (es : List DocumentEvent) (w : Worker c in_memory) (i : Text)
      (d : Document)
      → w.db.reachable ≡ true
      → w.engine_state.available ≡ true
      → Any (λ f. f.document_id ≡ i) (e ∷ es)
      → is_uuid i ≡ true
      → canonical i ≡ i
      → row i w.db.rows ≡ some d
      → status_eq d.status deleted ≡ true
      → IsBehind d.version (lookup i w.engine_state.docs)
      → IsFiled w.engine_state.docs
      → (took : ℕ) (q : SearchQuery)
      → All
          (λ h. h.document_id ≢ i)
          (hits_of (
            Search.search iterate floats rounded took q
              (process c in_memory is_uuid canonical (e ∷ es) w).1.engine_state))
  deleted_unsearchable e es w i d reachable up told good own found dead behind filed took q =
      let m = (process c in_memory is_uuid canonical (e ∷ es) w).1.engine_state in
      let synced = process_syncs c is_uuid canonical e es w reachable up i d told good own found in
      let gone : lookup i m.docs ≡ none =
        synced.stored ∙ delete-gone i d (lookup i w.engine_state.docs) dead behind in
      let filed' : IsFiled m.docs =
        subst IsFiled (sym synced.applied.1)
          (apply_all-IsFiled synced.applied.0 w.engine_state.docs filed) in
      found_hits (λ h. h.document_id ≢ i) (Search.search iterate floats rounded took q m)
        (λ r answered.
          All-imp (IsFound iterate floats rounded q m.docs) (λ h. h.document_id ≢ i)
            (λ h f same. stored-ne i m.docs f.0 filed' gone f.1.0 (sym f.2 ∙ same)) r.hits
            (search-IsFound iterate floats rounded took q m r answered))

-- ===== src/Processor/Sync.antt =====
-- doc-search/app/workers/processor.py over the in-memory engine: the index and the rows after a
-- batch.
use distributed_document_sea.DocumentService.{Database}
use distributed_document_sea.Prelude.{
  ℕ, ◌≡◌, inl, inr, ap, ◌∙◌, Text, Dict, lookup, keys, if◌then◌else◌, Bool, true, List, [], ◌∷◌,
  ◌++◌, map, some, arith, All, Any,
}
use distributed_document_sea.Errors.{ok}
use distributed_document_sea.Cache.{Codec}
use distributed_document_sea.Documents.{
  Document, Rows, pending, indexed, status_eq, get_many, listed, mark_row_indexed, mark_indexed,
}
use distributed_document_sea.Documents.Queries.{row, row-mark_indexed, row-id}
use distributed_document_sea.Events.{DocumentEvent}
use distributed_document_sea.Engine.{Operation, document_id}
use distributed_document_sea.Engine.InMemory.{
  InMemorySearchEngine, apply_all, bulk, in_memory, after_write,
}
use distributed_document_sea.Processor.{
  ProcessOutcome, collapse, Plan, plan, operation_for, row_of, outcome_of, Worker, settle,
  well_formed, malformed, process, invalidate,
}
use distributed_document_sea.Processor.Latest.{Covers, collapse-Covers', collapse-Distinct}
use distributed_document_sea.Processor.Outcomes.{
  listed-filter, listed_of_lookup, process_reached, submit_busy, List-cases,
}
use distributed_document_sea.Processor.Plans.{
  row_of-get_many, listed-map, plan_writes, plan_busy, plan_indexes, Distinct-filter,
  listed_of_busy,
}

pub bulk_up :
    (ops : List Operation) (m : InMemorySearchEngine)
    → m.available ≡ true
    → bulk ops m ≡ (
      ok (record { succeeded = map document_id ops; failed = [] }),
      record m { docs = apply_all ops m.docs },
    )
unfolding bulk
bulk_up ops m up = simp up

-- An event of the batch has its document among the keys.
batch-keys :
    (es : List DocumentEvent) (latest : Dict DocumentEvent) (i : Text)
    → All (Covers latest) es
    → Any (λ f. f.document_id ≡ i) es
    → listed (keys latest) i ≡ true
batch-keys [] latest i h there = absurd there
batch-keys (f ∷ es) latest i h (inl same) =
    listed_of_lookup latest i h.0.newest (rw same at h.0.kept)
batch-keys (f ∷ es) latest i h (inr later) = batch-keys es latest i h.1 later

mark_current :
    (now : ℕ) (ids : List Text) (i : Text) (d : Document) (rows : Rows)
    → row i rows ≡ some d
    → (status_eq d.status pending ≡ true → listed ids i ≡ true)
    → row i (mark_indexed now ids rows)
      ≡ some (
          if status_eq d.status pending
          then record d { status = indexed; indexed_at = some now; updated_at = now }
          else d)
unfolding mark_row_indexed
mark_current now ids i d rows found in_ids =
    ground (arith, row-mark_indexed now ids i rows, row-id i rows found, in_ids)

module _ (c : Codec) (is_uuid : Text → Bool) (canonical : Text → Text) where
  abbrev after : DocumentEvent → List DocumentEvent → Worker c in_memory → Worker c in_memory
  after e es w = (process c in_memory is_uuid canonical (e ∷ es) w).1

  -- The document with id `i`, whose row is `d`, once the batch is processed.
  pub record Synced (i : Text) (d : Document) (w w' : Worker c in_memory) : Type 0 where
    pub stored :
        lookup i w'.engine_state.docs
        ≡ after_write (operation_for i d) (lookup i w.engine_state.docs)
    pub marked :
        row i w'.db.rows
        ≡ some (
            if status_eq d.status pending
            then record d { status = indexed; indexed_at = some w.now; updated_at = w.now }
            else d)
    pub serving : w'.engine_state.available ≡ true
    pub applied :
        (ops : List Operation) × (w'.engine_state.docs ≡ apply_all ops w.engine_state.docs)

  invalidate_same :
      (latest : Dict DocumentEvent) (o : ProcessOutcome) (w : Worker c in_memory)
      → ((invalidate c in_memory is_uuid canonical latest o w).db ≡ w.db)
        × ((invalidate c in_memory is_uuid canonical latest o w).engine_state ≡ w.engine_state)
  unfolding invalidate
  invalidate_same latest o w = ground arith

  -- The outcome of the bulk call, when the engine is up.
  settled :
      (latest : Dict DocumentEvent) (skipped : List Text) (p : Plan) (w : Worker c in_memory)
      → w.engine_state.available ≡ true
      → let o =
          outcome_of skipped p (record { succeeded = map document_id p.operations; failed = [] }) in
        let w' =
          (settle c in_memory is_uuid canonical latest skipped p
            (bulk p.operations w.engine_state)
            w).1 in
        (w'.engine_state.docs ≡ apply_all p.operations w.engine_state.docs)
        × (w'.db.rows ≡ mark_indexed w.now (map canonical o.indexed) w.db.rows)
        × (w'.engine_state.available ≡ true)
  settled latest skipped p w up =
      let o =
        outcome_of skipped p (record { succeeded = map document_id p.operations; failed = [] }) in
      let marked : Worker c in_memory = record w {
        engine_state = record w.engine_state { docs = apply_all p.operations w.engine_state.docs };
        db = record w.db { rows = mark_indexed w.now (map canonical o.indexed) w.db.rows };
      } in
      rw (bulk_up p.operations w.engine_state up) (
        ap (λ (s : InMemorySearchEngine). s.docs) (invalidate_same latest o marked).1,
        ap (λ (d : Database). d.rows) (invalidate_same latest o marked).0,
        ap (λ (s : InMemorySearchEngine). s.available) (invalidate_same latest o marked).1 ∙ up,
      )

  module _ (e : DocumentEvent) (es : List DocumentEvent) (w : Worker c in_memory)
      (reachable : w.db.reachable ≡ true) (up : w.engine_state.available ≡ true) where
    -- With the database and the engine up, processing any batch that names a document with a row
    -- and a canonical uuid leaves the in-memory engine up, with the result of the one operation for
    -- the document's current row, whatever the events said, and the row indexed if it was pending
    -- and unchanged if not.
    pub process_syncs :
        (i : Text) (d : Document)
        → Any (λ f. f.document_id ≡ i) (e ∷ es)
        → is_uuid i ≡ true
        → canonical i ≡ i
        → row i w.db.rows ≡ some d
        → Synced i d w (after e es w)
    process_syncs i d there good own found =
        let latest = collapse (e ∷ es) [] in
        let ids = well_formed is_uuid latest in
        let rows = get_many (map canonical ids) w.db.rows in
        let p = plan ids rows in
        let in_keys : listed (keys latest) i ≡ true =
          batch-keys (e ∷ es) latest i (collapse-Covers' (e ∷ es) []) there in
        let in_ids : listed ids i ≡ true = ground (arith, listed-filter is_uuid (keys latest) i) in
        let current : row_of i rows ≡ some d =
          row_of-get_many (map canonical ids) i w.db.rows (listed-map canonical ids i own in_ids)
          ∙ found in
        let busy = plan_busy ids rows i d in_ids current in
        elim (List-cases p.operations) [
          | inl idle ↦ absurd (listed_of_busy p.operations i busy idle)
          | inr (op, ops, some_ops) ↦
              let (docs, marked, serving) =
                settled latest (malformed is_uuid latest ++ p.missing) p w up in
              let o =
                outcome_of (malformed is_uuid latest ++ p.missing) p
                  (record { succeeded = map document_id p.operations; failed = [] }) in
              let done =
                ap (λ r. r.1)
                  (process_reached c in_memory is_uuid canonical e es w reachable
                    ∙ submit_busy c in_memory is_uuid canonical latest
                        (malformed is_uuid latest ++ p.missing) p w op ops some_ops) in
              record {
                stored = rw done (
                    rw docs (
                      plan_writes ids rows i d w.engine_state.docs
                        (Distinct-filter is_uuid (keys latest) (collapse-Distinct (e ∷ es) [] tt))
                        in_ids current));
                marked = rw done (
                    rw marked (
                      mark_current w.now (map canonical o.indexed) i d w.db.rows found (λ live.
                        listed-map canonical o.indexed i own (
                          unfold outcome_of in
                          ground (
                            arith,
                            listed-filter (listed (map document_id p.operations)) p.index_ids i,
                            plan_indexes ids rows i d in_ids current,
                            busy,
                            live,
                          )))));
                serving = rw done serving;
                applied = (p.operations, rw done docs);
              }
        ]

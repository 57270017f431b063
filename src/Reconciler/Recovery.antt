-- ===== src/Reconciler/Recovery.antt =====
-- doc-search/app/workers/reconciler.py with processor.py: a sweep and the batch that is drained
-- after it.
use distributed_document_sea.Prelude.{
  ℕ, zero, suc, ◌+◌, ◌≤◌, ◌≡◌, inl, inr, refl, Text, text_eq, text_eq_iff, leb, Bool, true, List,
  [], ◌∷◌, ◌++◌, filter, take, length, some, arith, Any, Bool-cases,
}
use distributed_document_sea.Cache.{Codec}
use distributed_document_sea.Documents.{
  Document, Rows, is_stale, insert_by_update, order_by_update, find_stale, find_first,
}
use distributed_document_sea.Documents.Queries.{row}
use distributed_document_sea.Events.{DocumentEvent, InMemoryPublisher, drain}
use distributed_document_sea.DocumentService.{Database, event_for}
use distributed_document_sea.Engine.InMemory.{in_memory}
use distributed_document_sea.Processor.{Worker, process}
use distributed_document_sea.Processor.Sync.{Synced, process_syncs}
use distributed_document_sea.Reconciler.{SweepSettings, stale_event, sweep_once}
use distributed_document_sea.Reconciler.Sweep.{stale_events, publish_all-events}

module _ (i : Text) where
  abbrev IsIt : Document → Type 0
  IsIt d = d.id ≡ i

  Any-filter :
      (p : Document → Bool) (rows : Rows) (d : Document)
      → row i rows ≡ some d
      → p d ≡ true
      → Any IsIt (filter p rows)
  unfolding filter row find_first
  Any-filter p [] d h t = cc
  Any-filter p (r ∷ rows) d h t = elim (Bool-cases (text_eq r.id i)) [
    | inl same ↦ let e : p r ≡ true = ground arith in rw e (inl ((text_eq_iff r.id i).0 same))
    | inr other ↦
        let later = Any-filter p rows d (ground arith) t in
        elim (Bool-cases (p r)) [ inl keep ↦ rw keep (inr later) | inr drop ↦ rw drop later ]
  ]

  insert_here : (d : Document) (rows : Rows) → IsIt d → Any IsIt (insert_by_update d rows)
  unfolding insert_by_update
  insert_here d [] h = inl h
  insert_here d (r ∷ rows) h = elim (Bool-cases (leb d.updated_at r.updated_at)) [
    | inl first ↦ rw first (inl h)
    | inr later ↦ rw later (inr (insert_here d rows h))
  ]

  insert_later : (d : Document) (rows : Rows) → Any IsIt rows → Any IsIt (insert_by_update d rows)
  unfolding insert_by_update
  insert_later d [] h = absurd h
  insert_later d (r ∷ rows) h = elim (Bool-cases (leb d.updated_at r.updated_at)) [
    | inl first ↦ rw first (inr h)
    | inr later ↦ rw later (elim h [ inl it ↦ inl it | inr rest ↦ inr (insert_later d rows rest) ])
  ]

  Any-order : (rows : Rows) → Any IsIt rows → Any IsIt (order_by_update rows)
  unfolding order_by_update
  Any-order [] h = h
  Any-order (d ∷ rows) (inl it) = insert_here d (order_by_update rows) it
  Any-order (d ∷ rows) (inr rest) = insert_later d (order_by_update rows) (Any-order rows rest)

  Any-take : (n : ℕ) (rows : Rows) → length rows ≤ n → Any IsIt rows → Any IsIt (take n rows)
  Any-take zero [] l h = h
  Any-take zero (d ∷ rows) l h = absurd (omega arith)
  Any-take (suc n) [] l h = h
  Any-take (suc n) (d ∷ rows) l (inl it) = inl it
  Any-take (suc n) (d ∷ rows) l (inr rest) = inr (Any-take n rows (omega arith) rest)

  Any-stale_events :
      (draw : ℕ → Text) (o : Text) (n : ℕ) (rows : List Document)
      → Any IsIt rows
      → Any (λ (e : DocumentEvent). e.document_id ≡ i) (stale_events draw o n rows)
  unfolding stale_events stale_event event_for
  Any-stale_events draw o n [] h = h
  Any-stale_events draw o n (d ∷ rows) (inl it) = inl it
  Any-stale_events draw o n (d ∷ rows) (inr rest) = inr (Any-stale_events draw o (n + 1) rows rest)

  Any-later :
      (es fs : List DocumentEvent)
      → Any (λ e. e.document_id ≡ i) fs
      → Any (λ e. e.document_id ≡ i) (es ++ fs)
  Any-later [] fs h = h
  Any-later (e ∷ es) fs h = inr (Any-later es fs h)

length-insert_by_update :
    (d : Document) (rows : Rows) → length (insert_by_update d rows) ≡ length rows + 1
unfolding insert_by_update
length-insert_by_update d [] = refl
length-insert_by_update d (r ∷ rows) = ground (arith, length-insert_by_update d rows)

length-order : (rows : Rows) → length (order_by_update rows) ≡ length rows
unfolding order_by_update
length-order [] = refl
length-order (d ∷ rows) =
    omega (arith, length-insert_by_update d (order_by_update rows), length-order rows)

-- The rows that are stale at a time.
abbrev pub stale_rows : ℕ → SweepSettings → Rows → Rows
stale_rows now settings rows = filter (is_stale now settings.stale_after) rows

module _ (c : Codec) (is_uuid : Text → Bool) (canonical : Text → Text) (draw : ℕ → Text) (o : Text)
    (settings : SweepSettings) where
  process_list :
      (w : Worker c in_memory) (i : Text) (d : Document) (events : List DocumentEvent)
      → w.db.reachable ≡ true
      → w.engine_state.available ≡ true
      → Any (λ e. e.document_id ≡ i) events
      → is_uuid i ≡ true
      → canonical i ≡ i
      → row i w.db.rows ≡ some d
      → Synced c is_uuid canonical i d w (process c in_memory is_uuid canonical events w).1
  process_list w i d [] r up h good own found = absurd h
  process_list w i d (e ∷ es) r up h good own found =
      process_syncs c is_uuid canonical e es w r up i d h good own found

  drained :
      (now : ℕ) (db : Database) (q : InMemoryPublisher)
      → db.reachable ≡ true
      → q.available ≡ true
      → (drain (sweep_once draw o settings now db q).1).0
        ≡ q.events
          ++ stale_events draw o 0 (find_stale now settings.stale_after settings.batch_size db.rows)
  unfolding sweep_once drain
  drained now db q r on = ground (
    arith,
    publish_all-events draw o 0 (find_stale now settings.stale_after settings.batch_size db.rows) q,
  )

  -- A document that has been pending or failed past the grace period is recovered by one sweep and
  -- the batch drained after it, if the database, the queue and the engine are up and no more rows
  -- are stale than a sweep takes: the engine has the operation for its current row, and a pending
  -- row becomes indexed.
  pub lost_event_recovers :
      (w : Worker c in_memory) (q : InMemoryPublisher) (i : Text) (d : Document)
      → w.db.reachable ≡ true
      → q.available ≡ true
      → w.engine_state.available ≡ true
      → is_uuid i ≡ true
      → canonical i ≡ i
      → row i w.db.rows ≡ some d
      → is_stale w.now settings.stale_after d ≡ true
      → length (stale_rows w.now settings w.db.rows) ≤ settings.batch_size
      → let swept = (sweep_once draw o settings w.now w.db q).1 in
        Synced c is_uuid canonical i d w (process c in_memory is_uuid canonical (drain swept).0 w).1
  lost_event_recovers w q i d r on up good own found old room =
      let stale = stale_rows w.now settings w.db.rows in
      process_list w i d _ r up
        (rw (drained w.now w.db q r on) (
          Any-later i q.events _ (
            Any-stale_events i draw o 0
              (find_stale w.now settings.stale_after settings.batch_size w.db.rows)
              (unfold find_stale in
                Any-take i settings.batch_size (order_by_update stale)
                  (omega (arith, length-order stale))
                  (Any-order i stale
                    (Any-filter i (is_stale w.now settings.stale_after) w.db.rows d found old))))))
        good own found

-- ===== src/Reconciler/Sweep.antt =====
-- What a sweep publishes, and what it never does.
use distributed_document_sea.Prelude.{
  ℕ, zero, suc, ◌+◌, ◌≡◌, ◌⊎◌, inl, inr, refl, sym, Text, text_eq_iff, if◌then◌else◌, leb, Bool,
  true, List, [], ◌∷◌, ◌++◌, filter, take, some, arith, All, All-imp, All-filter, Bool-cases,
  text_eq_refl,
}
use mathlib.Core.List.{append-nil, append_assoc}
use distributed_document_sea.Documents.{
  Document, Rows, pending, failed, is_stale, insert_by_update, order_by_update, find_stale,
  find_first,
}
use distributed_document_sea.Documents.Queries.{row, IsKeyed}
use distributed_document_sea.Events.{DocumentEvent, event_index, InMemoryPublisher, publish}
use distributed_document_sea.DocumentService.{Database}
use distributed_document_sea.Reconciler.{SweepSettings, stale_event, publish_all, sweep_once}

-- The events that the loop would publish, all of them.
unfoldable pub stale_events : (ℕ → Text) → Text → ℕ → List Document → List DocumentEvent
stale_events draw occurred_at n [] = []
stale_events draw occurred_at n (d ∷ rest) =
    stale_event (draw n) occurred_at d ∷ stale_events draw occurred_at (n + 1) rest

-- The loop publishes every stale row, or, if the queue is down, none.
pub publish_all-events :
    (draw : ℕ → Text) (o : Text) (n : ℕ) (stale : List Document) (q : InMemoryPublisher)
    → (publish_all draw o n stale q).events
      ≡ (if q.available then q.events ++ stale_events draw o n stale else q.events)
unfolding publish_all stale_events publish
publish_all-events draw o n [] q = ground (arith, append-nil q.events)
publish_all-events draw o n (d ∷ rest) q = elim (Bool-cases q.available) [
  | inr down ↦ ground arith
  | inl up ↦
      let e = stale_event (draw n) o d in
      let q' = record q { events = q.events ++ e ∷ []; published_count = q.published_count + 1 } in
      ground (
        arith,
        publish_all-events draw o (n + 1) rest q',
        append_assoc q.events (e ∷ []) (stale_events draw o (n + 1) rest),
      )
]

module _ (P : Document → Type 0) where
  insert_by_update-All :
      (d : Document) (rows : Rows) → P d → All P rows → All P (insert_by_update d rows)
  unfolding insert_by_update
  insert_by_update-All d [] p h = (p, tt)
  insert_by_update-All d (r ∷ rows) p h = elim (Bool-cases (leb d.updated_at r.updated_at)) [
    | inl first ↦ rw first (p, h)
    | inr later ↦ rw later (h.0, insert_by_update-All d rows p h.1)
  ]

  order_by_update-All : (rows : Rows) → All P rows → All P (order_by_update rows)
  unfolding order_by_update
  order_by_update-All [] h = tt
  order_by_update-All (d ∷ rows) h =
      insert_by_update-All d (order_by_update rows) h.0 (order_by_update-All rows h.1)

  take-All : (n : ℕ) (rows : Rows) → All P rows → All P (take n rows)
  take-All zero rows h = tt
  take-All (suc n) [] h = tt
  take-All (suc n) (d ∷ rows) h = (h.0, take-All n rows h.1)

  -- What holds of every row that is stale holds of every row that the query returns.
  pub find_stale-All :
      (now older limit : ℕ) (rows : Rows)
      → All P (filter (is_stale now older) rows)
      → All P (find_stale now older limit rows)
  unfolding find_stale
  find_stale-All now older limit rows h =
      take-All limit (order_by_update (filter (is_stale now older) rows))
        (order_by_update-All (filter (is_stale now older) rows) h)

All-filter_self : (p : Document → Bool) (rows : Rows) → All (λ d. p d ≡ true) (filter p rows)
unfolding filter
All-filter_self p [] = tt
All-filter_self p (d ∷ rows) = elim (Bool-cases (p d)) [
  | inl keep ↦ rw keep (keep, All-filter_self p rows)
  | inr drop ↦ rw drop (All-filter_self p rows)
]

-- In a keyed table every row is the row of its id.
keyed_rows : (rows : Rows) → IsKeyed rows → All (λ d. row d.id rows ≡ some d) rows
unfolding row find_first
keyed_rows [] k = tt
keyed_rows (d ∷ rows) k = (
  ground (arith, text_eq_refl d.id),
  All-imp _ _ (λ r own. ground (arith, own, k.0, text_eq_iff d.id r.id)) rows (keyed_rows rows k.1),
)

All-both :
    (P Q : Document → Type 0) (rows : Rows) → All P rows → All Q rows → All (λ d. P d × Q d) rows
All-both P Q [] p q = tt
All-both P Q (d ∷ rows) p q = ((p.0, q.0), All-both P Q rows p.1 q.1)

-- The row of an event that only asks for indexing.
abbrev pub AsksToIndex : Rows → DocumentEvent → Type 0
AsksToIndex rows e =
    (e.type ≡ event_index)
    × ((d : Document) × (row e.document_id rows ≡ some d)
        × ((d.status ≡ pending) ⊎ (d.status ≡ failed)))

stale_events-All :
    (draw : ℕ → Text) (o : Text) (rows : Rows) (n : ℕ) (stale : List Document)
    → All (λ d. (row d.id rows ≡ some d) × ((d.status ≡ pending) ⊎ (d.status ≡ failed))) stale
    → All (AsksToIndex rows) (stale_events draw o n stale)
unfolding stale_events stale_event
stale_events-All draw o rows n [] h = tt
stale_events-All draw o rows n (d ∷ rest) h =
    ((ground (arith, h.0), (d, h.0.0, h.0.1)), stale_events-All draw o rows (n + 1) rest h.1)

-- A sweep over a table with one row to an id adds to the queue only index events, and only for rows
-- that are pending or failed; none is published for a deleted row.
pub sweep_only_indexes :
    (draw : ℕ → Text) (o : Text) (settings : SweepSettings) (now : ℕ) (db : Database)
    (q : InMemoryPublisher)
    → IsKeyed db.rows
    → (new : List DocumentEvent) × ((sweep_once draw o settings now db q).1.events
        ≡ q.events ++ new)
      × All (AsksToIndex db.rows) new
unfolding sweep_once
sweep_only_indexes draw o settings now db q k =
    let stale = find_stale now settings.stale_after settings.batch_size db.rows in
    let asked = stale_events-All draw o db.rows 0 stale (
      find_stale-All _ now settings.stale_after settings.batch_size db.rows (
        All-imp _ _ (λ d h. (h.0, unfold is_stale in ground (arith, h.1)))
          (filter (is_stale now settings.stale_after) db.rows)
          (All-both _ _ (filter (is_stale now settings.stale_after) db.rows)
            (All-filter _ (is_stale now settings.stale_after) db.rows (keyed_rows db.rows k))
            (All-filter_self (is_stale now settings.stale_after) db.rows)))) in
    elim (Bool-cases db.reachable) [
      | inr down ↦ ([], rw down (sym (append-nil q.events)), tt)
      | inl up ↦ elim (Bool-cases q.available) [
        | inr off ↦
            ([], rw (up, publish_all-events draw o 0 stale q, off) (sym (append-nil q.events)), tt)
        | inl on ↦ (
          stale_events draw o 0 stale,
          rw (up, publish_all-events draw o 0 stale q, on) refl,
          asked,
        )
      ]
    ]

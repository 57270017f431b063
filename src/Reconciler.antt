-- ===== src/Reconciler.antt =====
-- doc-search/app/workers/reconciler.py: the sweep that publishes again what was never indexed.
pub mod Sweep
pub mod Recovery
use distributed_document_sea.Prelude.{
  ℕ, zero, suc, ◌+◌, Text, Bool, true, false, if◌then◌else◌, List, [], ◌∷◌, length,
}
use distributed_document_sea.Errors.{Exn, Result, ok, err}
use distributed_document_sea.Documents.{Document, deleted, status_eq, find_stale}
use distributed_document_sea.Events.{
  DocumentEvent, event_index, event_delete, InMemoryPublisher, publish,
}
use distributed_document_sea.DocumentService.{Database, database_error, event_for}

-- The two settings of the sweep, in microseconds and rows.
pub record SweepSettings : Type 0 where
  pub stale_after : ℕ
  pub batch_size : ℕ

-- `event_type`
abbrev event_type : Document → Text
event_type d = if status_eq d.status deleted then event_delete else event_index

-- The event for a stale row; `event_id` and `occurred_at` are drawn for it.
unfoldable pub stale_event : Text → Text → Document → DocumentEvent
unfolding event_for
stale_event event_id occurred_at d = event_for (event_type d) event_id occurred_at d

-- The loop over the stale rows, which a failed publication ends. `draw n` is the n-th event id.
unfoldable pub publish_all :
    (ℕ → Text) → Text → ℕ → List Document → InMemoryPublisher → InMemoryPublisher
publish_all draw occurred_at n [] q = q
publish_all draw occurred_at n (d ∷ rest) q =
    let (r, q') = publish (stale_event (draw n) occurred_at d) q in
    elim r [ ok _ ↦ publish_all draw occurred_at (n + 1) rest q' | err _ ↦ q' ]

-- `Reconciler.sweep_once`
unfoldable pub sweep_once :
    (ℕ → Text)
    → Text
    → SweepSettings
    → ℕ
    → Database
    → InMemoryPublisher
    → Result ℕ × InMemoryPublisher
sweep_once draw occurred_at settings now db q =
    let stale = find_stale now settings.stale_after settings.batch_size db.rows in
    if db.reachable
    then (ok (length stale), publish_all draw occurred_at 0 stale q)
    else (err database_error, q)

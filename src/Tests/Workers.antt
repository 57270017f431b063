-- ===== src/Tests/Workers.antt =====
-- The workers at a concrete batch: the processor, the reconciler, the consumer and the engine.
use distributed_document_sea.Prelude.{
  ℕ, ◌+◌, ◌*◌, ◌≤◌, ◌≡◌, ◌⊎◌, inl, refl, Text, text, text_eq, Dict, lookup, insert, Bool, true,
  false, leb, if◌then◌else◌, List, [], ◌∷◌, ◌++◌, All, filter, length, Option, none, some, arith,
}
use distributed_document_sea.Errors.{other}
use distributed_document_sea.Documents.{find_first, listed, is_stale, get_many}
use distributed_document_sea.Documents.Queries.{row, IsKeyed}
use distributed_document_sea.Events.{DocumentEvent, drain}
use distributed_document_sea.Engine.{Source, Operation, index}
use distributed_document_sea.Engine.InMemory.{
  StoredDoc, InMemorySearchEngine, in_memory, bulk, apply, index_order_irrelevant,
}
use distributed_document_sea.Processor.{
  Worker, process, collapse, note, to_search_source, plan, operation_for, row_of,
}
use distributed_document_sea.Processor.Outcomes.{
  Accounts, FailedAndSkipped, planned, process-Accounts, malformed_retried_on_outage,
}
use distributed_document_sea.Processor.Sync.{Synced, process_syncs}
use distributed_document_sea.Reconciler.{SweepSettings, sweep_once}
use distributed_document_sea.Reconciler.Sweep.{AsksToIndex, sweep_only_indexes}
use distributed_document_sea.Reconciler.Recovery.{lost_event_recovers}
use distributed_document_sea.Consumer.{
  Death, counted, Message, dead_letter, nack, settle, Polled, message, timeout, run_loop,
  empty_batch,
}
use distributed_document_sea.Consumer.Settling.{retries_counted_twice}
use distributed_document_sea.Consumer.Batching.{batches_complete, flatten, IsBatch}
use distributed_document_sea.Tests.{codec, acme, first_id, report, queue, database, report_event}

abbrev engine_up : InMemorySearchEngine
engine_up = record { docs = []; available = true }

abbrev engine_down : InMemorySearchEngine
engine_down = record { docs = []; available = false }

abbrev worker : Worker codec in_memory
worker = record { db = database; cache = none; engine_state = engine_up; now = 100000000 }

abbrev worker_down : Worker codec in_memory
worker_down = record { db = database; cache = none; engine_state = engine_down; now = 100000000 }

-- An id is a uuid here unless it is empty.
abbrev is_uuid : Text → Bool
is_uuid [] = false
is_uuid (_ ∷ _) = true

abbrev same : Text → Text
same i = i

abbrev malformed_event : DocumentEvent
malformed_event = record report_event { document_id = [] }

row-report : row first_id (report ∷ []) ≡ some report
unfolding row find_first text_eq
row-report = refl

report-IsKeyed : IsKeyed (report ∷ [])
unfolding row find_first
report-IsKeyed = (refl, tt)

process-Accounts_example :
    All
      (λ f.
        Accounts (process codec in_memory is_uuid same (report_event ∷ []) worker).0 f.document_id)
      (report_event ∷ [])
process-Accounts_example = process-Accounts codec in_memory is_uuid same report_event [] worker refl

process_syncs_example :
    Synced codec is_uuid same first_id report worker
      (process codec in_memory is_uuid same (report_event ∷ []) worker).1
process_syncs_example =
    process_syncs codec is_uuid same report_event [] worker refl refl first_id report (inl refl)
      refl refl row-report

abbrev report_operation : Operation
report_operation = index first_id acme 1 (to_search_source report)

planned-report :
    planned same is_uuid (malformed_event ∷ report_event ∷ []) (report ∷ []) ≡ report_operation ∷ []
unfolding collapse note lookup insert text_eq plan operation_for row_of find_first get_many listed
    filter
planned-report = refl

malformed_retried_on_outage_example :
    All
      (λ f.
        (is_uuid f.document_id ≡ true)
        ⊎ FailedAndSkipped
            (process codec in_memory is_uuid same
              (malformed_event ∷ report_event ∷ [])
              worker_down).0
            f.document_id)
      (malformed_event ∷ report_event ∷ [])
unfolding bulk
malformed_retried_on_outage_example =
    malformed_retried_on_outage codec in_memory is_uuid same malformed_event (report_event ∷ [])
      worker_down report_operation [] (other (text "search engine unavailable")) engine_down refl
      planned-report refl

abbrev draw : ℕ → Text
draw n = text "e"

abbrev settings : SweepSettings
settings = record { stale_after = 60000000; batch_size = 500 }

report_stale : is_stale 100000000 60000000 report ≡ true
unfolding is_stale
report_stale = refl

one_stale : length (filter (is_stale 100000000 60000000) (report ∷ [])) ≤ 500
unfolding filter is_stale
one_stale = ground arith

lost_event_recovers_example :
    Synced codec is_uuid same first_id report worker
      (process codec in_memory is_uuid same
        (drain (sweep_once draw (text "now") settings 100000000 database queue).1).0
        worker).1
lost_event_recovers_example =
    lost_event_recovers codec is_uuid same draw (text "now") settings worker queue first_id report
      refl refl refl refl refl row-report report_stale one_stale

sweep_only_indexes_example :
    (new : List DocumentEvent) × ((sweep_once draw
        (text "now")
        settings
        100000000
        database
        queue).1.events
      ≡ [] ++ new)
    × All (AsksToIndex (report ∷ [])) new
sweep_only_indexes_example =
    sweep_only_indexes draw (text "now") settings 100000000 database queue report-IsKeyed

abbrev delivery : Message
delivery = record { event = report_event; x_death = some (counted 1 ∷ counted 1 ∷ []) }

abbrev turns : List (ℕ × ℕ × Polled)
turns = (0, 1, message delivery) ∷ (2, 400, timeout) ∷ (401, 402, message delivery) ∷ []

batches_complete_example :
    (flatten (run_loop 300 100 turns empty_batch) ≡ delivery ∷ delivery ∷ [])
    × All (IsBatch 100) (run_loop 300 100 turns empty_batch)
batches_complete_example = batches_complete 300 100 turns (omega arith)

abbrev headers : ℕ → Option (List Death)
headers rounds = some (counted rounds ∷ counted rounds ∷ [])

report_failed : listed (first_id ∷ []) first_id ≡ true
unfolding listed text_eq
report_failed = refl

retries_counted_twice_example :
    settle 3 (first_id ∷ []) delivery ≡ (if leb 3 (2 * 1 + 1) then dead_letter else nack)
retries_counted_twice_example =
    retries_counted_twice headers (λ rounds. refl) 3 1 (first_id ∷ []) delivery report_failed refl

abbrev source : Source
source = to_search_source report

abbrev stored : Dict StoredDoc
stored =
    (first_id, record { document_id = first_id; tenant_id = acme; version = 1; source = source })
    ∷ []

index_order_irrelevant_example :
    lookup first_id
      (apply (index first_id acme 2 source) (apply (index first_id acme 3 source) stored))
    ≡ lookup first_id
        (apply (index first_id acme 3 source) (apply (index first_id acme 2 source) stored))
index_order_irrelevant_example =
    index_order_irrelevant first_id acme acme 2 3 source source first_id stored (inl (omega arith))

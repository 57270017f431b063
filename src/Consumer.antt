-- ===== src/Consumer.antt =====
-- doc-search/app/workers/consumer.py: batches of messages, and what becomes of each message.
pub mod Settling
pub mod Batching
use distributed_document_sea.Prelude.{
  ℕ, zero, suc, ◌+◌, ◌-◌, ◌*◌, ◌/◌, Text, Bool, true, false, if◌then◌else◌, leb, ◌&&◌, ◌||◌, List,
  [], ◌∷◌, ◌++◌, length, map, Option, none, some,
}
use distributed_document_sea.Errors.{Exn, Result, ok, err}
use distributed_document_sea.Documents.{listed}
use distributed_document_sea.Events.{DocumentEvent}
use distributed_document_sea.Processor.{ProcessOutcome}

-- An entry of the header `x-death`, by what `int(entry.get("count", 0))` makes of it.
pub data Death : Type 0 where
  counted : ℕ → Death
  no_count unreadable : Death

-- A delivered message with the event that was read from it; `none` is a message without the header.
pub record Message : Type 0 where
  pub event : DocumentEvent
  pub x_death : Option (List Death)

unfoldable pub sum_deaths : List Death → ℕ
sum_deaths [] = 0
sum_deaths (counted n ∷ rest) = n + sum_deaths rest
sum_deaths (no_count ∷ rest) = sum_deaths rest
sum_deaths (unreadable ∷ rest) = sum_deaths rest

-- `death_count`
unfoldable pub death_count : Message → ℕ
unfolding sum_deaths
death_count m = elim m.x_death [ none ↦ 0 | some deaths ↦ sum_deaths deaths ]

-- What the consumer does with a delivery: `ack`; `nack(requeue=False)`, after which the broker sends
-- it round the retry queue; or a copy to the dead-letter exchange, and `ack`.
pub data Settlement : Type 0 where
  ack nack dead_letter : Settlement

-- The decision of `_flush` for one message.
unfoldable pub settle : ℕ → List Text → Message → Settlement
settle max_attempts failed m =
    if listed failed m.event.document_id
    then (if leb max_attempts (death_count m + 1) then dead_letter else nack)
    else ack

-- The settlement of a message before those of the rest.
abbrev pub push :
    {S : Type 0} → Settlement → Result (List Settlement) × S → Result (List Settlement) × S
push x (ok xs, s) = (ok (x ∷ xs), s)
push x (err e, s) = (err e, s)

-- What follows `_to_dlq`: the rest of the batch, or, if it raised, nothing.
abbrev pub after_dlq :
    {S : Type 0}
    → Result (Unit {0}) × S
    → (S → Result (List Settlement) × S)
    → Result (List Settlement) × S
after_dlq (ok _, s) rest = push dead_letter (rest s)
after_dlq (err e, s) rest = (err e, s)

-- `_flush`: the settlement of each message in turn. `publish_dlq` is `_to_dlq`, which may raise; then
-- the rest of the batch is not settled.
module _ {S : Type 0} (publish_dlq : Message → S → Result (Unit {0}) × S) (max_attempts : ℕ) where
  -- One message is settled, and then the rest of the batch.
  abbrev pub perform :
      Settlement → Message → (S → Result (List Settlement) × S) → S → Result (List Settlement) × S
  perform ack m rest s = push ack (rest s)
  perform nack m rest s = push nack (rest s)
  perform dead_letter m rest s = after_dlq (publish_dlq m s) rest

  unfoldable pub settle_all : List Text → List Message → S → Result (List Settlement) × S
  settle_all failed [] s = (ok [], s)
  settle_all failed (m ∷ batch) s =
      perform (settle max_attempts failed m) m (settle_all failed batch) s

  -- A batch whose processing raised is not settled at all.
  unfoldable pub flush : Result ProcessOutcome → List Message → S → Result (List Settlement) × S
  flush (err e) batch s = (err e, s)
  flush (ok o) batch s = settle_all o.failed batch s

-- One turn of the loop in `run`: what `__anext__` gave within the linger time.
pub data Polled : Type 0 where
  message : Message → Polled
  malformed : Polled
  timeout : Polled

pub record Batch : Type 0 where
  pub messages : List Message
  pub deadline : Option ℕ

abbrev pub empty_batch : Batch
empty_batch = record { messages = []; deadline = none }

-- The deadline is set by the first delivery after a flush, a malformed one too.
abbrev started : ℕ → Option ℕ → Option ℕ
started at none = some at
started at (some d) = some d

unfoldable pub receive : ℕ → ℕ → Polled → Batch → Batch
receive now linger (message m) b = record {
  messages = b.messages ++ m ∷ [];
  deadline = started (now + linger) b.deadline;
}
receive now linger malformed b = record b { deadline = started (now + linger) b.deadline }
receive now linger timeout b = b

abbrev expired : ℕ → Option ℕ → Bool
expired now none = false
expired now (some d) = leb d now

abbrev pub is_empty : List Message → Bool
is_empty [] = true
is_empty (_ ∷ _) = false

-- `batch and (full or expired)`
unfoldable pub is_due : ℕ → ℕ → Batch → Bool
is_due now size b =
    (if is_empty b.messages then false else true)
    && (leb size (length b.messages) || expired now b.deadline)

-- One turn: the batch that goes on, and the batch that is flushed, if any. The clock is read when the
-- delivery is taken and again after it.
unfoldable pub turn : ℕ → ℕ → ℕ → ℕ → Polled → Batch → Batch × List Message
unfolding receive is_due
turn now later linger size polled b =
    let b' = receive now linger polled b in
    if is_due later size b' then (empty_batch, b'.messages) else (b', [])

-- Only a batch with messages is flushed.
abbrev pub flush_then : List Message → List (List Message) → List (List Message)
flush_then [] rest = rest
flush_then (m ∷ batch) rest = (m ∷ batch) ∷ rest

-- The turns until the consumer is stopped, with the times of each: the batches that are flushed, in
-- order, the last one at the end. No flush raises here; one that does ends the process.
unfoldable pub run_loop : ℕ → ℕ → List (ℕ × ℕ × Polled) → Batch → List (List Message)
run_loop linger size [] b = flush_then b.messages []
run_loop linger size ((now, later, polled) ∷ rest) b =
    let (b', flushed) = turn now later linger size polled b in
    flush_then flushed (run_loop linger size rest b')

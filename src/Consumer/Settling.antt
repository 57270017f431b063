-- ===== src/Consumer/Settling.antt =====
-- What becomes of each message of a batch, and how many attempts a message gets.
use distributed_document_sea.Prelude.{
  ℕ, ◌+◌, ◌*◌, ◌≡◌, refl, Text, if◌then◌else◌, leb, true, List, [], ◌∷◌, map, Option, some, arith,
}
use distributed_document_sea.Errors.{Result, ok, err}
use distributed_document_sea.Documents.{listed}
use distributed_document_sea.Processor.{ProcessOutcome}
use distributed_document_sea.Consumer.{
  Death, counted, Message, sum_deaths, death_count, Settlement, ack, nack, dead_letter, settle,
  push, after_dlq, settle_all, flush, perform,
}

push_ok :
    {S : Type 0} (x : Settlement) (r : Result (List Settlement) × S) {xs : List Settlement}
    → r.0 ≡ ok xs
    → (push x r).0 ≡ ok (x ∷ xs)
push_ok x (ok ys, s) h = ground arith
push_ok x (err e, s) h = cc

after_dlq_ok :
    {S : Type 0} (r : Result (Unit {0}) × S) (rest : S → Result (List Settlement) × S)
    {xs : List Settlement}
    → r.0 ≡ ok tt
    → (rest r.1).0 ≡ ok xs
    → (after_dlq r rest).0 ≡ ok (dead_letter ∷ xs)
after_dlq_ok (ok _, s) rest u h = push_ok dead_letter (rest s) h
after_dlq_ok (err e, s) rest u h = cc

module _ {S : Type 0} (publish_dlq : Message → S → Result (Unit {0}) × S) (max_attempts : ℕ) where
  perform_ok :
      ((m : Message) (s : S) → (publish_dlq m s).0 ≡ ok tt)
      → (x : Settlement) (m : Message) (rest : S → Result (List Settlement) × S) (s : S)
        {xs : List Settlement}
      → ((s' : S) → (rest s').0 ≡ ok xs)
      → (perform publish_dlq max_attempts x m rest s).0 ≡ ok (x ∷ xs)
  perform_ok up ack m rest s h = push_ok ack (rest s) (h s)
  perform_ok up nack m rest s h = push_ok nack (rest s) (h s)
  perform_ok up dead_letter m rest s h =
      after_dlq_ok (publish_dlq m s) rest (up m s) (h (publish_dlq m s).1)

  settle_all_ok :
      ((m : Message) (s : S) → (publish_dlq m s).0 ≡ ok tt)
      → (failed : List Text) (batch : List Message) (s : S)
      → (settle_all publish_dlq max_attempts failed batch s).0
        ≡ ok (map (settle max_attempts failed) batch)
  unfolding settle_all
  settle_all_ok up failed [] s = refl
  settle_all_ok up failed (m ∷ batch) s =
      perform_ok up (settle max_attempts failed m) m
        (settle_all publish_dlq max_attempts failed batch) s (settle_all_ok up failed batch)

  -- If the dead-letter exchange takes what it is given, a processed batch is settled whole: every
  -- message once, in order, by its own decision.
  pub flush_settles :
      ((m : Message) (s : S) → (publish_dlq m s).0 ≡ ok tt)
      → (o : ProcessOutcome) (batch : List Message) (s : S)
      → (flush publish_dlq max_attempts (ok o) batch s).0
        ≡ ok (map (settle max_attempts o.failed) batch)
  unfolding flush
  flush_settles up o batch s = settle_all_ok up o.failed batch s

-- The header that the broker documents for a message which has gone round the retry queue `rounds`
-- times: one entry for its rejections by the main queue, one for its expiries in the retry queue.
module _ (headers : ℕ → Option (List Death))
    (documented : (rounds : ℕ) → headers rounds ≡ some (counted rounds ∷ counted rounds ∷ [])) where
  -- With a death header that counts each round of the retry queue once as a rejection and once as
  -- an expiry, a failing message is dead-lettered after some retries exactly if twice the retries
  -- and one reach the setting.
  pub retries_counted_twice :
      (max_attempts rounds : ℕ) (failed : List Text) (m : Message)
      → listed failed m.event.document_id ≡ true
      → m.x_death ≡ headers rounds
      → settle max_attempts failed m
        ≡ (if leb max_attempts (2 * rounds + 1) then dead_letter else nack)
  unfolding settle death_count sum_deaths
  retries_counted_twice max_attempts rounds failed m f h = ground (arith, documented rounds)

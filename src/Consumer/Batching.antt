-- ===== src/Consumer/Batching.antt =====
-- doc-search/app/workers/consumer.py: the batches of the loop against the deliveries it was given.
use mathlib.Core.List.{append-nil, append_assoc}
use distributed_document_sea.Prelude.{
  ℕ, ◌≤◌, ◌<◌, ◌≡◌, inl, inr, refl, sym, ap, ◌∙◌, false, List, [], ◌∷◌, ◌++◌, length, length-append,
  arith, All, Bool-cases,
}
use distributed_document_sea.Consumer.{
  Message, Polled, message, malformed, timeout, Batch, empty_batch, receive, is_due, turn,
  flush_then, run_loop, is_empty,
}

-- The well-formed messages of the turns.
abbrev pub delivered : List (ℕ × ℕ × Polled) → List Message
delivered [] = []
delivered ((now, later, message m) ∷ rest) = m ∷ delivered rest
delivered ((now, later, malformed) ∷ rest) = delivered rest
delivered ((now, later, timeout) ∷ rest) = delivered rest

abbrev pub flatten : List (List Message) → List Message
flatten [] = []
flatten (b ∷ bs) = b ++ flatten bs

flatten-flush_then :
    (b : List Message) (rest : List (List Message))
    → flatten (flush_then b rest) ≡ b ++ flatten rest
flatten-flush_then [] rest = refl
flatten-flush_then (m ∷ b) rest = refl

-- A turn keeps the messages: those it flushes, then those it leaves.
turn_keeps :
    (now later linger size : ℕ) (p : Polled) (b : Batch)
    → (turn now later linger size p b).1 ++ (turn now later linger size p b).0.messages
      ≡ (receive now linger p b).messages
unfolding turn
turn_keeps now later linger size p b =
    elim (Bool-cases (is_due later size (receive now linger p b))) [
      | inl due ↦ rw due (append-nil (receive now linger p b).messages)
      | inr wait ↦ rw wait
    ]

receive_adds :
    (now later linger : ℕ) (p : Polled) (b : Batch) (rest : List (ℕ × ℕ × Polled))
    → (receive now linger p b).messages ++ delivered rest
      ≡ b.messages ++ delivered ((now, later, p) ∷ rest)
unfolding receive
receive_adds now later linger (message m) b rest = append_assoc b.messages (m ∷ []) (delivered rest)
receive_adds now later linger malformed b rest = refl
receive_adds now later linger timeout b rest = refl

keeps_order :
    (linger size : ℕ) (turns : List (ℕ × ℕ × Polled)) (b : Batch)
    → flatten (run_loop linger size turns b) ≡ b.messages ++ delivered turns
unfolding run_loop
keeps_order linger size [] b = flatten-flush_then b.messages []
keeps_order linger size ((now, later, p) ∷ rest) b =
    let t = turn now later linger size p b in
    flatten-flush_then t.1 (run_loop linger size rest t.0)
    ∙ ap (λ l. t.1 ++ l) (keeps_order linger size rest t.0)
    ∙ sym (append_assoc t.1 t.0.messages (delivered rest))
    ∙ ap (λ l. l ++ delivered rest) (turn_keeps now later linger size p b)
    ∙ receive_adds now later linger p b rest

not-is_empty : (l : List Message) (m : Message) → is_empty (l ++ m ∷ []) ≡ false
not-is_empty [] m = refl
not-is_empty (x ∷ l) m = refl

turn_bounds :
    (now later linger size : ℕ) (p : Polled) (b : Batch)
    → length b.messages < size
    → (length (turn now later linger size p b).1 ≤ size)
      × (length (turn now later linger size p b).0.messages < size)
unfolding turn receive is_due
turn_bounds now later linger size (message m) b h =
    ground (arith, length-append b.messages (m ∷ []), not-is_empty b.messages m)
turn_bounds now later linger size malformed b h = ground arith
turn_bounds now later linger size timeout b h = ground arith

abbrev pub IsBatch : ℕ → List Message → Type 0
IsBatch size b = (0 < length b) × (length b ≤ size)

flush_then-All :
    (size : ℕ) (b : List Message) (rest : List (List Message))
    → length b ≤ size
    → All (IsBatch size) rest
    → All (IsBatch size) (flush_then b rest)
flush_then-All size [] rest h k = k
flush_then-All size (m ∷ b) rest h k = ((omega arith, h), k)

within :
    (linger size : ℕ) (turns : List (ℕ × ℕ × Polled)) (b : Batch)
    → length b.messages < size
    → All (IsBatch size) (run_loop linger size turns b)
unfolding run_loop
within linger size [] b h = flush_then-All size b.messages [] (omega arith) tt
within linger size ((now, later, p) ∷ rest) b h =
    let t = turn now later linger size p b in
    let (flushed, left) = turn_bounds now later linger size p b h in
    flush_then-All size t.1 (run_loop linger size rest t.0) flushed
      (within linger size rest t.0 left)

-- With a positive batch size, the flushed batches hold exactly the readable deliveries, each once
-- and in order, and no batch is empty or larger than the size.
pub batches_complete :
    (linger size : ℕ) (turns : List (ℕ × ℕ × Polled))
    → 0 < size
    → (flatten (run_loop linger size turns empty_batch) ≡ delivered turns)
      × All (IsBatch size) (run_loop linger size turns empty_batch)
batches_complete linger size turns h =
    (keeps_order linger size turns empty_batch, within linger size turns empty_batch h)

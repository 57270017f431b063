-- ===== src/Events/Rounds.antt =====
-- doc-search/app/clients/queue.py: the way of a message through the declared queues.
use mathlib.Core.Path.{subst, sym}
use distributed_document_sea.Prelude.{
  ℕ, ◌≡◌, ◌⊎◌, inl, inr, refl, Text, text, text_eq, text_eq_refl, false, List, [], ◌∷◌, ◌++◌,
  Option, none, some, arith,
}
use distributed_document_sea.Events.{event_index, event_delete}
use distributed_document_sea.Events.Topology.{
  QueueSettings, Binding, retry_exchange, dlq_exchange, main_queue, retry_queue, dlq, bindings_for,
  declare_topology, bound,
}

suffix_differs : (s t : Text) (ch : ℕ) → text_eq s (s ++ ch ∷ t) ≡ false
unfolding text_eq
suffix_differs [] t ch = refl
suffix_differs (x ∷ s) t ch = ground (arith, suffix_differs s t ch)

suffix_differs_back : (s t : Text) (ch : ℕ) → text_eq (s ++ ch ∷ t) s ≡ false
unfolding text_eq
suffix_differs_back [] t ch = refl
suffix_differs_back (x ∷ s) t ch = ground (arith, suffix_differs_back s t ch)

common_prefix : (s t u : Text) → text_eq (s ++ t) (s ++ u) ≡ text_eq t u
unfolding text_eq
common_prefix [] t u = refl
common_prefix (x ∷ s) t u = ground (arith, common_prefix s t u)

-- The queues that a queue's rejected or expired messages with the routing key are bound to.
abbrev pub dead_lettered_to : Option Text → Text → List Binding → List Text
dead_lettered_to none routing_key bindings = []
dead_lettered_to (some exchange) routing_key bindings = bound exchange routing_key bindings

module _ (s : QueueSettings) where
  abbrev IsRound : Text → Type 0
  IsRound routing_key =
      let bindings = (declare_topology s).bindings in
      (bound s.queue_exchange routing_key bindings ≡ s.queue_name ∷ [])
      × (dead_lettered_to (main_queue s).dead_letter_exchange routing_key bindings
          ≡ s.queue_retry_name ∷ [])
      × (dead_lettered_to (retry_queue s).dead_letter_exchange routing_key bindings
          ≡ s.queue_name ∷ [])
      × (bound (dlq_exchange s) routing_key bindings ≡ s.queue_dlq_name ∷ [])
      × (dead_lettered_to (dlq s).dead_letter_exchange routing_key bindings ≡ [])

  IsRound-index : IsRound event_index
  unfolding declare_topology bound bindings_for retry_exchange dlq_exchange main_queue retry_queue
      dlq text_eq
  IsRound-index =
      rw
        (
          text_eq_refl s.queue_exchange,
          text_eq_refl (retry_exchange s),
          text_eq_refl (dlq_exchange s),
          suffix_differs s.queue_exchange (text "retry") b'.',
          suffix_differs s.queue_exchange (text "dlq") b'.',
          suffix_differs_back s.queue_exchange (text "retry") b'.',
          suffix_differs_back s.queue_exchange (text "dlq") b'.',
          common_prefix s.queue_exchange (text ".retry") (text ".dlq"),
          common_prefix s.queue_exchange (text ".dlq") (text ".retry"),
        )
        (refl, refl, refl, refl, refl)

  IsRound-delete : IsRound event_delete
  unfolding declare_topology bound bindings_for retry_exchange dlq_exchange main_queue retry_queue
      dlq text_eq
  IsRound-delete =
      rw
        (
          text_eq_refl s.queue_exchange,
          text_eq_refl (retry_exchange s),
          text_eq_refl (dlq_exchange s),
          suffix_differs s.queue_exchange (text "retry") b'.',
          suffix_differs s.queue_exchange (text "dlq") b'.',
          suffix_differs_back s.queue_exchange (text "retry") b'.',
          suffix_differs_back s.queue_exchange (text "dlq") b'.',
          common_prefix s.queue_exchange (text ".retry") (text ".dlq"),
          common_prefix s.queue_exchange (text ".dlq") (text ".retry"),
        )
        (refl, refl, refl, refl, refl)

  -- For both types of events: the exchange is bound to the work queue only; what is rejected there
  -- is dead-lettered to the retry queue only, and what expires there to the work queue only; the
  -- dead-letter exchange is bound to the dead-letter queue only, which dead-letters nothing.
  pub topology_rounds :
      (routing_key : Text)
      → (routing_key ≡ event_index) ⊎ (routing_key ≡ event_delete)
      → let bindings = (declare_topology s).bindings in
        (bound s.queue_exchange routing_key bindings ≡ s.queue_name ∷ [])
        × (dead_lettered_to (main_queue s).dead_letter_exchange routing_key bindings
            ≡ s.queue_retry_name ∷ [])
        × (dead_lettered_to (retry_queue s).dead_letter_exchange routing_key bindings
            ≡ s.queue_name ∷ [])
        × (bound (dlq_exchange s) routing_key bindings ≡ s.queue_dlq_name ∷ [])
        × (dead_lettered_to (dlq s).dead_letter_exchange routing_key bindings ≡ [])
  topology_rounds routing_key (inl e) = subst IsRound (sym e) IsRound-index
  topology_rounds routing_key (inr e) = subst IsRound (sym e) IsRound-delete

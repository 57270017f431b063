-- ===== src/Events/Topology.antt =====
-- doc-search/app/clients/queue.py: `declare_topology`, as the declarations that it sends to the broker.
use distributed_document_sea.Prelude.{
  ℕ, Text, text, text_eq, ◌&&◌, if◌then◌else◌, List, [], ◌∷◌, ◌++◌, Option, none, some,
}
use distributed_document_sea.Events.{event_index, event_delete}

-- The settings of the queue.
pub record QueueSettings : Type 0 where
  pub queue_exchange : Text
  pub queue_name : Text
  pub queue_retry_name : Text
  pub queue_dlq_name : Text
  pub queue_retry_delay_ms : ℕ

-- A durable queue with its arguments.
pub record Queue : Type 0 where
  pub name : Text
  pub dead_letter_exchange : Option Text
  pub message_ttl : Option ℕ

pub record Binding : Type 0 where
  pub queue : Text
  pub exchange : Text
  pub routing_key : Text

pub record Topology : Type 0 where
  pub exchanges : List Text
  pub queues : List Queue
  pub bindings : List Binding

unfoldable pub retry_exchange : QueueSettings → Text
retry_exchange s = s.queue_exchange ++ text ".retry"

unfoldable pub dlq_exchange : QueueSettings → Text
dlq_exchange s = s.queue_exchange ++ text ".dlq"

unfoldable pub main_queue : QueueSettings → Queue
unfolding retry_exchange
main_queue s = record {
  name = s.queue_name;
  dead_letter_exchange = some (retry_exchange s);
  message_ttl = none;
}

unfoldable pub retry_queue : QueueSettings → Queue
retry_queue s = record {
  name = s.queue_retry_name;
  dead_letter_exchange = some s.queue_exchange;
  message_ttl = some s.queue_retry_delay_ms;
}

unfoldable pub dlq : QueueSettings → Queue
dlq s = record { name = s.queue_dlq_name; dead_letter_exchange = none; message_ttl = none }

-- The bindings of one routing key.
unfoldable pub bindings_for : QueueSettings → Text → List Binding
unfolding retry_exchange dlq_exchange
bindings_for s routing_key =
    record { queue = s.queue_name; exchange = s.queue_exchange; routing_key = routing_key }
    ∷ record { queue = s.queue_retry_name; exchange = retry_exchange s; routing_key = routing_key }
    ∷ record { queue = s.queue_dlq_name; exchange = dlq_exchange s; routing_key = routing_key }
    ∷ []

-- `declare_topology`
unfoldable pub declare_topology : QueueSettings → Topology
unfolding retry_exchange dlq_exchange main_queue retry_queue dlq bindings_for
declare_topology s = record {
  exchanges = s.queue_exchange ∷ retry_exchange s ∷ dlq_exchange s ∷ [];
  queues = main_queue s ∷ retry_queue s ∷ dlq s ∷ [];
  bindings = bindings_for s event_index ++ bindings_for s event_delete;
}

-- The queues that an exchange has a binding to for a routing key.
unfoldable pub bound : Text → Text → List Binding → List Text
bound exchange routing_key [] = []
bound exchange routing_key (b ∷ bindings) =
    let rest = bound exchange routing_key bindings in
    if text_eq b.exchange exchange && text_eq b.routing_key routing_key
    then b.queue ∷ rest
    else rest

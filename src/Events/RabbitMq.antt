-- ===== src/Events/RabbitMq.antt =====
-- doc-search/app/clients/queue.py: `RabbitMQPublisher`, over the calls of the broker's library.
pub mod Reconnect
use distributed_document_sea.Prelude.{
  ℕ, Text, text, Bool, true, false, not, List, [], ◌∷◌, Option, none, some, Dict,
}
use distributed_document_sea.Errors.{Exn, Result, ok, err}
use distributed_document_sea.Events.{DocumentEvent, JsonValue, as_dict}

-- `aio_pika.Message`, with the key that it is published under.
pub record BrokerMessage : Type 0 where
  pub body : Dict JsonValue
  pub message_id : Text
  pub tenant_id : Text
  pub routing_key : Text

-- The attributes: whether `_connection`, `_channel` and `_exchange` are set.
pub record RabbitMqPublisher : Type 0 where
  pub connection : Bool
  pub channel : Bool
  pub exchange : Bool

-- `__init__`
unfoldable pub unconnected : RabbitMqPublisher
unconnected = record { connection = false; channel = false; exchange = false }

unfoldable pub message_of : DocumentEvent → BrokerMessage
message_of e = record {
  body = as_dict e;
  message_id = e.event_id;
  tenant_id = e.tenant_id;
  routing_key = e.type;
}

-- `connect_robust`, `connection.channel`, `declare_topology` and `exchange.publish` on the broker's
-- state, any of which may raise; `is_closed` and `close` of the connection.
module _ {S : Type 0} (connect_robust open_channel declare_topology : S → Result (Unit {0}) × S)
    (exchange_publish : BrokerMessage → S → Result (Unit {0}) × S) (is_closed : S → Result Bool)
    (close_connection : S → Result (Unit {0}) × S) where
  abbrev Done : Type 0
  Done = Result (Unit {0}) × S × RabbitMqPublisher

  abbrev declared : RabbitMqPublisher → Result (Unit {0}) × S → Done
  declared p (err e, s) = (err e, s, p)
  declared p (ok _, s) = (ok tt, s, record p { exchange = true })

  abbrev opened : RabbitMqPublisher → Result (Unit {0}) × S → Done
  opened p (err e, s) = (err e, s, p)
  opened p (ok _, s) = declared (record p { channel = true }) (declare_topology s)

  abbrev pub dialled : RabbitMqPublisher → Result (Unit {0}) × S → Done
  dialled p (err e, s) = (err e, s, p)
  dialled p (ok _, s) = opened (record p { connection = true }) (open_channel s)

  -- `connect`
  unfoldable pub connect : S → RabbitMqPublisher → Done
  connect s p = dialled p (connect_robust s)

  abbrev pub sent : RabbitMqPublisher → Result (Unit {0}) × S → Done
  sent p (r, s) = (r, s, p)

  abbrev pub send_if_connected : DocumentEvent → Done → Done
  send_if_connected e (err x, s, p) = (err x, s, p)
  send_if_connected e (ok _, s, p) = sent p (exchange_publish (message_of e) s)

  -- `publish`, by `self._exchange is None`
  abbrev pub publish_by : Bool → DocumentEvent → S → RabbitMqPublisher → Done
  publish_by true e s p = sent p (exchange_publish (message_of e) s)
  publish_by false e s p = send_if_connected e (connect s p)

  unfoldable pub publish : DocumentEvent → S → RabbitMqPublisher → Done
  unfolding connect message_of
  publish e s p = publish_by p.exchange e s p

  abbrev alive : Result Bool → Bool
  alive (ok closed) = not closed
  alive (err e) = false

  abbrev ping_by : Bool → Result Bool → Bool
  ping_by false closed = false
  ping_by true closed = alive closed

  -- `ping`
  unfoldable pub ping : S → RabbitMqPublisher → Bool
  ping s p = ping_by p.connection (is_closed s)

  abbrev close_by : Bool → Result Bool → S → Result (Unit {0}) × S
  close_by false closed s = (ok tt, s)
  close_by true (err e) s = (err e, s)
  close_by true (ok true) s = (ok tt, s)
  close_by true (ok false) s = close_connection s

  -- `close`
  unfoldable pub close : S → RabbitMqPublisher → Result (Unit {0}) × S
  close s p = close_by p.connection (is_closed s) s

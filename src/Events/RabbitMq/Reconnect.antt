-- ===== src/Events/RabbitMq/Reconnect.antt =====
-- doc-search/app/clients/queue.py: when `RabbitMQPublisher` connects.
use distributed_document_sea.Prelude.{◌≡◌, refl, Bool, true, false, arith}
use distributed_document_sea.Errors.{Result, ok, err}
use distributed_document_sea.Events.{DocumentEvent}
use distributed_document_sea.Events.RabbitMq.{
  BrokerMessage, RabbitMqPublisher, message_of, declared, opened, dialled, connect,
  send_if_connected, publish_by, publish,
}

module _ {S : Type 0} (connect_robust open_channel declare_topology : S → Result (Unit {0}) × S)
    (exchange_publish : BrokerMessage → S → Result (Unit {0}) × S) (is_closed : S → Result Bool)
    (close_connection : S → Result (Unit {0}) × S) where
  -- What was done with success has left the exchange declared.
  abbrev IsConnecting : Result (Unit {0}) × S × RabbitMqPublisher → Type 0
  IsConnecting done = done.0 ≡ ok tt → done.2.exchange ≡ true

  declared-IsConnecting :
      (p : RabbitMqPublisher) (r : Result (Unit {0}) × S)
      → IsConnecting (
          declared connect_robust open_channel declare_topology exchange_publish is_closed
            close_connection p r)
  declared-IsConnecting p (err e, s) h = ground arith
  declared-IsConnecting p (ok _, s) h = refl

  opened-IsConnecting :
      (p : RabbitMqPublisher) (r : Result (Unit {0}) × S)
      → IsConnecting (
          opened connect_robust open_channel declare_topology exchange_publish is_closed
            close_connection p r)
  opened-IsConnecting p (err e, s) h = ground arith
  opened-IsConnecting p (ok _, s) h =
      declared-IsConnecting (record p { channel = true }) (declare_topology s) h

  dialled-IsConnecting :
      (p : RabbitMqPublisher) (r : Result (Unit {0}) × S)
      → IsConnecting (
          dialled connect_robust open_channel declare_topology exchange_publish is_closed
            close_connection p r)
  dialled-IsConnecting p (err e, s) h = ground arith
  dialled-IsConnecting p (ok _, s) h =
      opened-IsConnecting (record p { connection = true }) (open_channel s) h

  sending-IsConnecting :
      (e : DocumentEvent) (done : Result (Unit {0}) × S × RabbitMqPublisher)
      → IsConnecting done
      → IsConnecting (
          send_if_connected connect_robust open_channel declare_topology exchange_publish is_closed
            close_connection e done)
  sending-IsConnecting e (err x, s, p) c h = ground arith
  sending-IsConnecting e (ok _, s, p) c h = c refl

  publish-IsConnecting :
      (b : Bool) (e : DocumentEvent) (s : S) (p : RabbitMqPublisher)
      → p.exchange ≡ b
      → IsConnecting (
          publish_by connect_robust open_channel declare_topology exchange_publish is_closed
            close_connection b e s p)
  unfolding connect
  publish-IsConnecting true e s p set h = set
  publish-IsConnecting false e s p unset h =
      sending-IsConnecting e
        (dialled connect_robust open_channel declare_topology exchange_publish is_closed
          close_connection p (connect_robust s))
        (dialled-IsConnecting p (connect_robust s)) h

  -- After a publication that succeeded, a later one only sends: it does not connect again.
  pub publish_connects_once :
      (e : DocumentEvent) (s : S) (p : RabbitMqPublisher)
      → let out =
          publish connect_robust open_channel declare_topology exchange_publish is_closed
            close_connection e s p in
        out.0 ≡ ok tt
        → (e' : DocumentEvent) (s' : S)
        → publish connect_robust open_channel declare_topology exchange_publish is_closed
            close_connection e' s' out.2
          ≡ (let (r, s'') = exchange_publish (message_of e') s' in (r, s'', out.2))
  unfolding publish
  publish_connects_once e s p h e' s' = rw (publish-IsConnecting p.exchange e s p refl h) refl

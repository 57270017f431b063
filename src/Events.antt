-- ===== src/Events.antt =====
-- doc-search/app/clients/queue.py: indexing events and the in-memory publisher.
pub mod Transport
pub mod Topology
pub mod Rounds
pub mod RabbitMq
use distributed_document_sea.Prelude.{
  ℕ, zero, suc, ◌+◌, ◌-◌, ◌*◌, Text, text, text_eq, Dict, lookup, Bool, true, false, if◌then◌else◌,
  ◌&&◌, leb, List, [], ◌∷◌, ◌++◌, Option, none, some, decimal,
}
use distributed_document_sea.Errors.{Exn, other, Result, ok, err, ◌>>=◌}

abbrev pub event_index : Text
event_index = text "document.index"

abbrev pub event_delete : Text
event_delete = text "document.delete"

pub record DocumentEvent : Type 0 where
  pub document_id : Text
  pub tenant_id : Text
  pub version : ℕ
  pub type : Text
  pub event_id : Text
  pub occurred_at : Text

-- A JSON value; a value that is neither a string nor a natural number is its text and what `int`
-- makes of it.
pub data JsonValue : Type 0 where
  string : Text → JsonValue
  integer : ℕ → JsonValue
  other_value : Text → Option ℕ → JsonValue

-- `asdict(self)`
unfoldable pub as_dict : DocumentEvent → Dict JsonValue
as_dict e =
    (text "document_id", string e.document_id)
    ∷ (text "tenant_id", string e.tenant_id)
    ∷ (text "version", integer e.version)
    ∷ (text "type", string e.type)
    ∷ (text "event_id", string e.event_id)
    ∷ (text "occurred_at", string e.occurred_at)
    ∷ []

-- A value as a field of an event: a string. Python keeps any other value as it is; here it is its
-- text.
unfoldable pub text_of : JsonValue → Text
text_of (string s) = s
text_of (integer n) = decimal n
text_of (other_value t n) = t

abbrev or_key_error : Option JsonValue → Result JsonValue
or_key_error none = err (other (text "KeyError"))
or_key_error (some v) = ok v

-- `payload[key]`
unfoldable pub item : Text → Dict JsonValue → Result JsonValue
item key payload = or_key_error (lookup key payload)

abbrev text_or : Text → Option JsonValue → Text
text_or default none = default
text_or default (some v) = text_of v

-- `payload.get(key, default)`
unfoldable pub item_or : Text → Text → Dict JsonValue → Text
unfolding text_of
item_or key default payload = text_or default (lookup key payload)

abbrev int_or_raise : Option ℕ → Result ℕ
int_or_raise none = err (other (text "ValueError"))
int_or_raise (some n) = ok n

module _ (numeral : Text → Option ℕ) where
  -- `int(value)`; `numeral` is `int` of a string.
  unfoldable pub int_of : JsonValue → Result ℕ
  int_of (string s) = int_or_raise (numeral s)
  int_of (integer n) = ok n
  int_of (other_value t n) = int_or_raise n

  -- `DocumentEvent.from_dict`; `fresh` is the uuid that is drawn for an event without an id.
  unfoldable pub from_dict : Text → Dict JsonValue → Result DocumentEvent
  unfolding item int_of item_or text_of
  from_dict fresh payload = do
    document_id ← item (text "document_id") payload
    tenant_id ← item (text "tenant_id") payload
    version_value ← item (text "version") payload
    version ← int_of version_value
    ok (record {
      document_id = text_of document_id;
      tenant_id = text_of tenant_id;
      version = version;
      type = item_or (text "type") event_index payload;
      event_id = item_or (text "event_id") fresh payload;
      occurred_at = item_or (text "occurred_at") [] payload;
    })

  abbrev decoded : Text → Option (Dict JsonValue) → Result DocumentEvent
  decoded fresh none = err (other (text "JSONDecodeError"))
  decoded fresh (some payload) = from_dict fresh payload

  -- `json.dumps` and `json.loads` on objects; `none` is a `JSONDecodeError`.
  module _ {Raw : Type 0} (dumps : Dict JsonValue → Raw)
      (loads : Raw → Option (Dict JsonValue)) where
    -- `to_json`
    unfoldable pub to_json : DocumentEvent → Raw
    unfolding as_dict
    to_json e = dumps (as_dict e)

    -- `DocumentEvent.from_dict(json.loads(body))`
    unfoldable pub read_body : Text → Raw → Result DocumentEvent
    unfolding from_dict
    read_body fresh body = decoded fresh (loads body)

-- `InMemoryPublisher`
pub record InMemoryPublisher : Type 0 where
  pub events : List DocumentEvent
  pub available : Bool
  pub published_count : ℕ

abbrev pub empty_queue : InMemoryPublisher
empty_queue = record { events = []; available = true; published_count = 0 }

-- `InMemoryPublisher.publish`
unfoldable pub publish : DocumentEvent → InMemoryPublisher → Result (Unit {0}) × InMemoryPublisher
publish e q =
    if q.available
    then (ok tt, record q { events = q.events ++ e ∷ []; published_count = q.published_count + 1 })
    else (err (other (text "queue unavailable")), q)

-- `InMemoryPublisher.drain`
unfoldable pub drain : InMemoryPublisher → List DocumentEvent × InMemoryPublisher
drain q = (q.events, record q { events = [] })

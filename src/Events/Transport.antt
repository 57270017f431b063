-- ===== src/Events/Transport.antt =====
-- doc-search/app/clients/queue.py and doc-search/app/workers/consumer.py: events written out as JSON
-- and read back.
use distributed_document_sea.Prelude.{ℕ, ◌≡◌, refl, Text, Dict, lookup, Option, some, All}
use distributed_document_sea.Errors.{ok}
use distributed_document_sea.Events.{
  JsonValue, DocumentEvent, as_dict, from_dict, item, item_or, int_of, text_of, to_json, read_body,
}

-- The object has the given entries, among others and in whatever order.
abbrev pub HasEntries : Dict JsonValue → Dict JsonValue → Type 0
HasEntries entries payload = All (λ e. lookup e.0 payload ≡ some e.1) entries

module _ (numeral : Text → Option ℕ) where
  from_dict-HasEntries :
      (fresh : Text) (e : DocumentEvent) (payload : Dict JsonValue)
      → HasEntries (as_dict e) payload
      → from_dict numeral fresh payload ≡ ok e
  unfolding from_dict as_dict item item_or int_of text_of
  from_dict-HasEntries fresh e payload
        (document_id, (tenant_id, (version, (type, (event_id, (at, _)))))) =
      rw (document_id, tenant_id, version, type, event_id, at) refl

  module _ {Raw : Type 0} (dumps : Dict JsonValue → Raw)
      (loads : Raw → Option (Dict JsonValue)) where
    -- An event that is written out as JSON is read back as the same event, if the decoder gives
    -- back an object with the written entries, among others and in whatever order.
    pub read_body-to_json :
        (fresh : Text) (e : DocumentEvent) (payload : Dict JsonValue)
        → loads (dumps (as_dict e)) ≡ some payload
        → HasEntries (as_dict e) payload
        → read_body numeral dumps loads fresh (to_json numeral dumps loads e) ≡ ok e
    unfolding read_body to_json
    read_body-to_json fresh e payload parsed has =
        rw parsed (from_dict-HasEntries fresh e payload has)

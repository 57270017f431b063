-- ===== src/Tests/Documents.antt =====
-- The document store and the requests on it, at a concrete document.
use distributed_document_sea.Keys.{document_key}
use distributed_document_sea.Cache.Store.{peek}
use distributed_document_sea.Cache.FailOpen.{cached}
use distributed_document_sea.Cache.{InMemoryCache}
use distributed_document_sea.Prelude.{
  ◌≡◌, refl, text, false, List, [], ◌∷◌, some, arith, text_eq, lookup, Dict, Option, none, ℕ, Text,
}
use distributed_document_sea.Errors.{ok, err, raise_not_found}
use distributed_document_sea.Documents
use distributed_document_sea.Documents.{
  deleted, soft_deleted, soft_delete, create, find_first, selects, taken,
}
use distributed_document_sea.Documents.Queries.{row, IsKeyed}
use distributed_document_sea.Documents.Growth.{here, next, add, Grows, Writes-grow}
use distributed_document_sea.DocumentService.{delete, get, from_model, World}
use distributed_document_sea.Events.{
  JsonValue, string, integer, other_value, to_json, read_body, as_dict,
}
use distributed_document_sea.DocumentService.Reads.{
  get-delete, stale_after_outage, restored, recovered,
}
use distributed_document_sea.DocumentService.Advertised.{
  Action, post, remove, act_all, IsSound, requests_advertise_rows,
}
use distributed_document_sea.Events.Transport.{HasEntries, read_body-to_json}
use distributed_document_sea.Tests.{
  codec, document_model, acme, first_id, second_id, report, payload, world, document, report_event,
}

report-IsKeyed : IsKeyed (report ∷ [])
unfolding row find_first
report-IsKeyed = (refl, tt)

Writes-grow_example : IsKeyed (create report []) × Grows [] (create report [])
unfolding taken
Writes-grow_example = Writes-grow tt (next here (add report refl))

report_selected : Documents.get acme first_id false (report ∷ []) ≡ some report
unfolding Documents.get find_first selects text_eq
report_selected = refl

get-delete_example :
    (get codec document_model 60 acme first_id
      (delete codec (text "e2") (text "20") acme first_id world).1).0
    ≡ err (raise_not_found (text "Document not found."))
get-delete_example =
    get-delete codec document_model 60 (text "e2") (text "20") acme first_id world report refl refl
      (refl, ground arith) report_selected

abbrev requests : List Action
requests =
    post acme second_id (text "e2") (text "20") payload
    ∷ remove acme first_id (text "e3") (text "21")
    ∷ []

requests_advertise_rows_example : IsSound (act_all codec document_model 60 requests world)
requests_advertise_rows_example =
    requests_advertise_rows codec document_model 60 requests world
      (record { keyed = report-IsKeyed; advertised = tt })

-- The entries in another order, with one more.
abbrev shuffled : Dict JsonValue
shuffled =
    (text "trace", other_value (text "null") none)
    ∷ (text "version", integer report_event.version)
    ∷ (text "occurred_at", string report_event.occurred_at)
    ∷ (text "event_id", string report_event.event_id)
    ∷ (text "type", string report_event.type)
    ∷ (text "tenant_id", string report_event.tenant_id)
    ∷ (text "document_id", string report_event.document_id)
    ∷ []

abbrev no_numeral : Text → Option ℕ
no_numeral s = none

abbrev dumps : Dict JsonValue → Dict JsonValue
dumps d = d

abbrev loads : Dict JsonValue → Option (Dict JsonValue)
loads d = some shuffled

shuffled-HasEntries : HasEntries (as_dict report_event) shuffled
unfolding as_dict lookup text_eq
shuffled-HasEntries = (refl, (refl, (refl, (refl, (refl, (refl, tt))))))

read_body-to_json_example :
    read_body no_numeral dumps loads (text "fresh") (to_json no_numeral dumps loads report_event)
    ≡ ok report_event
read_body-to_json_example =
    read_body-to_json no_numeral dumps loads (text "fresh") report_event shuffled refl
      shuffled-HasEntries

-- A cache that is down, with the response of the document from before.
abbrev filled_cache : InMemoryCache codec
filled_cache = record {
  store = (document_key acme first_id, (document (from_model report), 70000000)) ∷ [];
  available = false;
  set_calls = 1;
}

abbrev outage : World codec
outage = record world { cache = filled_cache }

still_cached :
    cached codec 30 (document_key acme first_id) (restored filled_cache)
    ≡ some (document (from_model report))
unfolding cached peek lookup text_eq document_key
still_cached = refl

stale_after_outage_example :
    (get codec document_model 60 acme first_id
      (recovered 30 (delete codec (text "e2") (text "20") acme first_id outage).1)).0
    ≡ ok (from_model report)
stale_after_outage_example =
    stale_after_outage codec document_model 60 (text "e2") (text "20") acme first_id outage report
      30 (from_model report) refl refl report_selected still_cached

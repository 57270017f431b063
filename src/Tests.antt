-- ===== src/Tests.antt =====
-- Concrete data, and the runs of the theorems on it: a codec, a tenant, a document, a table.
pub mod Documents
pub mod Workers
pub mod Resilience
pub mod Requests
pub mod Flights
pub mod Startup
pub mod Engines
pub mod Pipeline
pub mod Routes
pub mod Floats
use distributed_document_sea.Prelude.{
  ℕ, ◌≡◌, refl, Text, text, Dict, Bool, true, false, List, [], ◌∷◌, Option, none, some, leb, ◌*◌,
  ◌/◌, ◌+◌, ◌-◌, if◌then◌else◌, arith, ◌<◌, ap, lookup, insert, lookup-insert, text_eq,
}
use distributed_document_sea.Cache.{Codec, Model, InMemoryCache}
use distributed_document_sea.Documents.{Document, pending}
use distributed_document_sea.Events.{DocumentEvent, event_index, InMemoryPublisher}
use distributed_document_sea.DocumentService.{DocumentCreate, DocumentResponse, Database, World}
use distributed_document_sea.Search.{SearchResponse, SearchModel, as_hit}
use distributed_document_sea.Tenants.{Tenant}

-- Decoded values, which stand for their own encoding.
mutual
  pub data Json : Type 0 where
    integer : ℕ → Json
    boolean : Bool → Json
    object : Fields → Json
    document : DocumentResponse → Json
    response : SearchResponse → Json
    tenant : Tenant → Json

  pub data Fields : Type 0 where
    no_fields : Fields
    field : Text → Json → Fields → Fields

abbrev to_integer : Json → Option ℕ
to_integer (integer n) = some n
to_integer _ = none

abbrev pub codec : Codec
codec = record {
  Raw = Json;
  Value = Json;
  dumps = λ v. v;
  loads = λ v. some v;
  show = λ n. integer n;
  read = to_integer;
  number = λ n. integer n;
  int_of = to_integer;
  loads_dumps = λ v. refl;
  loads_show = λ n. refl;
  int_of_number = λ n. refl;
  read_show = λ n. refl;
}

abbrev to_document : Json → Option DocumentResponse
to_document (document r) = some r
to_document _ = none

abbrev pub document_model : Model codec DocumentResponse
document_model = record {
  dump = λ r. document r;
  validate = to_document;
  validate_dump = λ r. refl;
}

abbrev to_tenant : Json → Option Tenant
to_tenant (tenant t) = some t
to_tenant _ = none

abbrev pub tenant_model : Model codec Tenant
tenant_model = record { dump = λ t. tenant t; validate = to_tenant; validate_dump = λ t. refl }

abbrev fields_of : Dict Json → Fields
fields_of [] = no_fields
fields_of ((k, v) ∷ d) = field k v (fields_of d)

abbrev entries_of : Fields → Dict Json
entries_of no_fields = []
entries_of (field k v f) = (k, v) ∷ entries_of f

pub entries_of-fields_of : (d : Dict Json) → entries_of (fields_of d) ≡ d
entries_of-fields_of [] = refl
entries_of-fields_of ((k, v) ∷ d) = ap (λ l. (k, v) ∷ l) (entries_of-fields_of d)

abbrev to_entries : Json → Option (Dict Json)
to_entries (object f) = some (entries_of f)
to_entries _ = none

-- A response as an object of its flag, its time and the rest.
abbrev fields : SearchResponse → Dict Json
fields r =
    (text "cached", boolean r.cached)
    ∷ (text "took_ms", integer r.took_ms)
    ∷ (text "rest", response r)
    ∷ []

abbrev parsed : Option Json → Option Json → Option Json → Option SearchResponse
parsed (some (boolean b)) (some (integer n)) (some (response r)) =
    some (record r { cached = b; took_ms = n })
parsed _ _ _ = none

abbrev parse : Dict Json → Option SearchResponse
parse d = parsed (lookup (text "cached") d) (lookup (text "took_ms") d) (lookup (text "rest") d)

parsed_cached :
    (b : Bool) (x y z : Option Json) (r : SearchResponse)
    → parsed x y z ≡ some r
    → parsed (some (boolean b)) y z ≡ some (record r { cached = b })
parsed_cached b x y z r h = ground arith

parsed_took :
    (n : ℕ) (x y z : Option Json) (r : SearchResponse)
    → parsed x y z ≡ some r
    → parsed x (some (integer n)) z ≡ some (record r { took_ms = n })
parsed_took n x y z r h = ground arith

pub parse-fields : (r : SearchResponse) → parse (fields r) ≡ some r
unfolding lookup text_eq
parse-fields r = refl

pub parse_cached :
    (b : Bool) (d : Dict Json) (r : SearchResponse)
    → parse d ≡ some r
    → parse (insert (text "cached") (boolean b) d) ≡ some (record r { cached = b })
unfolding text_eq
parse_cached b d r h =
    rw
      (
        lookup-insert (text "cached") (text "cached") (boolean b) d,
        lookup-insert (text "cached") (text "took_ms") (boolean b) d,
        lookup-insert (text "cached") (text "rest") (boolean b) d,
      )
      (parsed_cached b (lookup (text "cached") d) (lookup (text "took_ms") d)
        (lookup (text "rest") d) r h)

pub parse_took :
    (n : ℕ) (d : Dict Json) (r : SearchResponse)
    → parse d ≡ some r
    → parse (insert (text "took_ms") (integer n) d) ≡ some (record r { took_ms = n })
unfolding text_eq
parse_took n d r h =
    rw
      (
        lookup-insert (text "took_ms") (text "cached") (integer n) d,
        lookup-insert (text "took_ms") (text "took_ms") (integer n) d,
        lookup-insert (text "took_ms") (text "rest") (integer n) d,
      )
      (parsed_took n (lookup (text "cached") d) (lookup (text "took_ms") d) (lookup (text "rest") d)
        r h)

abbrev pub search_model : SearchModel codec
search_model = record {
  boolean = λ b. boolean b;
  object = λ d. object (fields_of d);
  to_dict = to_entries;
  dump = fields;
  validate = parse;
  to_dict_object = λ d. ap (λ l. some l) (entries_of-fields_of d);
  validate_dump = parse-fields;
  validate_cached = parse_cached;
  validate_took = parse_took;
}

abbrev pub acme : Text
acme = text "acme"

abbrev pub first_id : Text
first_id = text "11111111-1111-4111-8111-111111111111"

abbrev pub second_id : Text
second_id = text "22222222-2222-4222-8222-222222222222"

abbrev pub report : Document
report = record {
  id = first_id;
  tenant_id = acme;
  title = text "Report";
  content = text "quarterly";
  content_type = text "text/plain";
  tags = [];
  doc_metadata = [];
  version = 1;
  status = pending;
  created_at = 10;
  updated_at = 10;
  indexed_at = none;
  deleted_at = none;
}

abbrev pub payload : DocumentCreate
payload = record {
  title = text "Report";
  content = text "quarterly";
  content_type = text "text/plain";
  tags = [];
  metadata = [];
}

abbrev pub up_cache : InMemoryCache codec
up_cache = record { store = []; available = true; set_calls = 0 }

abbrev pub queue : InMemoryPublisher
queue = record { events = []; available = true; published_count = 0 }

abbrev pub database : Database
database = record { rows = report ∷ []; tenant_ids = acme ∷ []; reachable = true }

abbrev pub world : World codec
world = record { db = database; cache = up_cache; queue = queue; now = 20 }

abbrev pub report_event : DocumentEvent
report_event = record {
  document_id = first_id;
  tenant_id = acme;
  version = 1;
  type = event_index;
  event_id = text "e1";
  occurred_at = text "10";
}

-- ===== src/Tenants.antt =====
-- doc-search/app/models/tenant.py, the tenant repository, doc-search/app/core/security.py, and the
-- authentication in doc-search/app/api/deps.py.
pub mod Sessions
use distributed_document_sea.Prelude.{
  ℕ, Text, text, text_eq, if◌then◌else◌, Bool, true, false, ◌&&◌, List, [], ◌∷◌, Option, none, some,
}
use distributed_document_sea.Errors.{Exn, app, app_error, other, unauthorized, Result, ok, err}
use distributed_document_sea.Cache.{Codec, Model, InMemoryCache, get_json, set_json}
use distributed_document_sea.Keys.{tenant_key}

-- The columns that the service reads.
pub record Tenant : Type 0 where
  pub id : Text
  pub name : Text
  pub api_key_hash : Text
  pub status : Text
  pub rate_limit_per_minute : ℕ

-- `TenantRepository.get_by_api_key_hash`; the column is unique.
unfoldable pub get_by_api_key_hash : Text → List Tenant → Option Tenant
get_by_api_key_hash hash [] = none
get_by_api_key_hash hash (t ∷ tenants) =
    if text_eq t.api_key_hash hash && text_eq t.status (text "active")
    then some t
    else get_by_api_key_hash hash tenants

abbrev pub raise_unauthorized : Text → Exn
raise_unauthorized message = app (app_error unauthorized message)

-- The registry, and whether a session reaches it.
pub record Registry : Type 0 where
  pub tenants : List Tenant
  pub reachable : Bool

module _ (c : Codec) (model : Model c Tenant) (hash_api_key : Text → Text) (ttl : ℕ) where
  abbrev validated : Option Tenant → Result Tenant
  validated none = err (other (text "TypeError"))
  validated (some t) = ok t

  abbrev admit : ℕ → Text → Option Tenant → InMemoryCache c → Result Tenant × InMemoryCache c
  admit now key none m = (err (raise_unauthorized []), m)
  admit now key (some t) m = (ok t, set_json c now key (model.dump t) ttl m)

  abbrev hit_or_look_up :
      ℕ
      → Text
      → Text
      → Option (c.Value)
      → Registry
      → InMemoryCache c
      → Result Tenant × InMemoryCache c
  hit_or_look_up now hash key (some v) db m = (validated (model.validate v), m)
  hit_or_look_up now hash key none db m =
      if db.reachable
      then admit now key (get_by_api_key_hash hash db.tenants) m
      else (err (other (text "OperationalError")), m)

  abbrev with_key : ℕ → Text → Registry → InMemoryCache c → Result Tenant × InMemoryCache c
  with_key now [] db m = (err (raise_unauthorized (text "Missing X-API-Key header.")), m)
  with_key now (x ∷ xs) db m =
      let hash = hash_api_key (x ∷ xs) in
      let (v, m') = get_json c now (tenant_key hash) m in
      hit_or_look_up now hash (tenant_key hash) v db m'

  -- `get_current_tenant`: a header that is missing is like an empty one.
  unfoldable pub get_current_tenant :
      ℕ → Option Text → Registry → InMemoryCache c → Result Tenant × InMemoryCache c
  get_current_tenant now none db m =
      (err (raise_unauthorized (text "Missing X-API-Key header.")), m)
  get_current_tenant now (some x_api_key) db m = with_key now x_api_key db m

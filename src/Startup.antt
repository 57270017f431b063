-- ===== src/Startup.antt =====
-- doc-search/app/db/database.py and doc-search/app/container.py: what a process does when it starts.
--
-- The rows of the tenants are those of Tenants. A flush or a commit that breaks the unique index on
-- `api_key_hash` raises, and the session is rolled back. `title` is `str.title`.
pub mod Seeding
pub mod Tolerance
use distributed_document_sea.Prelude.{
  ℕ, Text, text, text_eq, if◌then◌else◌, Bool, true, false, List, [], ◌∷◌, ◌++◌, map, any, Option,
  none, some,
}
use distributed_document_sea.Errors.{Exn, other, Result, ok, err}
use distributed_document_sea.Tenants.{Tenant, Registry}

-- `session.get(Tenant, id)`
unfoldable pub find_tenant : Text → List Tenant → Option Tenant
find_tenant id [] = none
find_tenant id (t ∷ tenants) = if text_eq t.id id then some t else find_tenant id tenants

-- Whether the unique index has the hash.
unfoldable pub hash_taken : Text → List Tenant → Bool
hash_taken hash tenants = any (λ t. text_eq t.api_key_hash hash) tenants

unfoldable pub set_hash : Text → Text → List Tenant → List Tenant
set_hash id hash [] = []
set_hash id hash (t ∷ tenants) =
    let rest = set_hash id hash tenants in
    (if text_eq t.id id then record t { api_key_hash = hash } else t) ∷ rest

abbrev pub integrity_error : Exn
integrity_error = other (text "IntegrityError")

module _ (hash_api_key : Text → Text) (title : Text → Text)
    (default_rate_limit_per_minute : ℕ) where
  unfoldable pub new_tenant : Text → Text → Tenant
  new_tenant tenant_id key_hash = record {
    id = tenant_id;
    name = title tenant_id;
    api_key_hash = key_hash;
    status = text "active";
    rate_limit_per_minute = default_rate_limit_per_minute;
  }

  -- The rows after one pair, or none if the index refuses them.
  abbrev pub seed_existing : Option Tenant → Text → Text → List Tenant → Option (List Tenant)
  seed_existing none tenant_id key_hash tenants =
      if hash_taken key_hash tenants
      then none
      else some (tenants ++ new_tenant tenant_id key_hash ∷ [])
  seed_existing (some existing) tenant_id key_hash tenants =
      if text_eq existing.api_key_hash key_hash
      then some tenants
      else if hash_taken key_hash tenants
      then none
      else some (set_hash tenant_id key_hash tenants)

  unfoldable pub seed_one : Text × Text → List Tenant → Option (List Tenant)
  unfolding find_tenant hash_taken set_hash new_tenant
  seed_one (tenant_id, api_key) tenants =
      seed_existing (find_tenant tenant_id tenants) tenant_id (hash_api_key api_key) tenants

  abbrev pub and_then :
      Option (List Tenant) → (List Tenant → Option (List Tenant)) → Option (List Tenant)
  and_then none rest = none
  and_then (some tenants) rest = rest tenants

  unfoldable pub seed_all : List (Text × Text) → List Tenant → Option (List Tenant)
  unfolding seed_one
  seed_all [] tenants = some tenants
  seed_all (p ∷ pairs) tenants = and_then (seed_one p tenants) (seed_all pairs)

  abbrev pub committed : Option (List Tenant) → Registry → Result (Unit {0}) × Registry
  committed none db = (err integrity_error, db)
  committed (some tenants) db = (ok tt, record db { tenants = tenants })

  -- `Database.seed_tenants`, for the pairs of the settings.
  unfoldable pub seed_tenants : List (Text × Text) → Registry → Result (Unit {0}) × Registry
  unfolding seed_all
  seed_tenants pairs db =
      if db.reachable
      then committed (seed_all pairs db.tenants) db
      else (err (other (text "OperationalError")), db)

  -- `Container.startup`, on the registry and the state of the engine and of the publisher.
  -- `create_schema` is the database library's; `connect` is none for a publisher without it.
  module _ {E Q : Type 0} (create_schema : Registry → Result (Unit {0}) × Registry)
      (ensure_index : E → Result (Unit {0}) × E)
      (connect : Option (Q → Result (Unit {0}) × Q)) where
    abbrev pub connected : Option (Q → Result (Unit {0}) × Q) → Q → Q
    connected none q = q
    connected (some f) q = (f q).1

    abbrev after_seeding :
        Result (Unit {0}) × Registry → E → Q → Result (Unit {0}) × Registry × E × Q
    after_seeding (err e, db) engine q = (err e, db, engine, q)
    after_seeding (ok _, db) engine q = (ok tt, db, (ensure_index engine).1, connected connect q)

    abbrev after_schema :
        List (Text × Text)
        → Result (Unit {0}) × Registry
        → E
        → Q
        → Result (Unit {0}) × Registry × E × Q
    after_schema pairs (err e, db) engine q = (err e, db, engine, q)
    after_schema pairs (ok _, db) engine q = after_seeding (seed_tenants pairs db) engine q

    unfoldable pub startup :
        List (Text × Text) → Registry → E → Q → Result (Unit {0}) × Registry × E × Q
    unfolding seed_tenants
    startup pairs db engine q = after_schema pairs (create_schema db) engine q

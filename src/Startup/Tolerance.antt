-- ===== src/Startup/Tolerance.antt =====
-- doc-search/app/container.py: what a start depends on.
use distributed_document_sea.Prelude.{ℕ, ◌≡◌, refl, Text, List, Option}
use distributed_document_sea.Errors.{Result, ok, err}
use distributed_document_sea.Tenants.{Registry}
use distributed_document_sea.Startup.{after_seeding, after_schema, seed_tenants, startup}

module _ (hash_api_key title : Text → Text) (default_rate : ℕ)
    (create_schema : Registry → Result (Unit {0}) × Registry) {E Q E' Q' : Type 0}
    (ensure_index : E → Result (Unit {0}) × E) (connect : Option (Q → Result (Unit {0}) × Q))
    (ensure_index' : E' → Result (Unit {0}) × E')
    (connect' : Option (Q' → Result (Unit {0}) × Q')) where
  -- The same result, and the same registry.
  abbrev Agree :
      Result (Unit {0}) × Registry × E × Q → Result (Unit {0}) × Registry × E' × Q' → Type 0
  Agree out out' = (out.0 ≡ out'.0) × (out.1 ≡ out'.1)

  after_seeding-Agree :
      (seeded : Result (Unit {0}) × Registry) (e : E) (q : Q) (e' : E') (q' : Q')
      → Agree
          (after_seeding hash_api_key title default_rate create_schema ensure_index connect seeded e
            q)
          (after_seeding hash_api_key title default_rate create_schema ensure_index' connect' seeded
            e' q')
  after_seeding-Agree (err x, db) e q e' q' = (refl, refl)
  after_seeding-Agree (ok _, db) e q e' q' = (refl, refl)

  after_schema-Agree :
      (pairs : List (Text × Text)) (created : Result (Unit {0}) × Registry) (e : E) (q : Q)
      (e' : E') (q' : Q')
      → Agree
          (after_schema hash_api_key title default_rate create_schema ensure_index connect pairs
            created e q)
          (after_schema hash_api_key title default_rate create_schema ensure_index' connect' pairs
            created e' q')
  after_schema-Agree pairs (err x, db) e q e' q' = (refl, refl)
  after_schema-Agree pairs (ok _, db) e q e' q' =
      after_seeding-Agree (seed_tenants hash_api_key title default_rate pairs db) e q e' q'

  -- Whether a start succeeds, and what it leaves in the registry, does not depend on the engine, on
  -- the queue, or on what they answer.
  pub startup_tolerant :
      (pairs : List (Text × Text)) (db : Registry) (e : E) (q : Q) (e' : E') (q' : Q')
      → let out =
          startup hash_api_key title default_rate create_schema ensure_index connect pairs db e q in
        let out' =
          startup hash_api_key title default_rate create_schema ensure_index' connect' pairs db e'
            q' in
        (out.0 ≡ out'.0) × (out.1 ≡ out'.1)
  unfolding startup
  startup_tolerant pairs db e q e' q' = after_schema-Agree pairs (create_schema db) e q e' q'

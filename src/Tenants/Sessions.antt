-- ===== src/Tenants/Sessions.antt =====
-- Who is authenticated, and for how long an authentication stands.
use distributed_document_sea.Prelude.{
  ℕ, ◌+◌, ◌≤◌, ◌≡◌, ap, ◌∙◌, Text, text_eq_refl, if◌then◌else◌, true, [], ◌∷◌, none, some, arith,
}
use distributed_document_sea.Errors.{ok, err}
use distributed_document_sea.Cache.{Codec, Model, seconds, InMemoryCache, get_json, set_json}
use distributed_document_sea.Cache.FailOpen.{
  cached, get_json-cached, cached-set_json, available-get_json, available-set_json,
}
use distributed_document_sea.Keys.{tenant_key}
use distributed_document_sea.Tenants.{
  Tenant, Registry, get_by_api_key_hash, get_current_tenant, raise_unauthorized,
}

module _ (c : Codec) (model : Model c Tenant) (hash_api_key : Text → Text) (ttl : ℕ) where
  -- The cache says nothing of a key.
  abbrev pub IsUnseen : ℕ → Text → InMemoryCache c → Type 0
  IsUnseen now key m =
      (if m.available then cached c now (tenant_key (hash_api_key key)) m else none) ≡ none

  -- A key that the cache knows nothing of, or any key while the cache is down, is decided by the
  -- registry: the active tenant with its hash, and one answer for an unknown key and for a tenant
  -- that is not active. What is refused is not cached.
  pub unseen_key :
      (now x : ℕ) (xs : Text) (db : Registry) (m : InMemoryCache c)
      → db.reachable ≡ true
      → IsUnseen now (x ∷ xs) m
      → get_current_tenant c model hash_api_key ttl now (some (x ∷ xs)) db m ≡ (
          let m' = (get_json c now (tenant_key (hash_api_key (x ∷ xs))) m).1 in
          elim (get_by_api_key_hash (hash_api_key (x ∷ xs)) db.tenants) [
            | none ↦ (err (raise_unauthorized []), m')
            | some t ↦
                (ok t, set_json c now (tenant_key (hash_api_key (x ∷ xs))) (model.dump t) ttl m')
          ])
  unfolding get_current_tenant
  unseen_key now x xs db m up h =
      ground (arith, get_json-cached c now (tenant_key (hash_api_key (x ∷ xs))) m)

  seen_key :
      (later x : ℕ) (xs : Text) (db : Registry) (m : InMemoryCache c) (t : Tenant)
      → m.available ≡ true
      → cached c later (tenant_key (hash_api_key (x ∷ xs))) m ≡ some (model.dump t)
      → (get_current_tenant c model hash_api_key ttl later (some (x ∷ xs)) db m).0 ≡ ok t
  unfolding get_current_tenant
  seen_key later x xs db m t a h =
      ground (
        arith,
        get_json-cached c later (tenant_key (hash_api_key (x ∷ xs))) m,
        model.validate_dump t,
      )

  -- The cache after a tenant was admitted.
  abbrev noted : ℕ → Text → Tenant → InMemoryCache c → InMemoryCache c
  noted now key t m =
      set_json c now (tenant_key (hash_api_key key)) (model.dump t) ttl
        (get_json c now (tenant_key (hash_api_key key)) m).1

  admitted :
      (now x : ℕ) (xs : Text) (db : Registry) (m : InMemoryCache c) (t : Tenant)
      → db.reachable ≡ true
      → IsUnseen now (x ∷ xs) m
      → get_by_api_key_hash (hash_api_key (x ∷ xs)) db.tenants ≡ some t
      → (get_current_tenant c model hash_api_key ttl now (some (x ∷ xs)) db m).1
        ≡ noted now (x ∷ xs) t m
  admitted now x xs db m t up h found = ground (arith, unseen_key now x xs db m up h)

  available-noted :
      (now : ℕ) (key : Text) (t : Tenant) (m : InMemoryCache c)
      → (noted now key t m).available ≡ m.available
  available-noted now key t m =
      let k = tenant_key (hash_api_key key) in
      available-set_json c now k (model.dump t) ttl (get_json c now k m).1
      ∙ available-get_json c now k m

  cached-noted :
      (now later : ℕ) (key : Text) (t : Tenant) (m : InMemoryCache c)
      → m.available ≡ true
      → later ≤ now + seconds ttl
      → cached c later (tenant_key (hash_api_key key)) (noted now key t m) ≡ some (model.dump t)
  cached-noted now later key t m a until =
      let k = tenant_key (hash_api_key key) in
      ground (
        arith,
        cached-set_json c now later k k (model.dump t) ttl (get_json c now k m).1,
        available-get_json c now k m,
        text_eq_refl k,
      )

  -- With the cache up, a tenant that was not in the cache, was looked up and admitted, stays
  -- admitted under its key for the lifetime of the cache entry, whatever becomes of the registry.
  pub admitted_stays :
      (now later x : ℕ) (xs : Text) (db db' : Registry) (m : InMemoryCache c) (t : Tenant)
      → m.available ≡ true
      → db.reachable ≡ true
      → IsUnseen now (x ∷ xs) m
      → get_by_api_key_hash (hash_api_key (x ∷ xs)) db.tenants ≡ some t
      → later ≤ now + seconds ttl
      → (get_current_tenant c model hash_api_key ttl later
          (some (x ∷ xs))
          db'
          (get_current_tenant c model hash_api_key ttl now (some (x ∷ xs)) db m).1).0
        ≡ ok t
  admitted_stays now later x xs db db' m t a up h found until =
      ap (λ w. (get_current_tenant c model hash_api_key ttl later (some (x ∷ xs)) db' w).0)
        (admitted now x xs db m t up h found)
      ∙ seen_key later x xs db' (noted now (x ∷ xs) t m) t (available-noted now (x ∷ xs) t m ∙ a)
          (cached-noted now later (x ∷ xs) t m a until)

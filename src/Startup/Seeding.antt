-- ===== src/Startup/Seeding.antt =====
-- doc-search/app/db/database.py: what seeding the tenants leaves.
use mathlib.Core.Path.{subst}
use distributed_document_sea.Prelude.{
  ℕ, ◌≡◌, ◌≢◌, ◌⊎◌, inl, inr, refl, sym, ap, ◌∙◌, Text, text_eq, text_eq_iff, text_eq_refl,
  if◌then◌else◌, List, [], ◌∷◌, ◌++◌, map, Option, none, some, All, Distinct, Bool-cases,
  Option-cases, arith,
}
use distributed_document_sea.Errors.{ok}
use distributed_document_sea.Tenants.{Tenant, Registry}
use distributed_document_sea.Startup.{
  find_tenant, hash_taken, set_hash, new_tenant, seed_existing, seed_one, seed_all, seed_tenants,
}

-- The tenant has a row, with the hash.
abbrev pub HasHash : Text → Text → List Tenant → Type 0
HasHash id hash tenants = (t : Tenant) × (find_tenant id tenants ≡ some t) × (t.api_key_hash ≡ hash)

find-append :
    (id : Text) (tenants : List Tenant) (t : Tenant)
    → find_tenant id (tenants ++ t ∷ []) ≡ (elim (find_tenant id tenants) [
      | none ↦ (if text_eq t.id id then some t else none)
      | some r ↦ some r
    ])
unfolding find_tenant
find-append id [] t = ground arith
find-append id (r ∷ tenants) t = ground (arith, find-append id tenants t)

find-set_hash :
    (id other hash : Text) (tenants : List Tenant)
    → find_tenant other (set_hash id hash tenants) ≡ (elim (find_tenant other tenants) [
      | none ↦ none
      | some r ↦ some (if text_eq id other then record r { api_key_hash = hash } else r)
    ])
unfolding find_tenant set_hash
find-set_hash id o hash [] = refl
find-set_hash id o hash (r ∷ tenants) = ground (
  arith,
  find-set_hash id o hash tenants,
  text_eq_iff r.id id,
  text_eq_iff r.id o,
  text_eq_iff id o,
)

module _ (hash_api_key title : Text → Text) (default_rate : ℕ) where
  abbrev outcome : Option Tenant → Text × Text → List Tenant → Option (List Tenant)
  outcome o p tenants =
      seed_existing hash_api_key title default_rate o p.0 (hash_api_key p.1) tenants

  -- What a pair that was seeded has done: stored a row, nothing, or set the hash of a row.
  abbrev IsSeeded : Text × Text → List Tenant → List Tenant → Type 0
  IsSeeded (id, key) tenants tenants' =
      ((find_tenant id tenants ≡ none)
        × (tenants'
            ≡ tenants ++ new_tenant hash_api_key title default_rate id (hash_api_key key) ∷ []))
      ⊎ ((HasHash id (hash_api_key key) tenants × (tenants' ≡ tenants))
          ⊎ ((t : Tenant) × (find_tenant id tenants ≡ some t)
              × (tenants' ≡ set_hash id (hash_api_key key) tenants)))

  existing-IsSeeded :
      (o : Option Tenant) (p : Text × Text) (tenants tenants' : List Tenant)
      → find_tenant p.0 tenants ≡ o
      → outcome o p tenants ≡ some tenants'
      → IsSeeded p tenants tenants'
  existing-IsSeeded none (id, key) tenants tenants' missing h =
      elim (Bool-cases (hash_taken (hash_api_key key) tenants)) [
        | inl taken ↦ absurd (ground arith)
        | inr free ↦ inl (missing, ground arith)
      ]
  existing-IsSeeded (some t) (id, key) tenants tenants' found h =
      elim (Bool-cases (text_eq t.api_key_hash (hash_api_key key))) [
        | inl same ↦
            inr (
              inl
                ((t, found, (text_eq_iff t.api_key_hash (hash_api_key key)).0 same), ground arith))
        | inr new ↦ elim (Bool-cases (hash_taken (hash_api_key key) tenants)) [
          | inl taken ↦ absurd (ground arith)
          | inr free ↦ inr (inr (t, found, ground arith))
        ]
      ]

  seed_one-IsSeeded :
      (p : Text × Text) (tenants tenants' : List Tenant)
      → seed_one hash_api_key title default_rate p tenants ≡ some tenants'
      → IsSeeded p tenants tenants'
  unfolding seed_one
  seed_one-IsSeeded (id, key) tenants tenants' h =
      existing-IsSeeded (find_tenant id tenants) (id, key) tenants tenants' refl h

  seeded-HasHash :
      (p : Text × Text) (tenants tenants' : List Tenant)
      → IsSeeded p tenants tenants'
      → HasHash p.0 (hash_api_key p.1) tenants'
  unfolding new_tenant
  seeded-HasHash (id, key) tenants tenants' (inl (missing, e)) =
      let t = new_tenant hash_api_key title default_rate id (hash_api_key key) in
      (
        t,
        ap (λ l. find_tenant id l) e
            ∙ find-append id tenants t
            ∙ rw (missing, text_eq_refl id) refl,
        refl,
      )
  seeded-HasHash (id, key) tenants tenants' (inr (inl (has, e))) = rw e has
  seeded-HasHash (id, key) tenants tenants' (inr (inr (t, found, e))) = (
    record t { api_key_hash = hash_api_key key },
    ap (λ l. find_tenant id l) e
        ∙ find-set_hash id id (hash_api_key key) tenants
        ∙ rw (found, text_eq_refl id) refl,
    refl,
  )

  -- The row of another tenant stays as it is.
  seeded-other :
      (p : Text × Text) (id hash : Text) (tenants tenants' : List Tenant)
      → p.0 ≢ id
      → IsSeeded p tenants tenants'
      → HasHash id hash tenants
      → HasHash id hash tenants'
  unfolding new_tenant
  seeded-other (other, key) id hash tenants tenants' n (inl (missing, e)) (t, found, has) = (
    t,
    ap (λ l. find_tenant id l) e
        ∙ find-append id tenants
            (new_tenant hash_api_key title default_rate other (hash_api_key key))
        ∙ rw found refl,
    has,
  )
  seeded-other (other, key) id hash tenants tenants' n (inr (inl (_, e))) has = rw e has
  seeded-other (other, key) id hash tenants tenants' n (inr (inr (r, _, e))) (t, found, has) = (
    t,
    ap (λ l. find_tenant id l) e
        ∙ find-set_hash other id (hash_api_key key) tenants
        ∙ rw found (ground (arith, text_eq_iff other id)),
    has,
  )

  -- Every pair's tenant has the hash of its key.
  abbrev pub AllHashed : List (Text × Text) → List Tenant → Type 0
  AllHashed pairs tenants = All (λ p. HasHash p.0 (hash_api_key p.1) tenants) pairs

  -- The rows between the first pair and the rest.
  seed_all-cons :
      (p : Text × Text) (pairs : List (Text × Text)) (tenants tenants' : List Tenant)
      → seed_all hash_api_key title default_rate (p ∷ pairs) tenants ≡ some tenants'
      → (between : List Tenant) × IsSeeded p tenants between
        × (seed_all hash_api_key title default_rate pairs between ≡ some tenants')
  unfolding seed_all
  seed_all-cons p pairs tenants tenants' h =
      elim (Option-cases (seed_one hash_api_key title default_rate p tenants)) [
        | inl refused ↦ absurd (let e : none ≡ some tenants' = (rw refused at h) in ground arith)
        | inr (between, e) ↦ (between, seed_one-IsSeeded p tenants between e, (rw e at h))
      ]

  seed_all-kept :
      (pairs : List (Text × Text)) (id hash : Text) (tenants tenants' : List Tenant)
      → All (λ j. id ≢ j) (map (λ p. p.0) pairs)
      → seed_all hash_api_key title default_rate pairs tenants ≡ some tenants'
      → HasHash id hash tenants
      → HasHash id hash tenants'
  unfolding seed_all
  seed_all-kept [] id hash tenants tenants' others h has =
      subst (λ l. HasHash id hash l) (let e : tenants ≡ tenants' = ground arith in e) has
  seed_all-kept (p ∷ pairs) id hash tenants tenants' others h has =
      let (between, seeded, rest) = seed_all-cons p pairs tenants tenants' h in
      seed_all-kept pairs id hash between tenants' others.1 rest
        (seeded-other p id hash tenants between (λ e. others.0 (sym e)) seeded has)

  seed_all-AllHashed :
      (pairs : List (Text × Text)) (tenants tenants' : List Tenant)
      → Distinct (map (λ p. p.0) pairs)
      → seed_all hash_api_key title default_rate pairs tenants ≡ some tenants'
      → AllHashed pairs tenants'
  seed_all-AllHashed [] tenants tenants' d h = tt
  seed_all-AllHashed (p ∷ pairs) tenants tenants' d h =
      let (between, seeded, rest) = seed_all-cons p pairs tenants tenants' h in
      (
        seed_all-kept pairs p.0 (hash_api_key p.1) between tenants' d.0 rest
            (seeded-HasHash p tenants between seeded),
        seed_all-AllHashed pairs between tenants' d.1 rest,
      )

  seed_all-again :
      (pairs : List (Text × Text)) (tenants : List Tenant)
      → AllHashed pairs tenants
      → seed_all hash_api_key title default_rate pairs tenants ≡ some tenants
  unfolding seed_all seed_one
  seed_all-again [] tenants h = refl
  seed_all-again ((id, key) ∷ pairs) tenants ((t, found, has), h) =
      rw (found, has, text_eq_refl (hash_api_key key)) (seed_all-again pairs tenants h)

  -- If tenants with distinct ids were seeded with success, each of them has a row with the hash of
  -- its key, and seeding them again succeeds and changes nothing.
  pub seeding_again :
      (pairs : List (Text × Text)) (db : Registry)
      → Distinct (map (λ p. p.0) pairs)
      → (seed_tenants hash_api_key title default_rate pairs db).0 ≡ ok tt
      → let db' = (seed_tenants hash_api_key title default_rate pairs db).1 in
        AllHashed pairs db'.tenants
        × (seed_tenants hash_api_key title default_rate pairs db' ≡ (ok tt, db'))
  unfolding seed_tenants
  seeding_again pairs db d h = elim (Bool-cases db.reachable) [
    | inl up ↦ elim (Option-cases (seed_all hash_api_key title default_rate pairs db.tenants)) [
      | inl refused ↦ absurd (ground arith)
      | inr (tenants, e) ↦
          let hashed = seed_all-AllHashed pairs db.tenants tenants d e in
          rw (up, e) (hashed, rw (seed_all-again pairs tenants hashed) refl)
    ]
    | inr down ↦ absurd (ground arith)
  ]

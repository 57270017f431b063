-- ===== src/Cache/FailOpen.antt =====
-- The fail-open client: what its operations show of the cache, whether the backend is up or down.
use distributed_document_sea.Prelude.{
  ℕ, ◌+◌, ◌≤◌, ◌≡◌, Text, text_eq, text_eq_iff, if◌then◌else◌, ltb, true, false, List, [], ◌∷◌,
  Option, none, some, arith,
}
use distributed_document_sea.Cache.{
  Codec, seconds, InMemoryCache, get, set, delete, get_json, set_json, client_delete, client_incr,
}
use distributed_document_sea.Cache.Store.{
  peek, peek_count, get-peek, peek-get, available-get, peek_later, peek-set, available-set,
  peek-delete, peek-incr, available-incr, incr-unavailable,
}

abbrev pub and_then {ℓ κ} : {A : Type ℓ} {B : Type κ} → Option A → (A → Option B) → Option B
and_then none f = none
and_then (some a) f = f a

module _ (c : Codec) where
  open c use {Raw, Value, dumps, loads, show, read, number, loads_dumps, loads_show, read_show}

  -- The decoded value that a client finds under a key, when the backend is up.
  unfoldable pub cached : ℕ → Text → InMemoryCache c → Option Value
  cached now k m = and_then (peek c now k m) loads

  pub get_json-cached :
      (now : ℕ) (k : Text) (m : InMemoryCache c)
      → (get_json c now k m).0 ≡ (if m.available then cached now k m else none)
  unfolding get_json cached
  get_json-cached now k m = ground (arith, get-peek c now k m)

  -- A read only drops what has expired or does not decode.
  pub cached-get_json :
      (now t : ℕ) (k j : Text) (m : InMemoryCache c)
      → now ≤ t
      → cached t j (get_json c now k m).1 ≡ cached t j m
  unfolding get_json cached client_delete
  cached-get_json now t k j m le = ground (
    arith,
    get-peek c now k m,
    available-get c now k m,
    peek-get c now t k j m le,
    peek_later c now t k m le,
    text_eq_iff k j,
    peek-delete c t k j (get c now k m).1,
  )

  pub cached-set_json :
      (now t : ℕ) (k j : Text) (v : Value) (ttl : ℕ) (m : InMemoryCache c)
      → cached t j (set_json c now k v ttl m) ≡ (
          if m.available
          then (if text_eq k j
              then (if ltb (now + seconds ttl) t then none else some v)
              else cached t j m)
          else cached t j m)
  unfolding set_json cached
  cached-set_json now t k j v ttl m =
      ground (arith, peek-set c now t k j (dumps v) ttl m, loads_dumps v)

  pub cached-client_delete :
      (t : ℕ) (k j : Text) (m : InMemoryCache c)
      → cached t j (client_delete c (k ∷ []) m)
        ≡ (if m.available then (if text_eq k j then none else cached t j m) else cached t j m)
  unfolding client_delete cached
  cached-client_delete t k j m = ground (arith, peek-delete c t k j m)

  -- While the backend is up, the counter that `incr` leaves is read back as a number, and no other
  -- key changes.
  pub cached-client_incr :
      (now t : ℕ) (k j : Text) (m : InMemoryCache c) (n : ℕ)
      → now ≤ t
      → m.available ≡ true
      → peek_count c now k m ≡ some n
      → cached t j (client_incr c now k m).1 ≡ (
          if text_eq k j
          then (if ltb (now + seconds 86400) t then none else some (number (n + 1)))
          else cached t j m)
  unfolding client_incr cached
  cached-client_incr now t k j m n le a h =
      ground (arith, peek-incr c now t k j m n le a h, loads_show (n + 1))

  pub available-get_json :
      (now : ℕ) (k : Text) (m : InMemoryCache c) → (get_json c now k m).1.available ≡ m.available
  unfolding get_json client_delete delete
  available-get_json now k m = ground (arith, available-get c now k m)

  pub available-set_json :
      (now : ℕ) (k : Text) (v : Value) (ttl : ℕ) (m : InMemoryCache c)
      → (set_json c now k v ttl m).available ≡ m.available
  unfolding set_json
  available-set_json now k v ttl m = available-set c now k (dumps v) ttl m

  pub available-client_delete :
      (ks : List Text) (m : InMemoryCache c) → (client_delete c ks m).available ≡ m.available
  unfolding client_delete delete
  available-client_delete ks m = ground arith

  pub available-client_incr :
      (now : ℕ) (k : Text) (m : InMemoryCache c) → (client_incr c now k m).1.available ≡ m.available
  unfolding client_incr
  available-client_incr now k m = available-incr c now k m

  -- While the cache backend raises, each client operation still returns: a read is a miss, an
  -- increment gives no number, and the stored entries stay as they were.
  pub fail_open :
      (now ttl : ℕ) (k : Text) (v : Value) (m : InMemoryCache c)
      → m.available ≡ false
      → (get_json c now k m ≡ (none, m))
        × (set_json c now k v ttl m ≡ m)
        × (client_delete c (k ∷ []) m ≡ m)
        × (client_incr c now k m ≡ (none, m))
  unfolding get_json set_json client_delete client_incr get set delete
  fail_open now ttl k v m a = ground (arith, incr-unavailable c now k m a)

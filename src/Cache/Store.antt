-- ===== src/Cache/Store.antt =====
-- What the in-memory cache shows of a key at a time, and how each operation changes it.
use distributed_document_sea.Prelude.{
  ℕ, ◌+◌, ◌≤◌, ◌≡◌, ◌⊎◌, Text, text, text_eq, text_eq_iff, lookup, lookup-insert, lookup-erase,
  if◌then◌else◌, ltb, true, false, [], ◌∷◌, Option, none, some, arith, Bool-cases, Option-cases,
  inl, inr, ◌≢◌,
}
use distributed_document_sea.Errors.{other, ok, err}
use distributed_document_sea.Cache.{
  Codec, seconds, InMemoryCache, unavailable, get, set, delete, incr,
}

abbrev pub live {ℓ} : {R : Type ℓ} → ℕ → Option (R × ℕ) → Option R
live now none = none
live now (some (v, e)) = if ltb e now then none else some v

module _ (c : Codec) where
  open c use {Raw, Value, dumps, loads, show, read, number, loads_dumps, loads_show, read_show}

  -- The value under a key, unless it has expired.
  unfoldable pub peek : ℕ → Text → InMemoryCache c → Option Raw
  peek now k m = live now (lookup k m.store)

  pub get-peek :
      (now : ℕ) (k : Text) (m : InMemoryCache c)
      → (get c now k m).0 ≡ (if m.available then ok (peek now k m) else err (unavailable c))
  unfolding get peek
  get-peek now k m = ground arith

  -- A value that is there stays until it expires.
  pub peek_later :
      (now t : ℕ) (k : Text) (m : InMemoryCache c)
      → now ≤ t
      → (peek t k m ≡ none) ⊎ (peek t k m ≡ peek now k m)
  unfolding peek
  peek_later now t k m h = ground arith

  -- What a read drops had expired.
  pub peek-get :
      (now t : ℕ) (k j : Text) (m : InMemoryCache c)
      → now ≤ t
      → peek t j (get c now k m).1 ≡ peek t j m
  unfolding get peek
  peek-get now t k j m h = ground (arith, lookup-erase k j m.store, text_eq_iff k j)

  pub available-get :
      (now : ℕ) (k : Text) (m : InMemoryCache c) → (get c now k m).1.available ≡ m.available
  unfolding get
  available-get now k m = ground arith

  pub peek-set :
      (now t : ℕ) (k j : Text) (v : Raw) (ttl : ℕ) (m : InMemoryCache c)
      → peek t j (set c now k v ttl m).1 ≡ (
          if m.available
          then (if text_eq k j
              then (if ltb (now + seconds ttl) t then none else some v)
              else peek t j m)
          else peek t j m)
  unfolding set peek
  peek-set now t k j v ttl m =
      ground (arith, lookup-insert k j (v, now + seconds ttl) m.store, text_eq_iff k j)

  pub available-set :
      (now : ℕ) (k : Text) (v : Raw) (ttl : ℕ) (m : InMemoryCache c)
      → (set c now k v ttl m).1.available ≡ m.available
  unfolding set
  available-set now k v ttl m = ground arith

  pub peek-delete :
      (t : ℕ) (k j : Text) (m : InMemoryCache c)
      → peek t j (delete c (k ∷ []) m).1
        ≡ (if m.available then (if text_eq k j then none else peek t j m) else peek t j m)
  unfolding delete peek
  peek-delete t k j m = ground (arith, lookup-erase k j m.store, text_eq_iff k j)

  -- The counter that a read at `now` finds.
  unfoldable pub peek_count : ℕ → Text → InMemoryCache c → Option ℕ
  peek_count now k m = elim (peek now k m) [ none ↦ some 0 | some raw ↦ read raw ]

  -- Where the counter can be read, `incr` is a read followed by a write for a day.
  pub incr_step :
      (now : ℕ) (k : Text) (m : InMemoryCache c) (n : ℕ)
      → m.available ≡ true
      → peek_count now k m ≡ some n
      → incr c now k m ≡ (ok (n + 1), (set c now k (show (n + 1)) 86400 (get c now k m).1).1)
  unfolding incr get set peek_count peek
  incr_step now k m n a h = ground arith

  pub peek-incr :
      (now t : ℕ) (k j : Text) (m : InMemoryCache c) (n : ℕ)
      → now ≤ t
      → m.available ≡ true
      → peek_count now k m ≡ some n
      → peek t j (incr c now k m).1 ≡ (
          if text_eq k j
          then (if ltb (now + seconds 86400) t then none else some (show (n + 1)))
          else peek t j m)
  peek-incr now t k j m n le a h = rw (incr_step now k m n a h) (
      ground (
        arith,
        peek-set now t k j (show (n + 1)) 86400 (get c now k m).1,
        available-get now k m,
        peek-get now t k j m le,
      ))

  pub incr_unreadable :
      (now : ℕ) (k : Text) (m : InMemoryCache c)
      → m.available ≡ true
      → peek_count now k m ≡ none
      → incr c now k m ≡ (err (other (text "ValueError")), (get c now k m).1)
  unfolding incr get peek_count peek
  incr_unreadable now k m a h = ground arith

  pub available-incr :
      (now : ℕ) (k : Text) (m : InMemoryCache c) → (incr c now k m).1.available ≡ m.available
  unfolding incr get set
  available-incr now k m = ground arith

  -- What an unavailable backend raises leaves everything as it was.
  pub incr-unavailable :
      (now : ℕ) (k : Text) (m : InMemoryCache c)
      → m.available ≡ false
      → incr c now k m ≡ (err (unavailable c), m)
  unfolding incr
  incr-unavailable now k m a = ground arith

  -- Whatever `incr` does, it touches one key.
  pub peek-incr_ne :
      (now t : ℕ) (k j : Text) (m : InMemoryCache c)
      → now ≤ t
      → k ≢ j
      → peek t j (incr c now k m).1 ≡ peek t j m
  peek-incr_ne now t k j m le ne = elim (Bool-cases m.available) [
    | inr down ↦ rw (incr-unavailable now k m down)
    | inl up ↦ elim (Option-cases (peek_count now k m)) [
      | inl bad ↦ rw (incr_unreadable now k m up bad) (peek-get now t k j m le)
      | inr (n, good) ↦ ground (arith, peek-incr now t k j m n le up good, text_eq_iff k j, ne)
    ]
  ]

-- ===== src/Search/Refill.antt =====
-- What a search that was answered leaves in the cache, and what an equal one then returns.
use native.Mathlib.Nat.{le_refl}
use distributed_document_sea.Prelude.{
  ℕ, ◌+◌, ◌≤◌, ◌≡◌, ◌≢◌, refl, sym, ◌∙◌, ap, Text, text, text_eq, text_eq_iff, text_eq_refl,
  if◌then◌else◌, ltb, true, false, [], ◌∷◌, ◌++◌, none, some, arith, All, take, length, All-take,
  decimal, insert,
}
use distributed_document_sea.Errors.{Result, ok}
use distributed_document_sea.Cache.{Codec, seconds, InMemoryCache, set_json}
use distributed_document_sea.Cache.FailOpen.{
  cached, get_json-cached, cached-get_json, cached-set_json, available-get_json, available-set_json,
}
use distributed_document_sea.Generation.{current_generation, generation_of}
use distributed_document_sea.Keys.{search_generation_key, search_key, canonical}
use distributed_document_sea.Keys.Isolation.{search_key-ne-generation_key}
use distributed_document_sea.Engine.{SearchQuery, EngineResult}
use distributed_document_sea.Search.{
  SearchModel, as_hit, SearchResponse, response_of, key_of, jittered_ttl, cacheable, search, hit,
  marked,
}
use distributed_document_sea.Search.Fill.{
  Misses, after_reads, cached-current, available-current, search_miss, served,
}

module _ (c : Codec) (model : SearchModel c) (sha256 : Text → Text) {S : Type 0}
    (engine_search : SearchQuery → S → Result EngineResult × S) where
  abbrev pub IsDigest : Text → Type 0
  IsDigest x = (length x ≡ 64) × All (λ d. d ≢ b'n') x

  digest_without_n :
      (x : Text)
      → IsDigest x
      → (y : ℕ) × (d : Text) × (take 24 x ≡ y ∷ d) × All (λ d. d ≢ b'n') (y ∷ d)
  digest_without_n [] h = absurd (omega (arith, h.0))
  digest_without_n (y ∷ d) h = (y, take 23 d, refl, (h.1.0, All-take _ 23 d h.1.1))

  key-ne :
      (t : Text) (g : ℕ) (q : SearchQuery)
      → IsDigest (sha256 (canonical q.text q.page q.size q.fuzzy q.highlight q.facets))
      → key_of sha256 t g q ≢ search_generation_key t
  unfolding key_of search_key
  key-ne t g q h e =
      let (y, d, shape, without) = digest_without_n _ h in
      search_key-ne-generation_key t t g y d without (
        ap (λ x. text "t:" ++ (t ++ (text ":search:g" ++ (decimal g ++ (text ":" ++ x)))))
          (sym shape)
        ∙ e)

  -- The cache after a search that the engine has answered.
  abbrev filled : ℕ → ℕ → Text → SearchQuery → EngineResult → InMemoryCache c → InMemoryCache c
  filled now ttl t q r m =
      set_json c now (key_of sha256 t (current_generation c now t m).0 q)
        (cacheable c model sha256 engine_search (response_of t q r)) (jittered_ttl ttl)
        (after_reads c model sha256 engine_search now t q m)

  search_answered :
      (now took ttl : ℕ) (t : Text) (q : SearchQuery) (m : InMemoryCache c) (s s' : S)
      (r : EngineResult)
      → Misses c model sha256 engine_search now t q m
      → engine_search q s ≡ (ok r, s')
      → search c model sha256 engine_search now took ttl t q (m, s)
        ≡ (ok (response_of t q r), (filled now ttl t q r m, s'))
  search_answered now took ttl t q m s s' r h f =
      search_miss c model sha256 engine_search now took ttl t q m s h
      ∙ served c model sha256 engine_search now ttl
          (key_of sha256 t (current_generation c now t m).0 q) t q
          (after_reads c model sha256 engine_search now t q m) s s' r f

  available-after_reads :
      (now : ℕ) (t : Text) (q : SearchQuery) (m : InMemoryCache c)
      → (after_reads c model sha256 engine_search now t q m).available ≡ m.available
  available-after_reads now t q m =
      available-get_json c now (key_of sha256 t (current_generation c now t m).0 q)
        (current_generation c now t m).1
      ∙ available-current c model sha256 engine_search now t m

  cached-after_reads :
      (now later : ℕ) (t k : Text) (q : SearchQuery) (m : InMemoryCache c)
      → now ≤ later
      → cached c later k (after_reads c model sha256 engine_search now t q m) ≡ cached c later k m
  cached-after_reads now later t k q m le =
      cached-get_json c now later (key_of sha256 t (current_generation c now t m).0 q) k
        (current_generation c now t m).1 le
      ∙ cached-current c model sha256 engine_search now later t k m le

  current-cached :
      (now : ℕ) (t : Text) (m : InMemoryCache c)
      → (current_generation c now t m).0
        ≡ generation_of c (if m.available then cached c now (search_generation_key t) m else none)
  unfolding current_generation
  current-cached now t m =
      ap (λ v. generation_of c v) (get_json-cached c now (search_generation_key t) m)

  available-filled :
      (now ttl : ℕ) (t : Text) (q : SearchQuery) (r : EngineResult) (m : InMemoryCache c)
      → (filled now ttl t q r m).available ≡ m.available
  available-filled now ttl t q r m =
      available-set_json c now (key_of sha256 t (current_generation c now t m).0 q)
        (cacheable c model sha256 engine_search (response_of t q r)) (jittered_ttl ttl)
        (after_reads c model sha256 engine_search now t q m)
      ∙ available-after_reads now t q m

  cached-filled :
      (now later ttl : ℕ) (t k : Text) (q : SearchQuery) (r : EngineResult) (m : InMemoryCache c)
      → now ≤ later
      → m.available ≡ true
      → cached c later k (filled now ttl t q r m) ≡ (
          if text_eq (key_of sha256 t (current_generation c now t m).0 q) k
          then (if ltb (now + seconds (jittered_ttl ttl)) later
              then none
              else some (cacheable c model sha256 engine_search (response_of t q r)))
          else cached c later k m)
  cached-filled now later ttl t k q r m le a = ground (
    arith,
    cached-set_json c now later (key_of sha256 t (current_generation c now t m).0 q) k
        (cacheable c model sha256 engine_search (response_of t q r)) (jittered_ttl ttl)
        (after_reads c model sha256 engine_search now t q m),
    available-after_reads now t q m,
    cached-after_reads now later t k q m le,
  )

  stored-filled :
      (now later ttl : ℕ) (t : Text) (q : SearchQuery) (r : EngineResult) (m : InMemoryCache c)
      → now ≤ later
      → later ≤ now + seconds (jittered_ttl ttl)
      → m.available ≡ true
      → cached c later (key_of sha256 t (current_generation c now t m).0 q) (filled now ttl t q r m)
        ≡ some (cacheable c model sha256 engine_search (response_of t q r))
  stored-filled now later ttl t q r m le until a =
      let key = key_of sha256 t (current_generation c now t m).0 q in
      ground (arith, cached-filled now later ttl t key q r m le a, text_eq_refl key)

  current-filled :
      (now later ttl : ℕ) (t : Text) (q : SearchQuery) (r : EngineResult) (m : InMemoryCache c)
      → IsDigest (sha256 (canonical q.text q.page q.size q.fuzzy q.highlight q.facets))
      → now ≤ later
      → m.available ≡ true
      → (current_generation c later t (filled now ttl t q r m)).0
        ≡ (current_generation c later t m).0
  current-filled now later ttl t q r m dg le a =
      current-cached later t (filled now ttl t q r m)
      ∙ ap (λ v. generation_of c v)
          (ground (
            arith,
            available-filled now ttl t q r m,
            cached-filled now later ttl t (search_generation_key t) q r m le a,
            key-ne t (current_generation c now t m).0 q dg,
            text_eq_iff (key_of sha256 t (current_generation c now t m).0 q)
                (search_generation_key t),
          ))
      ∙ sym (current-cached later t m)

  -- A response that was stored is validated as itself, marked as cached.
  hit-cacheable :
      (took : ℕ) (r : SearchResponse)
      → hit c model sha256 engine_search took
          (model.to_dict (cacheable c model sha256 engine_search r))
        ≡ ok (as_hit took r)
  unfolding cacheable marked
  hit-cacheable took r =
      let payload = insert (text "cached") (model.boolean false) (model.dump r) in
      let stored = model.validate_cached false (model.dump r) r (model.validate_dump r) in
      let again = model.validate_cached true payload (record r { cached = false }) stored in
      let timed =
        model.validate_took took (insert (text "cached") (model.boolean true) payload)
          (record r { cached = true }) again in
      rw (model.to_dict_object payload, timed) refl

  search_hit :
      (now took ttl : ℕ) (t : Text) (q : SearchQuery) (m : InMemoryCache c) (s : S)
      (r : SearchResponse)
      → m.available ≡ true
      → cached c now (key_of sha256 t (current_generation c now t m).0 q) m
        ≡ some (cacheable c model sha256 engine_search r)
      → (search c model sha256 engine_search now took ttl t q (m, s)).0 ≡ ok (as_hit took r)
  unfolding search
  search_hit now took ttl t q m s r a h =
      let key = key_of sha256 t (current_generation c now t m).0 q in
      let found = get_json-cached c now key (current_generation c now t m).1 in
      ground (
        arith,
        found,
        available-current c model sha256 engine_search now t m,
        cached-current c model sha256 engine_search now now t key m (le_refl now),
        hit-cacheable took r,
      )

  -- With the cache up, a search that missed and was answered by the engine serves an equal later
  -- search of the tenant, within the lifetime of the entry and while the generation reads the same:
  -- the same answer, marked as cached, whatever the engine would say. The digest is of 64
  -- characters without an n.
  pub search_refill :
      (now later took took' ttl ttl' : ℕ) (t : Text) (q : SearchQuery) (m : InMemoryCache c)
      (s s' s'' : S) (r : EngineResult)
      → IsDigest (sha256 (canonical q.text q.page q.size q.fuzzy q.highlight q.facets))
      → m.available ≡ true
      → Misses c model sha256 engine_search now t q m
      → now ≤ later
      → later ≤ now + seconds (jittered_ttl ttl)
      → (current_generation c later t m).0 ≡ (current_generation c now t m).0
      → engine_search q s ≡ (ok r, s')
      → (search c model sha256 engine_search later took' ttl' t q
          ((search c model sha256 engine_search now took ttl t q (m, s)).1.0, s'')).0
        ≡ ok (as_hit took' (response_of t q r))
  search_refill now later took took' ttl ttl' t q m s s' s'' r dg a h le until g f =
      let after = filled now ttl t q r m in
      let key = key_of sha256 t (current_generation c now t m).0 q in
      ap (λ x. (search c model sha256 engine_search later took' ttl' t q (x.1.0, s'')).0)
        (search_answered now took ttl t q m s s' r h f)
      ∙ search_hit later took' ttl' t q after s'' (response_of t q r)
          (available-filled now ttl t q r m ∙ a)
          (ap (λ n. cached c later (key_of sha256 t n q) after)
              (current-filled now later ttl t q r m dg le a ∙ g)
            ∙ stored-filled now later ttl t q r m le until a)

-- ===== src/Search/Fill.antt =====
-- What a search does that the cache knows nothing of.
use native.Mathlib.Nat.{le_refl}
use distributed_document_sea.Prelude.{ℕ, ◌≤◌, ◌≡◌, ◌∙◌, ap, Text, if◌then◌else◌, none, arith}
use distributed_document_sea.Errors.{Exn, Result, ok, err}
use distributed_document_sea.Cache.{Codec, InMemoryCache, get_json, set_json}
use distributed_document_sea.Cache.FailOpen.{
  cached, get_json-cached, cached-get_json, available-get_json,
}
use distributed_document_sea.Generation.{current_generation}
use distributed_document_sea.Keys.{search_generation_key}
use distributed_document_sea.Engine.{SearchQuery, EngineResult}
use distributed_document_sea.Search.{
  SearchModel, response_of, engine_error, key_of, jittered_ttl, execute, cacheable, single_flight,
  search, hit_or_flight, store_response, executed,
}

module _ (c : Codec) (model : SearchModel c) (sha256 : Text → Text) {S : Type 0}
    (engine_search : SearchQuery → S → Result EngineResult × S) where
  -- The cache says nothing of a query in the tenant's generation.
  abbrev pub Misses : ℕ → Text → SearchQuery → InMemoryCache c → Type 0
  Misses now t q m =
      (if m.available
        then cached c now (key_of sha256 t (current_generation c now t m).0 q) m
        else none)
      ≡ none

  -- The cache after the two reads of a search.
  abbrev pub after_reads : ℕ → Text → SearchQuery → InMemoryCache c → InMemoryCache c
  after_reads now t q m =
      (get_json c now (key_of sha256 t (current_generation c now t m).0 q)
        (current_generation c now t m).1).1

  pub cached-current :
      (now later : ℕ) (t : Text) (k : Text) (m : InMemoryCache c)
      → now ≤ later
      → cached c later k (current_generation c now t m).1 ≡ cached c later k m
  unfolding current_generation
  cached-current now later t k m le = cached-get_json c now later (search_generation_key t) k m le

  pub available-current :
      (now : ℕ) (t : Text) (m : InMemoryCache c)
      → (current_generation c now t m).1.available ≡ m.available
  unfolding current_generation
  available-current now t m = available-get_json c now (search_generation_key t) m

  missed :
      (now : ℕ) (t : Text) (q : SearchQuery) (m : InMemoryCache c)
      → Misses now t q m
      → (get_json c now
          (key_of sha256 t (current_generation c now t m).0 q)
          (current_generation c now t m).1).0
        ≡ none
  missed now t q m h = ground (
    arith,
    get_json-cached c now (key_of sha256 t (current_generation c now t m).0 q)
        (current_generation c now t m).1,
    available-current now t m,
    cached-current now now t (key_of sha256 t (current_generation c now t m).0 q) m (le_refl now),
  )

  pub search_miss :
      (now took ttl : ℕ) (t : Text) (q : SearchQuery) (m : InMemoryCache c) (s : S)
      → Misses now t q m
      → search c model sha256 engine_search now took ttl t q (m, s)
        ≡ single_flight c model sha256 engine_search now ttl
            (key_of sha256 t (current_generation c now t m).0 q)
            t
            q
            (after_reads now t q m, s)
  unfolding search
  search_miss now took ttl t q m s h =
      ap
        (λ v.
          hit_or_flight c model sha256 engine_search now took ttl
            (key_of sha256 t (current_generation c now t m).0 q) t q v (after_reads now t q m, s))
        (missed now t q m h)

  failed :
      (now ttl : ℕ) (key t : Text) (q : SearchQuery) (m : InMemoryCache c) (s : S) (e : Exn)
      → (engine_search q s).0 ≡ err e
      → single_flight c model sha256 engine_search now ttl key t q (m, s)
        ≡ (err (engine_error e), (m, (engine_search q s).1))
  unfolding single_flight execute
  failed now ttl key t q m s e f =
      ap
        (λ r.
          store_response c model sha256 engine_search now ttl key m
            (executed c model sha256 engine_search t q (r, (engine_search q s).1)))
        f

  pub served :
      (now ttl : ℕ) (key t : Text) (q : SearchQuery) (m : InMemoryCache c) (s s' : S)
      (r : EngineResult)
      → engine_search q s ≡ (ok r, s')
      → single_flight c model sha256 engine_search now ttl key t q (m, s) ≡ (
        ok (response_of t q r),
        (
          set_json c now key
              (cacheable c model sha256 engine_search (response_of t q r))
              (jittered_ttl ttl)
              m,
          s',
        ),
      )
  unfolding single_flight execute
  served now ttl key t q m s s' r f =
      ap
        (λ x.
          store_response c model sha256 engine_search now ttl key m
            (executed c model sha256 engine_search t q x))
        f

  -- If the engine fails on a search that the cache knows nothing of, the search fails, with the
  -- engine's own error if that says that a dependency is unavailable and otherwise with 503 for the
  -- search, and nothing is stored in the cache.
  pub search_failure :
      (now took ttl : ℕ) (t : Text) (q : SearchQuery) (m : InMemoryCache c) (s : S) (e : Exn)
      → Misses now t q m
      → (engine_search q s).0 ≡ err e
      → search c model sha256 engine_search now took ttl t q (m, s)
        ≡ (err (engine_error e), (after_reads now t q m, (engine_search q s).1))
  search_failure now took ttl t q m s e h f =
      search_miss now took ttl t q m s h
      ∙ failed now ttl (key_of sha256 t (current_generation c now t m).0 q) t q
          (after_reads now t q m) s e f

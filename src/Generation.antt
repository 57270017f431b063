-- ===== src/Generation.antt =====
-- doc-search/app/services/search_service.py, `current_generation` and `invalidate_tenant`: the
-- counter that namespaces the cached results of a tenant.
use distributed_document_sea.Prelude.{
  ℕ, ◌+◌, ◌≤◌, ◌≡◌, ◌⊎◌, inl, inr, sym, ap, ◌∙◌, Text, text_eq, text_eq_iff, if◌then◌else◌, true,
  false, Option, none, some, arith, Bool-cases,
}
use distributed_document_sea.Cache.{Codec, seconds, InMemoryCache, get_json, client_incr}
use distributed_document_sea.Cache.Store.{
  peek, peek_count, peek-incr, peek-incr_ne, incr-unavailable,
}
use distributed_document_sea.Cache.FailOpen.{
  cached, get_json-cached, and_then, available-client_incr,
}
use distributed_document_sea.Keys.{search_generation_key, document_key}
use distributed_document_sea.Keys.Isolation.{
  search_generation_key-injective, IsUuid, document_key-ne-generation_key,
}

abbrev pub or_zero : Option ℕ → ℕ
or_zero none = 0
or_zero (some n) = n

module _ (c : Codec) where
  open c use {Value, int_of, number, show, loads, loads_show, read_show, int_of_number, read}

  abbrev pub generation_of : Option Value → ℕ
  generation_of none = 0
  generation_of (some v) = or_zero (int_of v)

  -- `current_generation`: no value, or one that is no number, is generation 0.
  unfoldable pub current_generation : ℕ → Text → InMemoryCache c → ℕ × InMemoryCache c
  current_generation now tenant m =
      let (v, m') = get_json c now (search_generation_key tenant) m in (generation_of v, m')

  -- `invalidate_tenant`: a result of `None` is only logged.
  unfoldable pub invalidate_tenant : ℕ → Text → InMemoryCache c → InMemoryCache c
  invalidate_tenant now tenant m = (client_incr c now (search_generation_key tenant) m).1

  -- The counter of a tenant stands at `n`: it is absent and `n` is 0, or holds `n` in decimal.
  abbrev pub Counts : ℕ → Text → ℕ → InMemoryCache c → Type 0
  Counts now tenant n m =
      ((peek c now (search_generation_key tenant) m ≡ none) × (n ≡ 0))
      ⊎ (peek c now (search_generation_key tenant) m ≡ some (show n))

  Counts-peek_count :
      (now n : ℕ) (t : Text) (m : InMemoryCache c)
      → Counts now t n m
      → peek_count c now (search_generation_key t) m ≡ some n
  unfolding peek_count
  Counts-peek_count now n t m (inl h) = ground arith
  Counts-peek_count now n t m (inr h) = ground (arith, read_show n)

  current_generation-Counts :
      (now n : ℕ) (t : Text) (m : InMemoryCache c)
      → m.available ≡ true
      → Counts now t n m
      → (current_generation now t m).0 ≡ n
  unfolding current_generation cached
  current_generation-Counts now n t m a (inl h) =
      ground (arith, get_json-cached c now (search_generation_key t) m)
  current_generation-Counts now n t m a (inr h) =
      ground
        (arith, get_json-cached c now (search_generation_key t) m, loads_show n, int_of_number n)

  -- Two tenants share a generation key exactly if they are one.
  same_key :
      (t t' : Text) → text_eq (search_generation_key t) (search_generation_key t') ≡ text_eq t t'
  same_key t t' = ground (
    arith,
    text_eq_iff t t',
    text_eq_iff (search_generation_key t) (search_generation_key t'),
    ap search_generation_key {x = t} {y = t'},
    search_generation_key-injective t t',
  )

  pub available-invalidate :
      (now : ℕ) (t : Text) (m : InMemoryCache c)
      → (invalidate_tenant now t m).available ≡ m.available
  unfolding invalidate_tenant
  available-invalidate now t m = available-client_incr c now (search_generation_key t) m

  peek-invalidate :
      (now later n : ℕ) (t t' : Text) (m : InMemoryCache c)
      → now ≤ later
      → later ≤ now + seconds 86400
      → m.available ≡ true
      → Counts now t n m
      → peek c later (search_generation_key t') (invalidate_tenant now t m)
        ≡ (if text_eq t t' then some (show (n + 1)) else peek c later (search_generation_key t') m)
  unfolding invalidate_tenant client_incr
  peek-invalidate now later n t t' m le day a h = ground (
    arith,
    peek-incr c now later (search_generation_key t) (search_generation_key t') m n le a
        (Counts-peek_count now n t m h),
    same_key t t',
  )

  -- With the cache up, invalidating a tenant whose counter stands at n moves it to generation n + 1
  -- for a day, and leaves every other tenant at its own generation.
  pub invalidate_next :
      (now later n n' : ℕ) (t t' : Text) (m : InMemoryCache c)
      → now ≤ later
      → later ≤ now + seconds 86400
      → m.available ≡ true
      → Counts now t n m
      → Counts later t' n' m
      → (current_generation later t' (invalidate_tenant now t m)).0
        ≡ (if text_eq t t' then n + 1 else n')
  invalidate_next now later n n' t t' m le day a h h' =
      current_generation-Counts later _ t' (invalidate_tenant now t m)
        (available-invalidate now t m ∙ a)
        (elim (Bool-cases (text_eq t t')) [
          | inl same ↦ rw same (inr (rw (peek-invalidate now later n t t' m le day a h, same)))
          | inr other ↦ rw other (rw (peek-invalidate now later n t t' m le day a h, other) h')
        ])

  -- No entry of a document is touched, whatever the counter holds.
  pub cached-invalidate :
      (now later : ℕ) (t t' i : Text) (m : InMemoryCache c)
      → now ≤ later
      → IsUuid i
      → cached c later (document_key t' i) (invalidate_tenant now t m)
        ≡ cached c later (document_key t' i) m
  unfolding invalidate_tenant client_incr cached
  cached-invalidate now later t t' i m le u =
      ap (λ o. and_then o loads)
        (peek-incr_ne c now later (search_generation_key t) (document_key t' i) m le
          (λ e. document_key-ne-generation_key t' t i u (sym e)))

  pub invalidate_down :
      (now : ℕ) (t : Text) (m : InMemoryCache c)
      → m.available ≡ false
      → invalidate_tenant now t m ≡ m
  unfolding invalidate_tenant client_incr
  invalidate_down now t m a = ground (arith, incr-unavailable c now (search_generation_key t) m a)

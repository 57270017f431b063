-- ===== src/Cache.antt =====
-- doc-search/app/clients/cache.py: the in-memory backend and the fail-open client over it.
--
-- The backend stores strings. What those strings look like is the business of the standard JSON
-- codec: `Codec` names the raw strings `Raw` and the decoded values `Value`, with `json.dumps`,
-- `json.loads`, `str` and `int`, and the round trips that the client relies on.
pub mod Store
pub mod FailOpen
use distributed_document_sea.Prelude.{
  ℕ, zero, suc, ◌+◌, ◌*◌, ◌≡◌, Text, text, Dict, lookup, insert, erase, if◌then◌else◌, ltb, Bool,
  true, false, List, [], ◌∷◌, Option, none, some,
}
use distributed_document_sea.Errors.{Exn, other, Result, ok, err}

pub record Codec : Type 1 where
  pub Raw : Type 0
  pub Value : Type 0
  -- `json.dumps(value, default=str)`, and `json.loads`, `none` on `JSONDecodeError`
  pub dumps : Value → Raw
  pub loads : Raw → Option Value
  -- `str(n)`, and `int(raw or 0)`, `none` on `ValueError`
  pub show : ℕ → Raw
  pub read : Raw → Option ℕ
  -- a JSON number, and `int(value)`, `none` on `TypeError` or `ValueError`
  pub number : ℕ → Value
  pub int_of : Value → Option ℕ
  pub loads_dumps : (v : Value) → loads (dumps v) ≡ some v
  pub loads_show : (n : ℕ) → loads (show n) ≡ some (number n)
  pub int_of_number : (n : ℕ) → int_of (number n) ≡ some n
  pub read_show : (n : ℕ) → read (show n) ≡ some n

-- Clock readings are microseconds.
abbrev pub seconds : ℕ → ℕ
seconds n = n * 1000000

module _ (c : Codec) where
  open c use {Raw, Value, dumps, loads, show, read}

  -- `InMemoryCache`: a value with the time at which it expires.
  pub record InMemoryCache : Type 0 where
    pub store : Dict (Raw × ℕ)
    pub available : Bool
    pub set_calls : ℕ

  abbrev pub empty_cache : InMemoryCache
  empty_cache = record { store = []; available = true; set_calls = 0 }

  abbrev pub unavailable : Exn
  unavailable = other (text "cache unavailable")

  -- `_guard` before the rest of a method.
  abbrev pub guarded {ℓ} :
      {A : Type ℓ} → InMemoryCache → Result A × InMemoryCache → Result A × InMemoryCache
  guarded m rest = if m.available then rest else (err unavailable, m)

  abbrev fresh_entry :
      ℕ → Text → Option (Raw × ℕ) → InMemoryCache → Result (Option Raw) × InMemoryCache
  fresh_entry now key none m = (ok none, m)
  fresh_entry now key (some (value, expires_at)) m =
      if ltb expires_at now
      then (ok none, record m { store = erase key m.store })
      else (ok (some value), m)

  -- `InMemoryCache.get`
  unfoldable pub get : ℕ → Text → InMemoryCache → Result (Option Raw) × InMemoryCache
  get now key m = guarded m (fresh_entry now key (lookup key m.store) m)

  -- `InMemoryCache.set`
  unfoldable pub set : ℕ → Text → Raw → ℕ → InMemoryCache → Result (Unit {0}) × InMemoryCache
  set now key value ttl m = guarded m (
    ok tt,
    record m { store = insert key (value, now + seconds ttl) m.store; set_calls = m.set_calls + 1 },
  )

  unfoldable pub erase_all : List Text → Dict (Raw × ℕ) → Dict (Raw × ℕ)
  erase_all [] d = d
  erase_all (k ∷ ks) d = erase_all ks (erase k d)

  -- `InMemoryCache.delete`
  unfoldable pub delete : List Text → InMemoryCache → Result (Unit {0}) × InMemoryCache
  unfolding erase_all
  delete ks m = guarded m (ok tt, record m { store = erase_all ks m.store })

  -- The counter after `int(raw or 0) + 1`; a raw value that is no number raises.
  abbrev counted : ℕ → Text → Result (Option Raw) × InMemoryCache → Result ℕ × InMemoryCache
  counted now key (err e, m) = (err e, m)
  counted now key (ok none, m) = (ok 1, (set now key (show 1) 86400 m).1)
  counted now key (ok (some raw), m) = elim (read raw) [
    | none ↦ (err (other (text "ValueError")), m)
    | some n ↦ (ok (n + 1), (set now key (show (n + 1)) 86400 m).1)
  ]

  -- `InMemoryCache.incr`, which goes through `get` and `set` for a lifetime of a day.
  unfoldable pub incr : ℕ → Text → InMemoryCache → Result ℕ × InMemoryCache
  unfolding get set
  incr now key m = guarded m (counted now key (get now key m))

  -- `CacheClient.delete`
  unfoldable pub client_delete : List Text → InMemoryCache → InMemoryCache
  client_delete ks m = (delete ks m).1

  abbrev decoded : Text → Result (Option Raw) × InMemoryCache → Option Value × InMemoryCache
  decoded key (err e, m) = (none, m)
  decoded key (ok none, m) = (none, m)
  decoded key (ok (some raw), m) = elim (loads raw) [
    | none ↦ (none, client_delete (key ∷ []) m)
    | some v ↦ (some v, m)
  ]

  -- `CacheClient.get_json`: an error is a miss, and a value that does not decode is deleted.
  unfoldable pub get_json : ℕ → Text → InMemoryCache → Option Value × InMemoryCache
  get_json now key m = decoded key (get now key m)

  -- `CacheClient.set_json`: an error is swallowed.
  unfoldable pub set_json : ℕ → Text → Value → ℕ → InMemoryCache → InMemoryCache
  set_json now key v ttl m = (set now key (dumps v) ttl m).1

  abbrev result_or_none : Result ℕ → Option ℕ
  result_or_none (ok n) = some n
  result_or_none (err e) = none

  -- `CacheClient.incr`
  unfoldable pub client_incr : ℕ → Text → InMemoryCache → Option ℕ × InMemoryCache
  client_incr now key m = let (r, m') = incr now key m in (result_or_none r, m')

-- A pydantic model over the decoded values: `model_dump(mode="json")`, and `model_validate`, `none`
-- on `ValidationError`.
pub record Model (c : Codec) (A : Type 0) : Type 0 where
  pub dump : A → c.Value
  pub validate : c.Value → Option A
  pub validate_dump : (a : A) → validate (dump a) ≡ some a

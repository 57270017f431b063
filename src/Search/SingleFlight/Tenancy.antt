-- ===== src/Search/SingleFlight/Tenancy.antt =====
-- doc-search/app/services/search_service.py: whose results a coalesced search can get.
use mathlib.Core.Path.{subst}
use distributed_document_sea.Prelude.{
  ℕ, ==_iff, ◌≡◌, sym, ap, ◌∙◌, Text, length, take, Option, none, some, arith,
}
use distributed_document_sea.Keys.{canonical}
use distributed_document_sea.Keys.Isolation.{search_key_isolated}
use distributed_document_sea.Engine.{SearchQuery}
use distributed_document_sea.Search.{key_of}
use distributed_document_sea.Search.SingleFlight.{
  Phase, leading, led, cut, waiting, joined, Flights, put, no_flights, join_or_lead, enter, finish,
  cancel_leader, wake, cancel_waiter, Step, enters, finishes, leader_cancelled, wakes,
  waiter_cancelled, Reach, here, next,
}
use distributed_document_sea.Search.SingleFlight.Sharing.{reachable_flights}

module _ {R : Type 0} where
  -- The key that a task in the phase entered with.
  unfoldable pub entered_key : Phase R → Option Text
  entered_key (leading k) = some k
  entered_key (led k r) = some k
  entered_key (cut k) = some k
  entered_key (waiting k f) = some k
  entered_key (joined k f r) = some k
  entered_key _ = none

  module _ (key_for : ℕ → Text) where
    -- A task enters with its own key.
    abbrev pub IsOwnKey : {s u : Flights R} → Step s u → Type 0
    IsOwnKey (enters t key h) = key ≡ key_for t
    IsOwnKey _ = Unit

    pub data Run : Flights R → Type 0 where
      begin : Run no_flights
      continue : {s u : Flights R} → Run s → (st : Step s u) → IsOwnKey st → Run u

    Run-Reach : {s : Flights R} → Run s → Reach no_flights s
    Run-Reach begin = here
    Run-Reach (continue r st own) = next (Run-Reach r) st

    abbrev HasOwnKeys : Flights R → Type 0
    HasOwnKeys s = (t : ℕ) (k : Text) → entered_key (s.task t) ≡ some k → k ≡ key_for t

    join_or_lead-HasOwnKeys :
        (t : ℕ) (existing : Option ℕ) (s : Flights R)
        → HasOwnKeys s
        → HasOwnKeys (join_or_lead t (key_for t) existing s)
    unfolding join_or_lead put entered_key
    join_or_lead-HasOwnKeys t none s h u k e = ground (arith, ==_iff u t, h u k)
    join_or_lead-HasOwnKeys t (some l) s h u k e = ground (arith, ==_iff u t, h u k)

    Step-HasOwnKeys : {s u : Flights R} (st : Step s u) → IsOwnKey st → HasOwnKeys s → HasOwnKeys u
    unfolding enter finish cancel_leader wake cancel_waiter put entered_key
    Step-HasOwnKeys {s} (enters t key e) own h u k q =
        subst (λ j. HasOwnKeys (join_or_lead t j (s.inflight j) s)) (sym own)
          (join_or_lead-HasOwnKeys t (s.inflight (key_for t)) s h) u k q
    Step-HasOwnKeys (finishes t j r e) own h u k q = ground (arith, ==_iff u t, h u k, h t j)
    Step-HasOwnKeys (leader_cancelled t j e) own h u k q = ground (arith, ==_iff u t, h u k, h t j)
    Step-HasOwnKeys (wakes t j l r e d) own h u k q = ground (arith, ==_iff u t, h u k, h t j)
    Step-HasOwnKeys (waiter_cancelled t j l e) own h u k q = ground (arith, ==_iff u t, h u k)

    Run-HasOwnKeys : {s : Flights R} → Run s → HasOwnKeys s
    unfolding no_flights entered_key
    Run-HasOwnKeys begin = λ t k e. ground arith
    Run-HasOwnKeys (continue r st own) = Step-HasOwnKeys st own (Run-HasOwnKeys r)

-- What a task asks for: the search, with the generation that it has read.
pub record Asked : Type 0 where
  pub tenant_id : Text
  pub generation : ℕ
  pub query : SearchQuery

abbrev pub asked_key : (Text → Text) → Asked → Text
asked_key sha256 a = key_of sha256 a.tenant_id a.generation a.query

-- The text of the request that is hashed.
abbrev pub asked_text : Asked → Text
asked_text a =
    canonical a.query.text a.query.page a.query.size a.query.fuzzy a.query.highlight a.query.facets

module _ {R : Type 0} (sha256 : Text → Text)
    (hex_length : (s : Text) → length (sha256 s) ≡ 64) where
  -- If every task enters the single flight with the search key of what it asks for, then what a
  -- task gets from the flight of another is the outcome of that leader, and both asked for the same
  -- tenant, the same generation and the same first 24 characters of the digest of the request, for
  -- any digest of 64 characters.
  pub shared_within_tenant :
      (asked : ℕ → Asked) {s : Flights R}
      → Run (λ t. asked_key sha256 (asked t)) s
      → (t f : ℕ) (k : Text) (r : R) → s.task t ≡ joined k f r
      → (s.task f ≡ led k r)
        × ((asked t).tenant_id ≡ (asked f).tenant_id)
        × ((asked t).generation ≡ (asked f).generation)
        × (take 24 (sha256 (asked_text (asked t))) ≡ take 24 (sha256 (asked_text (asked f))))
  unfolding key_of entered_key
  shared_within_tenant asked {s} run t f k r h =
      let key_for : ℕ → Text = λ u. asked_key sha256 (asked u) in
      let leader = (reachable_flights (Run-Reach key_for run)).1 t f k r h in
      let own = Run-HasOwnKeys key_for run t k (ap (λ p. entered_key p) h) in
      let its = Run-HasOwnKeys key_for run f k (ap (λ p. entered_key p) leader) in
      let q = (asked t).query in
      let q' = (asked f).query in
      let (tenant, generation, digest) =
        search_key_isolated sha256 hex_length (asked t).tenant_id (asked f).tenant_id
          (asked t).generation (asked f).generation q.text q'.text q.page q'.page q.size q'.size
          q.fuzzy q'.fuzzy q.highlight q'.highlight q.facets q'.facets (sym own ∙ its) in
      (leader, tenant, generation, digest)

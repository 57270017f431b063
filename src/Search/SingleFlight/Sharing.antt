-- ===== src/Search/SingleFlight/Sharing.antt =====
-- doc-search/app/services/search_service.py: what tasks in `_single_flight` have of one another.
use distributed_document_sea.Prelude.{
  ℕ, ==_iff, ◌≡◌, ◌↔◌, refl, sym, ◌∙◌, Text, text_eq_iff, Option, none, some, arith,
}
use distributed_document_sea.Search.SingleFlight.{
  Phase, outside, leading, led, cut, waiting, joined, Flights, put, put_key, no_flights,
  join_or_lead, enter, settle, finish, cancel_leader, wake, cancel_waiter, Step, enters, finishes,
  leader_cancelled, wakes, waiter_cancelled, Reach, here, next,
}

module _ {R : Type 0} where
  -- The future of a task in the phase.
  unfoldable pub outcome : Phase R → Option R
  outcome (led k r) = some r
  outcome _ = none

  -- The key under which a task in the phase created its future.
  unfoldable pub flight_key : Phase R → Option Text
  flight_key (leading k) = some k
  flight_key (led k r) = some k
  flight_key (cut k) = some k
  flight_key _ = none

  pub record IsSound (s : Flights R) : Type 0 where
    pub leads : (t : ℕ) (k : Text) → (s.inflight k ≡ some t) ↔ (s.task t ≡ leading k)
    pub settled : (t : ℕ) → s.future t ≡ outcome (s.task t)
    pub waits : (t f : ℕ) (k : Text) → s.task t ≡ waiting k f → flight_key (s.task f) ≡ some k
    pub shares : (t f : ℕ) (k : Text) (r : R) → s.task t ≡ joined k f r → s.task f ≡ led k r

  join_or_lead-IsSound :
      (t : ℕ) (k : Text) (existing : Option ℕ) (s : Flights R)
      → s.inflight k ≡ existing
      → s.task t ≡ outside
      → IsSound s
      → IsSound (join_or_lead t k existing s)
  unfolding join_or_lead put put_key outcome flight_key
  join_or_lead-IsSound t k none s e h i = record {
    leads = λ u j. ground (arith, ==_iff u t, text_eq_iff j k, i.leads u j, i.leads t k);
    settled = λ u. ground (arith, ==_iff u t, i.settled u, i.settled t);
    waits = λ u f j w. ground (arith, ==_iff u t, ==_iff f t, i.waits u f j);
    shares = λ u f j q w. ground (arith, ==_iff u t, ==_iff f t, i.shares u f j q);
  }
  join_or_lead-IsSound t k (some l) s e h i = record {
    leads = λ u j. ground (arith, ==_iff u t, i.leads u j);
    settled = λ u. ground (arith, ==_iff u t, i.settled u, i.settled t);
    waits = λ u f j w. ground (arith, ==_iff u t, ==_iff f t, i.waits u f j, i.leads l k);
    shares = λ u f j q w. ground (arith, ==_iff u t, ==_iff f t, i.shares u f j q);
  }

  finish-IsSound :
      (t : ℕ) (k : Text) (r : R) (s : Flights R)
      → s.task t ≡ leading k
      → IsSound s
      → IsSound (finish t k r s)
  unfolding finish put put_key outcome flight_key settle
  finish-IsSound t k r s h i = record {
    leads = λ u j. ground (arith, ==_iff u t, text_eq_iff j k, i.leads u j, i.leads t k);
    settled = λ u. ground (arith, ==_iff u t, i.settled u, i.settled t);
    waits = λ u f j w. ground (arith, ==_iff u t, ==_iff f t, i.waits u f j);
    shares = λ u f j q w. ground (arith, ==_iff u t, ==_iff f t, i.shares u f j q);
  }

  cancel_leader-IsSound :
      (t : ℕ) (k : Text) (s : Flights R)
      → s.task t ≡ leading k
      → IsSound s
      → IsSound (cancel_leader t k s)
  unfolding cancel_leader put put_key outcome flight_key
  cancel_leader-IsSound t k s h i = record {
    leads = λ u j. ground (arith, ==_iff u t, text_eq_iff j k, i.leads u j, i.leads t k);
    settled = λ u. ground (arith, ==_iff u t, i.settled u, i.settled t);
    waits = λ u f j w. ground (arith, ==_iff u t, ==_iff f t, i.waits u f j);
    shares = λ u f j q w. ground (arith, ==_iff u t, ==_iff f t, i.shares u f j q);
  }

  done_led :
      (p : Phase R) (k : Text) (r : R) → flight_key p ≡ some k → outcome p ≡ some r → p ≡ led k r
  unfolding flight_key outcome
  done_led p k r f o = ground arith

  wake-IsSound :
      (t : ℕ) (k : Text) (f : ℕ) (r : R) (s : Flights R)
      → s.task t ≡ waiting k f
      → s.future f ≡ some r
      → IsSound s
      → IsSound (wake t k f r s)
  unfolding wake put outcome flight_key
  wake-IsSound t k f r s h d i =
      let done = done_led (s.task f) k r (i.waits t f k h) (sym (i.settled f) ∙ d) in
      record {
        leads = λ u j. ground (arith, ==_iff u t, i.leads u j);
        settled = λ u. ground (arith, ==_iff u t, i.settled u, i.settled t);
        waits = λ u g j w. ground (arith, ==_iff u t, ==_iff g t, i.waits u g j);
        shares = λ u g j q w. ground (arith, ==_iff u t, ==_iff g t, i.shares u g j q);
      }

  cancel_waiter-IsSound :
      (t : ℕ) (k : Text) (f : ℕ) (s : Flights R)
      → s.task t ≡ waiting k f
      → IsSound s
      → IsSound (cancel_waiter t s)
  unfolding cancel_waiter put outcome flight_key
  cancel_waiter-IsSound t k f s h i = record {
    leads = λ u j. ground (arith, ==_iff u t, i.leads u j);
    settled = λ u. ground (arith, ==_iff u t, i.settled u, i.settled t);
    waits = λ u g j w. ground (arith, ==_iff u t, ==_iff g t, i.waits u g j);
    shares = λ u g j q w. ground (arith, ==_iff u t, ==_iff g t, i.shares u g j q);
  }

  Step-IsSound : {s u : Flights R} → Step s u → IsSound s → IsSound u
  unfolding enter
  Step-IsSound {s} (enters t k h) i = join_or_lead-IsSound t k (s.inflight k) s refl h i
  Step-IsSound {s} (finishes t k r h) i = finish-IsSound t k r s h i
  Step-IsSound {s} (leader_cancelled t k h) i = cancel_leader-IsSound t k s h i
  Step-IsSound {s} (wakes t k f r h d) i = wake-IsSound t k f r s h d i
  Step-IsSound {s} (waiter_cancelled t k f h) i = cancel_waiter-IsSound t k f s h i

  pub no_flights-IsSound : IsSound no_flights
  unfolding no_flights outcome
  no_flights-IsSound = record {
    leads = λ t k. ground arith;
    settled = λ t. refl;
    waits = λ t f k h. ground arith;
    shares = λ t f k r h. ground arith;
  }

  pub Reach-IsSound : {s u : Flights R} → IsSound s → Reach s u → IsSound u
  Reach-IsSound i here = i
  Reach-IsSound i (next r st) = Step-IsSound st (Reach-IsSound i r)

  -- However tasks enter the single flight, finish, are cancelled and are woken: at any time a key
  -- has at most one leader; the table names, for a key, the leader of that key, whose future is
  -- pending; and whatever a waiting task got is the outcome that the leader of its own key returned
  -- or raised.
  pub reachable_flights :
      {s : Flights R}
      → Reach no_flights s
      → ((t u : ℕ) (k : Text) → s.task t ≡ leading k → s.task u ≡ leading k → t ≡ u)
        × ((t f : ℕ) (k : Text) (r : R) → s.task t ≡ joined k f r → s.task f ≡ led k r)
        × ((k : Text) (f : ℕ)
            → s.inflight k ≡ some f
            → (s.task f ≡ leading k) × (s.future f ≡ none))
  unfolding outcome
  reachable_flights {s} r =
      let i = Reach-IsSound no_flights-IsSound r in
      (
        λ t u k h g. ground (arith, i.leads t k, i.leads u k),
        i.shares,
        λ k f h. ground (arith, i.leads f k, i.settled f),
      )

-- ===== src/Search/SingleFlight/Orphans.antt =====
-- doc-search/app/services/search_service.py: the tasks that wait for a cancelled leader.
use distributed_document_sea.Prelude.{
  ℕ, ==_iff, ◌≡◌, ◌≢◌, ◌⊎◌, inl, inr, Text, Option, none, some, arith,
}
use distributed_document_sea.Search.SingleFlight.{
  Phase, outside, cut, waiting, gone, Flights, put, no_flights, join_or_lead, enter, finish,
  cancel_leader, wake, cancel_waiter, Step, enters, finishes, leader_cancelled, wakes,
  waiter_cancelled, Reach, here, next,
}
use distributed_document_sea.Search.SingleFlight.Sharing.{
  outcome, IsSound, Reach-IsSound, no_flights-IsSound,
}

module _ {R : Type 0} where
  join_or_lead-cut :
      (t : ℕ) (j : Text) (existing : Option ℕ) (s : Flights R) (f : ℕ) (k : Text)
      → s.task t ≡ outside
      → s.task f ≡ cut k
      → (join_or_lead t j existing s).task f ≡ cut k
  unfolding join_or_lead put
  join_or_lead-cut t j none s f k h c = ground (arith, ==_iff f t)
  join_or_lead-cut t j (some l) s f k h c = ground (arith, ==_iff f t)

  Step-cut : {s u : Flights R} (f : ℕ) (k : Text) → Step s u → s.task f ≡ cut k → u.task f ≡ cut k
  unfolding enter finish cancel_leader wake cancel_waiter put
  Step-cut {s} f k (enters t j h) c = join_or_lead-cut t j (s.inflight j) s f k h c
  Step-cut f k (finishes t j r h) c = ground (arith, ==_iff f t)
  Step-cut f k (leader_cancelled t j h) c = ground (arith, ==_iff f t)
  Step-cut f k (wakes t j l r h d) c = ground (arith, ==_iff f t)
  Step-cut f k (waiter_cancelled t j l h) c = ground (arith, ==_iff f t)

  Reach-cut : {s u : Flights R} (f : ℕ) (k : Text) → Reach s u → s.task f ≡ cut k → u.task f ≡ cut k
  Reach-cut f k here c = c
  Reach-cut f k (next r st) c = Step-cut f k st (Reach-cut f k r c)

  join_or_lead-waiting :
      (t : ℕ) (j : Text) (existing : Option ℕ) (s : Flights R) (w : ℕ) (p : Phase R)
      → s.task t ≡ outside
      → s.task w ≡ p
      → p ≢ outside
      → (join_or_lead t j existing s).task w ≡ p
  unfolding join_or_lead put
  join_or_lead-waiting t j none s w p h c n = ground (arith, ==_iff w t)
  join_or_lead-waiting t j (some l) s w p h c n = ground (arith, ==_iff w t)

  -- Waiting for the future, or cancelled.
  abbrev pub IsUnanswered : Text → ℕ → Phase R → Type 0
  IsUnanswered k f p = (p ≡ waiting k f) ⊎ (p ≡ gone)

  Step-IsUnanswered :
      {s u : Flights R} (w f : ℕ) (k : Text)
      → IsSound s
      → s.task f ≡ cut k
      → Step s u
      → IsUnanswered k f (s.task w)
      → IsUnanswered k f (u.task w)
  unfolding enter finish cancel_leader wake cancel_waiter put outcome
  Step-IsUnanswered {s} w f k i c (enters t j h) (inl e) =
      inl (join_or_lead-waiting t j (s.inflight j) s w (waiting k f) h e (λ q. ground arith))
  Step-IsUnanswered {s} w f k i c (enters t j h) (inr e) =
      inr (join_or_lead-waiting t j (s.inflight j) s w gone h e (λ q. ground arith))
  Step-IsUnanswered w f k i c (finishes t j r h) e = ground (arith, ==_iff w t)
  Step-IsUnanswered w f k i c (leader_cancelled t j h) e = ground (arith, ==_iff w t)
  Step-IsUnanswered w f k i c (wakes t j l r h d) e = ground (arith, ==_iff w t, i.settled f)
  Step-IsUnanswered w f k i c (waiter_cancelled t j l h) e = ground (arith, ==_iff w t)

  Reach-IsUnanswered :
      {s u : Flights R} (w f : ℕ) (k : Text)
      → IsSound s
      → s.task f ≡ cut k
      → IsUnanswered k f (s.task w)
      → Reach s u
      → IsUnanswered k f (u.task w)
  Reach-IsUnanswered w f k i c e here = e
  Reach-IsUnanswered w f k i c e (next r st) =
      Step-IsUnanswered w f k (Reach-IsSound i r) (Reach-cut f k r c) st
        (Reach-IsUnanswered w f k i c e r)

  -- A task that waits for the future of a leader which was cancelled is never answered: whatever
  -- happens from then on, it still waits or was cancelled itself.
  pub orphan_unanswered :
      {s u : Flights R} (w f : ℕ) (k : Text)
      → Reach no_flights s
      → s.task w ≡ waiting k f
      → s.task f ≡ cut k
      → Reach s u
      → (u.task w ≡ waiting k f) ⊎ (u.task w ≡ gone)
  orphan_unanswered w f k r e c later =
      Reach-IsUnanswered w f k (Reach-IsSound no_flights-IsSound r) c (inl e) later

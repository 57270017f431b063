-- ===== src/Tests/Flights.antt =====
-- Three tasks in the single flight.
use distributed_document_sea.Keys.{search_key, canonical}
use distributed_document_sea.Search.{key_of}
use distributed_document_sea.Engine.{SearchQuery}
use distributed_document_sea.Search.SingleFlight.Tenancy.{
  Asked, asked_key, asked_text, begin, continue, shared_within_tenant,
}
use distributed_document_sea.Prelude.{
  false, decimal, take, ℕ, ◌≡◌, ◌⊎◌, refl, Text, text, text_eq, none, some, true,
}
use distributed_document_sea.Search.SingleFlight.{
  outside, leading, led, cut, waiting, joined, gone, Flights, put, put_key, no_flights,
  join_or_lead, enter, cancel_leader, Reach, here, next, enters, leader_cancelled, finish, wake,
  finishes, wakes, settle,
}
use distributed_document_sea.Search.SingleFlight.Sharing.{reachable_flights}
use distributed_document_sea.Search.SingleFlight.Orphans.{orphan_unanswered}

abbrev query : SearchQuery
query = record {
  tenant_id = text "acme";
  text = text "report";
  page = 1;
  size = 10;
  fuzzy = false;
  highlight = true;
  facets = false;
}

-- Every task asks for the same.
abbrev asked : ℕ → Asked
asked t = record { tenant_id = text "acme"; generation = 2; query = query }

abbrev digest : Text → Text
digest s = text "0123456789abcdef0123456789abcdef0123456789abcdef0123456789abcdef"

abbrev key : Text
key = asked_key digest (asked 0)

abbrev led_by_zero : Flights ℕ
led_by_zero = enter 0 key no_flights

abbrev joined_by_one : Flights ℕ
joined_by_one = enter 1 key led_by_zero

abbrev start : Flights ℕ
start = no_flights

zero_outside : start.task 0 ≡ outside
unfolding no_flights
zero_outside = refl

one_outside : led_by_zero.task 1 ≡ outside
unfolding no_flights enter join_or_lead put
one_outside = refl

zero_leads : joined_by_one.task 0 ≡ leading key
unfolding no_flights enter join_or_lead put put_key text_eq key_of search_key canonical decimal
zero_leads = refl

one_waits : (cancel_leader 0 key joined_by_one).task 1 ≡ waiting key 0
unfolding no_flights enter join_or_lead put put_key text_eq key_of search_key canonical decimal
    cancel_leader
one_waits = refl

zero_cut : (cancel_leader 0 key joined_by_one).task 0 ≡ cut key
unfolding cancel_leader put
zero_cut = refl

abbrev both : Reach no_flights joined_by_one
both = next (next here (enters 0 key zero_outside)) (enters 1 key one_outside)

reachable_flights_example :
    ((t u : ℕ) (k : Text)
      → joined_by_one.task t ≡ leading k
      → joined_by_one.task u ≡ leading k
      → t ≡ u)
    × ((t f : ℕ) (k : Text) (r : ℕ)
        → joined_by_one.task t ≡ joined k f r
        → joined_by_one.task f ≡ led k r)
    × ((k : Text) (f : ℕ)
        → joined_by_one.inflight k ≡ some f
        → (joined_by_one.task f ≡ leading k) × (joined_by_one.future f ≡ none))
reachable_flights_example = reachable_flights both

orphan_unanswered_example :
    let s = cancel_leader 0 key joined_by_one in (s.task 1 ≡ waiting key 0) ⊎ (s.task 1 ≡ gone)
orphan_unanswered_example =
    orphan_unanswered 1 0 key (next both (leader_cancelled 0 key zero_leads)) one_waits zero_cut
      here

abbrev finished : Flights ℕ
finished = finish 0 key 7 joined_by_one

abbrev woken : Flights ℕ
woken = wake 1 key 0 7 finished

still_waits : finished.task 1 ≡ waiting key 0
unfolding no_flights enter join_or_lead put put_key text_eq key_of search_key canonical decimal
    finish
still_waits = refl

is_done : finished.future 0 ≡ some 7
unfolding no_flights enter join_or_lead put put_key text_eq key_of search_key canonical decimal
    finish settle
is_done = refl

one_joined : woken.task 1 ≡ joined key 0 7
unfolding wake put
one_joined = refl

shared_within_tenant_example :
    (woken.task 0 ≡ led key 7)
    × (text "acme" ≡ text "acme")
    × (let n : ℕ = 2 in n ≡ n)
    × (take 24 (digest (asked_text (asked 1))) ≡ take 24 (digest (asked_text (asked 0))))
shared_within_tenant_example =
    shared_within_tenant digest (λ s. refl) asked
      (continue
        (continue
          (continue (continue begin (enters 0 key zero_outside) refl) (enters 1 key one_outside)
            refl)
          (finishes 0 key 7 zero_leads) tt)
        (wakes 1 key 0 7 still_waits is_done) tt)
      1 0 key 7 one_joined

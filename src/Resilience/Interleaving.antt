-- ===== src/Resilience/Interleaving.antt =====
-- The breaker under concurrent calls: tasks start and settle in any order.
use distributed_document_sea.Prelude.{ℕ, ◌+◌, ◌-◌, ◌≤◌, ◌<◌, ◌≡◌, ◌≢◌, ◌↔◌, Text, arith}
use distributed_document_sea.Errors.{ok, err, raise_unavailable}
use distributed_document_sea.Resilience.{
  closed, CircuitBreaker, init, state_value, before_call, on_success, on_failure,
}

-- The calls that were let through and have not settled, and the clock.
pub record Shared : Type 0 where
  pub breaker : CircuitBreaker
  pub in_flight : ℕ
  pub clock : ℕ

pub data Step (s : Shared) : Shared → Type 0 where
  wait : (n : ℕ) → Step s (record s { clock = s.clock + n })
  start :
      (before_call s.clock s.breaker).0 ≡ ok tt
      → Step s
          (record s { breaker = (before_call s.clock s.breaker).1; in_flight = s.in_flight + 1 })
  refuse :
      (before_call s.clock s.breaker).0 ≡ err (raise_unavailable s.breaker.name)
      → Step s (record s { breaker = (before_call s.clock s.breaker).1 })
  succeed :
      0 < s.in_flight
      → Step s (record s { breaker = on_success s.breaker; in_flight = s.in_flight - 1 })
  fail :
      0 < s.in_flight
      → Step s (record s { breaker = on_failure s.clock s.breaker; in_flight = s.in_flight - 1 })
  -- the call raised `DependencyUnavailableError`, or was cancelled
  leave : 0 < s.in_flight → Step s (record s { in_flight = s.in_flight - 1 })

pub data Reach (s : Shared) : Shared → Type 0 where
  here : Reach s s
  next : {t u : Shared} → Reach s t → Step t u → Reach s u

-- What the breaker's fields say of one another.
pub record IsConsistent (b : CircuitBreaker) : Type 0 where
  pub positive : 0 < b.failure_threshold
  pub closed_below : b.state ≡ closed → b.failures < b.failure_threshold
  pub tripped : b.state ≢ closed → b.failure_threshold ≤ b.failures
  pub mirrored : b.gauge ≡ state_value b.state

pub before_call-IsConsistent :
    (now : ℕ) (b : CircuitBreaker) → IsConsistent b → IsConsistent (before_call now b).1
unfolding before_call
before_call-IsConsistent now b h = ground arith

pub on_success-IsConsistent : (b : CircuitBreaker) → IsConsistent b → IsConsistent (on_success b)
unfolding on_success
on_success-IsConsistent b h = ground arith

pub on_failure-IsConsistent :
    (now : ℕ) (b : CircuitBreaker) → IsConsistent b → IsConsistent (on_failure now b)
unfolding on_failure
on_failure-IsConsistent now b h = ground arith

Step-IsConsistent : {s t : Shared} → Step s t → IsConsistent s.breaker → IsConsistent t.breaker
Step-IsConsistent (wait n) h = h
Step-IsConsistent {s} (start e) h = before_call-IsConsistent s.clock s.breaker h
Step-IsConsistent {s} (refuse e) h = before_call-IsConsistent s.clock s.breaker h
Step-IsConsistent {s} (succeed p) h = on_success-IsConsistent s.breaker h
Step-IsConsistent {s} (fail p) h = on_failure-IsConsistent s.clock s.breaker h
Step-IsConsistent (leave p) h = h

Reach-IsConsistent : {s t : Shared} → IsConsistent s.breaker → Reach s t → IsConsistent t.breaker
Reach-IsConsistent h here = h
Reach-IsConsistent h (next r st) = Step-IsConsistent st (Reach-IsConsistent h r)

abbrev pub fresh : Text → ℕ → ℕ → Shared
fresh name threshold recovery = record {
  breaker = init name threshold recovery;
  in_flight = 0;
  clock = 0;
}

-- However concurrent calls start, settle or are abandoned and time passes, a breaker with a
-- positive threshold is closed exactly if its failures are below the threshold, and its gauge shows
-- its state.
pub reachable_breaker :
    (name : Text) (threshold recovery : ℕ) {t : Shared}
    → 0 < threshold
    → Reach (fresh name threshold recovery) t
    → ((t.breaker.state ≡ closed) ↔ (t.breaker.failures < t.breaker.failure_threshold))
      × (t.breaker.gauge ≡ state_value t.breaker.state)
unfolding init state_value
reachable_breaker name threshold recovery {t} p r =
    ground (arith, Reach-IsConsistent {s = fresh name threshold recovery} (ground arith) r)

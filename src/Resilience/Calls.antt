-- ===== src/Resilience/Calls.antt =====
-- What a whole `call` does, on each branch, and how failures open the circuit.
use distributed_document_sea.Prelude.{
  ℕ, ◌+◌, ◌-◌, ◌≤◌, ◌<◌, ◌≡◌, refl, arith, List, [], ◌∷◌, length, if◌then◌else◌,
}
use distributed_document_sea.Errors.{Result, ok, err, raise_unavailable, is_unavailable}
use distributed_document_sea.Resilience.{
  closed, opened, CircuitBreaker, set_state, on_failure, call, CircuitState, half_open,
}

-- What a probe of a half-open circuit leaves.
abbrev pub after_probe : {A : Type 0} → Result A → CircuitState
after_probe (ok a) = closed
after_probe (err e) = if is_unavailable e then half_open else opened

abbrev pub count_after : {A : Type 0} → Result A → ℕ → ℕ
count_after (ok a) n = 0
count_after (err e) n = if is_unavailable e then n else n + 1

abbrev pub opened_after : {A : Type 0} → Result A → ℕ → ℕ → ℕ
opened_after (ok a) end before = before
opened_after (err e) end before = if is_unavailable e then before else end

module _ {S A : Type 0} (fn : S → Result A × S) where
  -- Inside the recovery window an open breaker refuses a call: the function is not run, nothing
  -- changes, and the error names the dependency.
  pub call_refused :
      (start end : ℕ) (s : S) (b : CircuitBreaker)
      → b.state ≡ opened
      → start - b.opened_at < b.recovery
      → call start end fn s b ≡ (err (raise_unavailable b.name), s, b)
  unfolding call
  call_refused start end s b o w = ground arith

  -- After the recovery window an open breaker runs the function and passes its result on: a success
  -- closes it and clears the count, a failure opens it again at the time of the failure, and an
  -- error that says that a dependency is unavailable leaves it half open.
  pub call_after_window :
      (start end : ℕ) (s : S) (b : CircuitBreaker)
      → b.state ≡ opened
      → b.recovery ≤ start - b.opened_at
      → let out = call start end fn s b in
        (out.0 ≡ (fn s).0)
        × (out.1 ≡ (fn s).1)
        × (out.2.state ≡ after_probe (fn s).0)
        × (out.2.failures ≡ count_after (fn s).0 b.failures)
        × (out.2.opened_at ≡ opened_after (fn s).0 end b.opened_at)
  unfolding call set_state is_unavailable
  call_after_window start end s b o w = ground arith

-- A run of failures, given by their times.
unfoldable pub fail_all : List ℕ → CircuitBreaker → CircuitBreaker
fail_all [] b = b
fail_all (t ∷ ts) b = fail_all ts (on_failure t b)

on_failure_counts :
    (t : ℕ) (b : CircuitBreaker)
    → b.state ≡ closed
    → b.failures + 1 < b.failure_threshold
    → ((on_failure t b).state ≡ closed)
      × ((on_failure t b).failures ≡ b.failures + 1)
      × ((on_failure t b).failure_threshold ≡ b.failure_threshold)
unfolding on_failure
on_failure_counts t b c h = ground arith

-- Fewer failures in a row than the threshold leave a closed circuit closed.
pub fail_all_below :
    (ts : List ℕ) (b : CircuitBreaker)
    → b.state ≡ closed
    → b.failures + length ts < b.failure_threshold
    → ((fail_all ts b).state ≡ closed)
      × ((fail_all ts b).failures ≡ b.failures + length ts)
      × ((fail_all ts b).failure_threshold ≡ b.failure_threshold)
unfolding fail_all
fail_all_below [] b c h = (c, omega arith, refl)
fail_all_below (t ∷ ts) b c h =
    let (c', f', k') = on_failure_counts t b c (omega arith) in
    let (d, e, f) = fail_all_below ts (on_failure t b) c' (omega arith) in
    (d, omega arith, omega arith)

-- From a closed breaker without failures, one failure less than the threshold in a row leaves it
-- closed, and the next one opens it at the time of that failure.
pub threshold_opens :
    (ts : List ℕ) (t : ℕ) (b : CircuitBreaker)
    → b.state ≡ closed
    → b.failures ≡ 0
    → length ts + 1 ≡ b.failure_threshold
    → ((fail_all ts b).state ≡ closed)
      × ((on_failure t (fail_all ts b)).state ≡ opened)
      × ((on_failure t (fail_all ts b)).opened_at ≡ t)
unfolding on_failure
threshold_opens ts t b c z h = ground (arith, fail_all_below ts b c)

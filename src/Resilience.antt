-- ===== src/Resilience.antt =====
-- doc-search/app/core/resilience.py: the circuit breaker and the retry loop. Times are natural
-- numbers of one unit; the asyncio lock makes each of the three breaker methods one atomic step.
pub mod Interleaving
pub mod Calls
pub mod Retries
use distributed_document_sea.Prelude.{
  ℕ, zero, suc, ◌+◌, ◌-◌, ◌*◌, ◌^◌, ◌≡◌, refl, min, Text, text, if◌then◌else◌, leb, ◌==◌, Bool,
  true, false, ◌||◌, not, List, [], ◌∷◌,
}
use distributed_document_sea.Errors.{Exn, other, Result, ok, err, raise_unavailable, is_unavailable}

-- `CircuitState`; `open` is a keyword.
pub data CircuitState : Type 0 where
  closed opened half_open : CircuitState

-- `_STATE_VALUE`
unfoldable pub state_value : CircuitState → ℕ
state_value closed = 0
state_value half_open = 1
state_value opened = 2

-- `gauge` is the value of the metric `circuit_breaker_state` for this dependency.
pub record CircuitBreaker : Type 0 where
  pub name : Text
  pub failure_threshold : ℕ
  pub recovery : ℕ
  pub failures : ℕ
  pub opened_at : ℕ
  pub state : CircuitState
  pub gauge : ℕ

unfoldable pub init : Text → ℕ → ℕ → CircuitBreaker
init name failure_threshold recovery = record {
  name = name;
  failure_threshold = failure_threshold;
  recovery = recovery;
  failures = 0;
  opened_at = 0;
  state = closed;
  gauge = 0;
}

unfoldable pub set_state : CircuitState → CircuitBreaker → CircuitBreaker
unfolding state_value
set_state s b = record b { state = s; gauge = state_value s }

-- `_before_call`
abbrev before_call_at : CircuitState → ℕ → CircuitBreaker → Result (Unit {0}) × CircuitBreaker
before_call_at opened now b =
    if leb b.recovery (now - b.opened_at)
    then (ok tt, set_state half_open b)
    else (err (raise_unavailable b.name), b)
before_call_at _ now b = (ok tt, b)

unfoldable pub before_call : ℕ → CircuitBreaker → Result (Unit {0}) × CircuitBreaker
unfolding set_state
before_call now b = before_call_at b.state now b

-- `_on_success`
unfoldable pub on_success : CircuitBreaker → CircuitBreaker
unfolding set_state
on_success b = set_state closed (record b { failures = 0 })

-- `self._state is CircuitState.HALF_OPEN`
abbrev pub is_half_open : CircuitState → Bool
is_half_open half_open = true
is_half_open _ = false

-- `_on_failure`
unfoldable pub on_failure : ℕ → CircuitBreaker → CircuitBreaker
unfolding set_state
on_failure now b =
    let b' = record b { failures = b.failures + 1 } in
    if is_half_open b.state || leb b.failure_threshold (b.failures + 1)
    then set_state opened (record b' { opened_at = now })
    else b'

-- What follows the call of `fn` in `call`.
abbrev settle : {A : Type 0} → ℕ → Result A → CircuitBreaker → CircuitBreaker
settle now (ok a) b = on_success b
settle now (err e) b = if is_unavailable e then b else on_failure now b

module _ {S A : Type 0} where
  abbrev admitted :
      Result (Unit {0})
      → ℕ
      → (S → Result A × S)
      → S
      → CircuitBreaker
      → Result A × S × CircuitBreaker
  admitted (err e) end fn s b = (err e, s, b)
  admitted (ok _) end fn s b = let (r, s') = fn s in (r, s', settle end r b)

  -- `call`: `start` and `end` are the clock before `fn` and after it; `fn` acts on a state `S`.
  unfoldable pub call :
      ℕ → ℕ → (S → Result A × S) → S → CircuitBreaker → Result A × S × CircuitBreaker
  unfolding before_call on_success on_failure
  call start end fn s b = let (r, b') = before_call start b in admitted r end fn s b'

-- `min(max_delay, base_delay * (2 ** (attempt - 1)))`
unfoldable pub backoff : ℕ → ℕ → ℕ → ℕ
backoff base_delay max_delay attempt = min max_delay (base_delay * 2 ^ (attempt - 1))

-- `retry_on` says which exceptions are retried, and `uniform i d` is the `i`-th draw of
-- `random.uniform(0, d)`.
module _ {S A : Type 0} (retry_on : Exn → Bool) (uniform : ℕ → ℕ → ℕ)
    (base_delay max_delay : ℕ) where
  -- The loop from `attempt` on, with `left` rounds to go after this one. The sleeps are returned.
  unfoldable pub retry_loop : ℕ → ℕ → (S → Result A × S) → S → Result A × S × List ℕ
  unfolding backoff
  retry_loop zero attempt fn s = let (r, s') = fn s in (r, s', [])
  retry_loop (suc left) attempt fn s =
      let (r, s') = fn s in
      let slept = uniform attempt (backoff base_delay max_delay attempt) in
      let rest = retry_loop left (attempt + 1) fn s' in
      elim r [
        | ok a ↦ (ok a, s', [])
        | err e ↦ if retry_on e then (rest.0, rest.1, slept ∷ rest.2) else (err e, s', [])
      ]

  -- `with_retry`; with no attempt at all the assertion fails.
  unfoldable pub with_retry : ℕ → (S → Result A × S) → S → Result A × S × List ℕ
  unfolding retry_loop
  with_retry zero fn s = (err (other (text "AssertionError")), s, [])
  with_retry (suc left) fn s = retry_loop left 1 fn s

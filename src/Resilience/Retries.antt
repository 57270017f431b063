-- ===== src/Resilience/Retries.antt =====
-- doc-search/app/core/resilience.py: the attempts and sleeps of `with_retry`, and what it returns.
use distributed_document_sea.Prelude.{
  ℕ, zero, suc, ◌+◌, ◌<◌, ◌≤◌, All, ◌≡◌, ◌⊎◌, inl, inr, refl, sym, Bool, true, false, arith, List,
  [], ◌∷◌, length, Bool-cases,
}
use distributed_document_sea.Errors.{Exn, Result, ok, err}
use distributed_document_sea.Resilience.{backoff, retry_loop, with_retry}

module _ {S A : Type 0} (fn : S → Result A × S) where
  -- The state before attempt `k`, counted from 0, when all before it have run.
  abbrev pub before_attempt : ℕ → S → S
  before_attempt zero s = s
  before_attempt (suc k) s = before_attempt k (fn s).1

  abbrev pub attempt : ℕ → S → Result A
  attempt k s = (fn (before_attempt k s)).0

-- Attempt `k` is the last of `n`: it succeeds, it fails in a way that is not retried, or no
-- attempt is left.
abbrev pub IsLast : {A : Type 0} → (Exn → Bool) → ℕ → ℕ → Result A → Type 0
IsLast retry_on k n (ok a) = Unit
IsLast retry_on k n (err e) = (retry_on e ≡ false) ⊎ (k + 1 ≡ n)

abbrev pub IsRetried : {A : Type 0} → (Exn → Bool) → Result A → Type 0
IsRetried retry_on (ok a) = ⊥
IsRetried retry_on (err e) = retry_on e ≡ true

pub Result-cases : {A : Type 0} (r : Result A) → ((a : A) × (r ≡ ok a)) ⊎ ((e : Exn) × (r ≡ err e))
Result-cases (ok a) = inl (a, refl)
Result-cases (err e) = inr (e, refl)

IsLast-end : {A : Type 0} (retry_on : Exn → Bool) (r : Result A) → IsLast retry_on 0 1 r
IsLast-end retry_on (ok a) = tt
IsLast-end retry_on (err e) = inr refl

module _ {S A : Type 0} (retry_on : Exn → Bool) (uniform : ℕ → ℕ → ℕ) (base_delay max_delay : ℕ)
    (fn : S → Result A × S) where
  -- The outcome `out` of a loop with at most `n` attempts from `s`.
  pub record Outcome (n : ℕ) (s : S) (out : Result A × S × List ℕ) : Type 0 where
    pub last : ℕ
    pub within : last < n
    pub result : out.0 ≡ attempt fn last s
    pub state : out.1 ≡ before_attempt fn (suc last) s
    pub sleeps : length out.2 ≡ last
    pub stopped : IsLast retry_on last n (attempt fn last s)
    pub retried : (j : ℕ) → j < last → IsRetried retry_on (attempt fn j s)

  abbrev run : ℕ → ℕ → S → Result A × S × List ℕ
  run left i s = retry_loop retry_on uniform base_delay max_delay left i fn s

  run_ok :
      (left i : ℕ) (s : S) {a : A} → (fn s).0 ≡ ok a → run (suc left) i s ≡ (ok a, (fn s).1, [])
  unfolding retry_loop
  run_ok left i s e = ground arith

  run_stop :
      (left i : ℕ) (s : S) {x : Exn}
      → (fn s).0 ≡ err x
      → retry_on x ≡ false
      → run (suc left) i s ≡ (err x, (fn s).1, [])
  unfolding retry_loop
  run_stop left i s e h = ground arith

  run_again :
      (left i : ℕ) (s : S) {x : Exn}
      → (fn s).0 ≡ err x
      → retry_on x ≡ true
      → run (suc left) i s ≡ (
        (run left (i + 1) (fn s).1).0,
        (run left (i + 1) (fn s).1).1,
        uniform i (backoff base_delay max_delay i) ∷ (run left (i + 1) (fn s).1).2,
      )
  unfolding retry_loop
  run_again left i s e h = ground arith

  Outcome-first :
      (n : ℕ) (s : S) (r : Result A)
      → (fn s).0 ≡ r
      → IsLast retry_on 0 (suc n) r
      → Outcome (suc n) s (r, (fn s).1, [])
  Outcome-first n s r e l = record {
    last = 0;
    within = omega arith;
    result = sym e;
    state = refl;
    sleeps = refl;
    stopped = rw e l;
    retried = λ j h. elim h [ ];
  }

  IsLast-suc : (k n : ℕ) (r : Result A) → IsLast retry_on k n r → IsLast retry_on (suc k) (suc n) r
  IsLast-suc k n (ok a) h = tt
  IsLast-suc k n (err e) h = ground arith

  Outcome-later :
      (n : ℕ) (s : S) (out : Result A × S × List ℕ) (slept : ℕ) {x : Exn}
      → (fn s).0 ≡ err x
      → retry_on x ≡ true
      → Outcome n (fn s).1 out
      → Outcome (suc n) s (out.0, out.1, slept ∷ out.2)
  Outcome-later n s out slept e h o = record {
    last = suc o.last;
    within = omega arith;
    result = o.result;
    state = o.state;
    sleeps = omega arith;
    stopped = IsLast-suc o.last n (attempt fn o.last (fn s).1) o.stopped;
    retried = elim [ zero ↦ λ p. rw e h | suc j ↦ λ p. o.retried j (omega arith) ];
  }

  retry_loop-Outcome : (left i : ℕ) (s : S) → Outcome (suc left) s (run left i s)
  unfolding retry_loop
  retry_loop-Outcome zero i s = Outcome-first 0 s (fn s).0 refl (IsLast-end retry_on (fn s).0)
  retry_loop-Outcome (suc left) i s = elim (Result-cases (fn s).0) [
    | inl (a, e) ↦ rw (run_ok left i s e) (Outcome-first (suc left) s (ok a) e tt)
    | inr (x, e) ↦ elim (Bool-cases (retry_on x)) [
      | inl again ↦
          rw (run_again left i s e again)
            (Outcome-later (suc left) s _ _ e again (retry_loop-Outcome left (i + 1) (fn s).1))
      | inr stop ↦ rw (run_stop left i s e stop) (Outcome-first (suc left) s (err x) e (inl stop))
    ]
  ]

  -- With at least one attempt, a retry loop returns the result of its last attempt, which
  -- succeeded, failed in a way that is not retried, or was the last allowed; every attempt before
  -- it failed in a way that is retried, and there was one sleep after each of those.
  pub with_retry-Outcome :
      (n : ℕ) (s : S)
      → 0 < n
      → Outcome n s (with_retry retry_on uniform base_delay max_delay n fn s)
  unfolding with_retry
  with_retry-Outcome zero s h = elim h [ ]
  with_retry-Outcome (suc n) s h = retry_loop-Outcome n 1 s

  run_sleeps :
      ((i d : ℕ) → uniform i d ≤ d)
      → (left i : ℕ) (s : S) → All (λ d. d ≤ max_delay) (run left i s).2
  unfolding retry_loop
  run_sleeps law zero i s = tt
  run_sleeps law (suc left) i s = elim (Result-cases (fn s).0) [
    | inl (a, e) ↦ rw (run_ok left i s e) tt
    | inr (x, e) ↦ elim (Bool-cases (retry_on x)) [
      | inl again ↦ rw (run_again left i s e again) (
        unfold backoff in omega (arith, law i (backoff base_delay max_delay i)),
        run_sleeps law left (i + 1) (fn s).1,
      )
      | inr stop ↦ rw (run_stop left i s e stop) tt
    ]
  ]

  -- If a draw does not exceed its bound, no sleep of a retry loop exceeds the maximal delay.
  pub sleeps_bounded :
      ((i d : ℕ) → uniform i d ≤ d)
      → (n : ℕ) (s : S)
      → All (λ d. d ≤ max_delay) (with_retry retry_on uniform base_delay max_delay n fn s).2
  unfolding with_retry
  sleeps_bounded law zero s = tt
  sleeps_bounded law (suc n) s = run_sleeps law n 1 s

-- ===== src/Prelude/Splits.antt =====
-- When two joined lists are equal: cut by the length of the tail, or at the last of a symbol.
use mathlib.Core.Path.{◌≡◌, refl, ap}
use mathlib.Core.Logic.{◌≢◌}
use mathlib.Core.List.{List, [], ◌∷◌, ◌++◌}
use native.Mathlib.Omega.{arith}
use distributed_document_sea.Prelude.Lists.{All, length, length-append}

module _ {ℓ} {A : Type ℓ} where
  pub append_cancel :
      (xs ys xs' ys' : List A)
      → xs ++ ys ≡ xs' ++ ys'
      → length ys ≡ length ys'
      → (xs ≡ xs') × (ys ≡ ys')
  append_cancel [] ys [] ys' e h = (refl, e)
  append_cancel [] ys (x ∷ xs') ys' e h =
      absurd (omega (arith, ap length e, length-append {ℓ} xs' ys'))
  append_cancel (x ∷ xs) ys [] ys' e h =
      absurd (omega (arith, ap length e, length-append {ℓ} xs ys))
  append_cancel (x ∷ xs) ys (x' ∷ xs') ys' e h =
      let (p, q) = append_cancel xs ys xs' ys' (cc) h in (cc, q)

  not-All_append : (c : A) (xs ys : List A) → ¬ All (λ d. d ≢ c) (xs ++ c ∷ ys)
  not-All_append c [] ys h = h.0 refl
  not-All_append c (x ∷ xs) ys h = not-All_append c xs ys h.1

  -- The tails hold no `c`, so both lists are cut at their last `c`.
  pub cut_last :
      (c : A) (xs ys xs' ys' : List A)
      → All (λ d. d ≢ c) ys
      → All (λ d. d ≢ c) ys'
      → xs ++ c ∷ ys ≡ xs' ++ c ∷ ys'
      → (xs ≡ xs') × (ys ≡ ys')
  cut_last c [] ys [] ys' h h' e = (refl, cc)
  cut_last c [] ys (x ∷ xs') ys' h h' e =
      absurd (not-All_append c xs' ys' (let p : ys ≡ xs' ++ c ∷ ys' = cc in rw p at h))
  cut_last c (x ∷ xs) ys [] ys' h h' e =
      absurd (not-All_append c xs ys (let p : ys' ≡ xs ++ c ∷ ys = cc in rw p at h'))
  cut_last c (x ∷ xs) ys (x' ∷ xs') ys' h h' e =
      let (p, q) = cut_last c xs ys xs' ys' h h' (cc) in (cc, q)

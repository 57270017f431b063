-- ===== src/Keys/Isolation.antt =====
-- doc-search/app/services/cache_keys.py: when two keys can be equal.
use mathlib.Core.List.{append_assoc}
use distributed_document_sea.Prelude.{
  ℕ, ◌≡◌, ◌≢◌, refl, ap, sym, ◌∙◌, Text, text, Bool, [], ◌∷◌, ◌++◌, length, take, All, All-imp,
  length-take, decimal, decimal-injective, decimal-All, IsDigit, append_cancel, cut_last, arith,
}
use distributed_document_sea.Keys.{
  search_generation_key, canonical, search_key, document_key, rate_limit_key,
}

decimal-without_g : (n : ℕ) → All (λ d. d ≢ b'g') (decimal n)
decimal-without_g n =
    All-imp IsDigit (λ d. d ≢ b'g') (λ d p e. omega arith) (decimal n) (decimal-All n)

tail_eq : (c : ℕ) (d d' : Text) → c ∷ d ≡ c ∷ d' → d ≡ d'
tail_eq c d d' e = cc

-- The text of a search key, cut where the proof cuts it.
search_text : (t g d : Text) → Text
search_text t g d = ((t ++ text ":search:") ++ b'g' ∷ g) ++ b':' ∷ d

search_text-eq :
    (t g d : Text)
    → text "t:" ++ (t ++ (text ":search:g" ++ (g ++ (text ":" ++ d))))
      ≡ text "t:" ++ search_text t g d
unfolding search_text
search_text-eq t g d = simp append_assoc

search_text-injective :
    (t t' : Text) (g g' : ℕ) (d d' : Text)
    → length d ≡ length d'
    → search_text t (decimal g) d ≡ search_text t' (decimal g') d'
    → (t ≡ t') × (g ≡ g') × (d ≡ d')
unfolding search_text
search_text-injective t t' g g' d d' l e =
    let l' : length (b':' ∷ d) ≡ length (b':' ∷ d') = omega arith in
    let (front, tail) = append_cancel _ _ _ _ e l' in
    let (scope, number) =
      cut_last b'g' _ _ _ _ (decimal-without_g g) (decimal-without_g g') front in
    let (tenant, _) = append_cancel t (text ":search:") t' (text ":search:") scope refl in
    (tenant, decimal-injective g g' number, tail_eq b':' d d' tail)

module _ (sha256 : Text → Text) (hex_length : (s : Text) → length (sha256 s) ≡ 64) where
  length-digest : (s : Text) → length (take 24 (sha256 s)) ≡ 24
  length-digest s = omega (arith, length-take {0} 24 (sha256 s), hex_length s)

  -- Two search keys are equal only if they have the same tenant, the same generation and the same
  -- first 24 characters of the digest of the request, for any digest of 64 characters.
  pub search_key_isolated :
      (t t' : Text) (g g' : ℕ) (q q' : Text) (p p' s s' : ℕ) (f f' h h' a a' : Bool)
      → search_key sha256 t g q p s f h a ≡ search_key sha256 t' g' q' p' s' f' h' a'
      → (t ≡ t')
        × (g ≡ g')
        × (take 24 (sha256 (canonical q p s f h a))
            ≡ take 24 (sha256 (canonical q' p' s' f' h' a')))
  unfolding search_key
  search_key_isolated t t' g g' q q' p p' s s' f f' h h' a a' e =
      search_text-injective t t' g g' _ _
        (length-digest (canonical q p s f h a) ∙ sym (length-digest (canonical q' p' s' f' h' a')))
        (let e' : text "t:" ++ search_text t (decimal g) (take 24 (sha256 (canonical q p s f h a)))
              ≡ text "t:"
                ++ search_text t' (decimal g') (take 24 (sha256 (canonical q' p' s' f' h' a'))) =
            sym (search_text-eq t (decimal g) _) ∙ e ∙ search_text-eq t' (decimal g') _ in
          cc)

-- Two document keys with ids of the same length are equal only if tenant and id are.
pub document_key_isolated :
    (t t' d d' : Text)
    → length d ≡ length d'
    → document_key t d ≡ document_key t' d'
    → (t ≡ t') × (d ≡ d')
unfolding document_key
document_key_isolated t t' d d' l e =
    let e' : (t ++ text ":doc:") ++ d ≡ (t' ++ text ":doc:") ++ d' =
      append_assoc t (text ":doc:") d ∙ (cc) ∙ sym (append_assoc t' (text ":doc:") d') in
    let (front, tail) = append_cancel _ _ _ _ e' l in
    let (tenant, _) = append_cancel t (text ":doc:") t' (text ":doc:") front refl in (tenant, tail)

pub search_generation_key-injective :
    (t t' : Text) → search_generation_key t ≡ search_generation_key t' → t ≡ t'
unfolding search_generation_key
search_generation_key-injective t t' e =
    (append_cancel t (text ":search:gen") t' (text ":search:gen") (cc) refl).0

-- Two buckets of the rate limiter whose names hold no colon are one only if tenant and name agree.
pub rate_limit_key_isolated :
    (t t' b b' : Text)
    → All (λ d. d ≢ b':') b
    → All (λ d. d ≢ b':') b'
    → rate_limit_key t b ≡ rate_limit_key t' b'
    → (t ≡ t') × (b ≡ b')
unfolding rate_limit_key
rate_limit_key_isolated t t' b b' h h' e = cut_last b':' t b t' b' h h' (cc)

ends_ne :
    (c : ℕ) (xs : Text) (y : ℕ) (ys zs : Text)
    → All (λ d. d ≢ c) (y ∷ ys)
    → xs ++ y ∷ ys ≢ zs ++ c ∷ []
ends_ne c xs y [] zs h e = let (_, last) = append_cancel xs (y ∷ []) zs (c ∷ []) e refl in h.0 (cc)
ends_ne c xs y (y' ∷ ys) zs h e =
    ends_ne c (xs ++ y ∷ []) y' ys zs h.1 (append_assoc xs (y ∷ []) (y' ∷ ys) ∙ e)

-- What the proofs need of the canonical text of a uuid: it has 36 characters, none of them an `n`.
abbrev pub IsUuid : Text → Type 0
IsUuid i = (length i ≡ 36) × All (λ c. c ≢ b'n') i

-- No document is stored under a generation key, whichever the tenants.
pub document_key-ne-generation_key :
    (t t' i : Text) → IsUuid i → document_key t i ≢ search_generation_key t'
unfolding document_key search_generation_key
document_key-ne-generation_key t t' [] u e = absurd (omega (arith, u.0))
document_key-ne-generation_key t t' (y ∷ i) u e =
    ends_ne b'n' (t ++ text ":doc:") y i (t' ++ text ":search:ge") u.1 (
      append_assoc t (text ":doc:") (y ∷ i)
      ∙ (cc)
      ∙ sym (append_assoc t' (text ":search:ge") (text "n")))

-- No result of a search is stored under a generation key, if its digest holds no `n`.
pub search_key-ne-generation_key :
    (t t' : Text) (g y : ℕ) (d : Text)
    → All (λ c. c ≢ b'n') (y ∷ d)
    → text "t:" ++ (t ++ (text ":search:g" ++ (decimal g ++ (text ":" ++ (y ∷ d)))))
      ≢ search_generation_key t'
unfolding search_generation_key
search_key-ne-generation_key t t' g y d h e =
    ends_ne b'n' (t ++ (text ":search:g" ++ (decimal g ++ text ":"))) y d (t' ++ text ":search:ge")
      h
      (append_assoc t (text ":search:g" ++ (decimal g ++ text ":")) (y ∷ d)
        ∙ ap (λ x. t ++ (text ":search:g" ++ x)) (append_assoc (decimal g) (text ":") (y ∷ d))
        ∙ (cc)
        ∙ sym (append_assoc t' (text ":search:ge") (text "n")))

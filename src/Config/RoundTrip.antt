-- ===== src/Config/RoundTrip.antt =====
-- doc-search/app/core/config.py: a list of tenants that is written out and parsed.
use distributed_document_sea.Prelude.{
  ℕ, ◌≤◌, inl, inr, length, Bool-cases, ◌≡◌, ◌≢◌, refl, ap, ◌∙◌, Text, false, List, [], ◌∷◌, ◌++◌,
  some, All, arith,
}
use distributed_document_sea.Keys.{is_space, lstrip, rstrip, strip}
use distributed_document_sea.Config.{split, split_once, stripped_pair, pairs_of, seeded_tenants}

-- The symbol is not in the text.
abbrev pub IsFree : ℕ → Text → Type 0
IsFree ch s = All (λ x. x ≢ ch) s

-- No space at either end.
abbrev pub IsTrimmed : Text → Type 0
IsTrimmed s = (lstrip s ≡ s) × (rstrip s ≡ s)

-- An id without comma and colon and a key without comma, both trimmed.
abbrev pub IsPlain : Text × Text → Type 0
IsPlain (tenant_id, api_key) =
    IsFree b',' tenant_id
    × IsFree b':' tenant_id
    × IsTrimmed tenant_id
    × IsFree b',' api_key
    × IsTrimmed api_key

abbrev pub written_pair : Text × Text → Text
written_pair (tenant_id, api_key) = tenant_id ++ b':' ∷ api_key

-- The pairs as the setting has them.
unfoldable pub written : List (Text × Text) → Text
written [] = []
written (p ∷ []) = written_pair p
written (p ∷ q ∷ pairs) = written_pair p ++ b',' ∷ written (q ∷ pairs)

split-free : (ch : ℕ) (s : Text) → IsFree ch s → split ch s ≡ s ∷ []
unfolding split
split-free ch [] h = refl
split-free ch (x ∷ s) h = ground (arith, split-free ch s h.1)

split-append :
    (ch : ℕ) (s rest : Text) → IsFree ch s → split ch (s ++ ch ∷ rest) ≡ s ∷ split ch rest
unfolding split
split-append ch [] rest h = ground arith
split-append ch (x ∷ s) rest h = ground (arith, split-append ch s rest h.1)

split_once-append :
    (ch : ℕ) (s rest : Text) → IsFree ch s → split_once ch (s ++ ch ∷ rest) ≡ some (s, rest)
unfolding split_once
split_once-append ch [] rest h = ground arith
split_once-append ch (x ∷ s) rest h = ground (arith, split_once-append ch s rest h.1)

IsFree-append :
    (ch x : ℕ) (s t : Text) → x ≢ ch → IsFree ch s → IsFree ch t → IsFree ch (s ++ x ∷ t)
IsFree-append ch x [] t n h k = (n, k)
IsFree-append ch x (y ∷ s) t n h k = (h.0, IsFree-append ch x s t n h.1 k)

-- A text that ends in a trimmed text after a symbol that is no space.
rstrip-append :
    (ch : ℕ) (s t : Text) → is_space ch ≡ false → rstrip t ≡ t → rstrip (s ++ ch ∷ t) ≡ s ++ ch ∷ t
unfolding rstrip
rstrip-append ch [] [] n h = ground arith
rstrip-append ch [] (x ∷ t) n h = rw h refl
rstrip-append ch (x ∷ []) t n h = rw (rstrip-append ch [] t n h) refl
rstrip-append ch (x ∷ y ∷ s) t n h = rw (rstrip-append ch (y ∷ s) t n h) refl

length-lstrip : (s : Text) → length (lstrip s) ≤ length s
unfolding lstrip
length-lstrip [] = omega arith
length-lstrip (x ∷ s) = ground (arith, length-lstrip s)

trimmed_head : (x : ℕ) (s : Text) → lstrip (x ∷ s) ≡ x ∷ s → is_space x ≡ false
unfolding lstrip
trimmed_head x s h = elim (Bool-cases (is_space x)) [
  | inl space ↦ absurd (
      let e : lstrip s ≡ x ∷ s = (rw space at h) in
      omega (arith, ap (λ v. length v) e, length-lstrip s))
  | inr none_there ↦ none_there
]

lstrip-append :
    (ch : ℕ) (s t : Text) → is_space ch ≡ false → lstrip s ≡ s → lstrip (s ++ ch ∷ t) ≡ s ++ ch ∷ t
unfolding lstrip
lstrip-append ch [] t n h = ground arith
lstrip-append ch (x ∷ s) t n h = rw (trimmed_head x s h) refl

strip-written_pair :
    (tenant_id api_key : Text)
    → IsTrimmed tenant_id
    → IsTrimmed api_key
    → strip (written_pair (tenant_id, api_key)) ≡ written_pair (tenant_id, api_key)
unfolding strip is_space
strip-written_pair tenant_id api_key h k =
    ap (λ v. rstrip v) (lstrip-append b':' tenant_id api_key refl h.0)
    ∙ rstrip-append b':' tenant_id api_key refl k.1

pairs_of-written_pair :
    (p : Text × Text) (pieces : List Text)
    → IsPlain p
    → pairs_of (written_pair p ∷ pieces) ≡ p ∷ pairs_of pieces
unfolding pairs_of strip
pairs_of-written_pair (tenant_id, api_key) pieces
      (no_comma, no_colon, trimmed, no_comma', trimmed') =
    ap (λ v. stripped_pair (split_once b':' v) (pairs_of pieces))
      (strip-written_pair tenant_id api_key trimmed trimmed')
    ∙ ap (λ o. stripped_pair o (pairs_of pieces))
        (split_once-append b':' tenant_id api_key no_colon)
    ∙ ap (λ q. q ∷ pairs_of pieces) (simp (trimmed.0, trimmed.1, trimmed'.0, trimmed'.1))

IsFree-written_pair : (p : Text × Text) → IsPlain p → IsFree b',' (written_pair p)
IsFree-written_pair (tenant_id, api_key) (no_comma, no_colon, trimmed, no_comma', trimmed') =
    IsFree-append b',' b':' tenant_id api_key (ground arith) no_comma no_comma'

-- A list of at least one pair of a tenant id and a key, without spaces at their ends, without
-- commas, and the ids without colons, is parsed back from the setting that joins each pair by a
-- colon and the pairs by commas.
pub seeded_tenants-written :
    (p : Text × Text) (pairs : List (Text × Text))
    → All IsPlain (p ∷ pairs)
    → seeded_tenants (written (p ∷ pairs)) ≡ p ∷ pairs
unfolding seeded_tenants written
seeded_tenants-written p [] h =
    ap (λ pieces. pairs_of pieces) (split-free b',' (written_pair p) (IsFree-written_pair p h.0))
    ∙ pairs_of-written_pair p [] h.0
seeded_tenants-written p (q ∷ pairs) h =
    ap (λ pieces. pairs_of pieces)
      (split-append b',' (written_pair p) (written (q ∷ pairs)) (IsFree-written_pair p h.0))
    ∙ pairs_of-written_pair p (split b',' (written (q ∷ pairs))) h.0
    ∙ ap (λ rest. p ∷ rest) (seeded_tenants-written q pairs h.1)

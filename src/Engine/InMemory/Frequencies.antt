-- ===== src/Engine/InMemory/Frequencies.antt =====
-- doc-search/app/clients/inmemory_engine.py: the frequencies that a score is made of.
use distributed_document_sea.Engine.InMemory.Scores.{IsFrequency, small}
use distributed_document_sea.Prelude.{
  ℕ, zero, suc, ◌*◌, ◌≤◌, ◌<◌, max, ◌≡◌, ◌⊎◌, inl, inr, refl, Text, length, true, false, List, [],
  ◌∷◌, arith, filter, Bool, ◌||◌, All, ◌+◌,
}
use distributed_document_sea.Documents.{listed}
use distributed_document_sea.Engine.InMemory.Search.{
  Analysed, occurrences, term_frequency, matches, document_frequency, is_zero,
}
use distributed_document_sea.Engine.InMemory.Isolation.{HasAll}

listed-occurrences :
    (t : Text) (tokens : List Text) → listed tokens t ≡ true → 0 < occurrences t tokens
unfolding occurrences listed
listed-occurrences t [] h = ground arith
listed-occurrences t (s ∷ tokens) h = ground (arith, listed-occurrences t tokens)

pub HasAll-matches :
    (docs : List Analysed) (a : Analysed) (terms : List Text)
    → HasAll terms a
    → length (matches docs a terms) ≡ length terms
unfolding matches term_frequency
HasAll-matches docs a [] h = refl
HasAll-matches docs a (t ∷ terms) h = ground (
  arith,
  HasAll-matches docs a terms h.1,
  listed-occurrences t a.title_tokens,
  listed-occurrences t a.content_tokens,
)

-- A document of a length that its term frequencies are small.
abbrev pub IsShort : Analysed → Type 0
IsShort a = length a.title_tokens * 3 + length a.content_tokens ≤ small

occurrences-le : (t : Text) (tokens : List Text) → occurrences t tokens ≤ length tokens
unfolding occurrences
occurrences-le t [] = omega arith
occurrences-le t (s ∷ tokens) = ground (arith, occurrences-le t tokens)

length-filter {ℓ} : {A : Type ℓ} (p : A → Bool) (xs : List A) → length (filter p xs) ≤ length xs
unfolding filter
length-filter p [] = omega arith
length-filter p (x ∷ xs) = ground (arith, length-filter p xs)

term_frequency-small : (a : Analysed) (t : Text) → IsShort a → term_frequency a t ≤ small
unfolding term_frequency
term_frequency-small a t short =
    omega (arith, occurrences-le t a.title_tokens, occurrences-le t a.content_tokens)

document_frequency-le :
    (t : Text) (docs : List Analysed) → document_frequency t docs ≤ max (length docs) 1
unfolding document_frequency
document_frequency-le t docs =
    omega (arith, length-filter (λ a. listed a.title_tokens t || listed a.content_tokens t) docs)

zero_or_positive : (n : ℕ) → (is_zero n ≡ true) ⊎ ((is_zero n ≡ false) × (0 < n))
zero_or_positive zero = inl refl
zero_or_positive (suc n) = inr (refl, omega arith)

-- What a document matches has positive frequencies, and is among the documents.
pub matches-IsFrequency :
    (docs : List Analysed) (a : Analysed) (terms : List Text)
    → IsShort a
    → All (IsFrequency (max (length docs) 1)) (matches docs a terms)
unfolding matches
matches-IsFrequency docs a [] short = tt
matches-IsFrequency docs a (t ∷ terms) short =
    let rest = matches-IsFrequency docs a terms short in
    let rare = term_frequency-small a t short in
    let among = document_frequency-le t docs in
    elim (zero_or_positive (term_frequency a t)) [
      | inl none_there ↦ rw none_there rest
      | inr (zero_not, has) ↦ rw zero_not ((has, rare, among), rest)
    ]

-- ===== src/Engine/InMemory/Tokens.antt =====
-- doc-search/app/clients/inmemory_engine.py: `tokenize`, and the tolerance of one typing error.
use distributed_document_sea.Prelude.{
  ℕ, ◌+◌, ◌-◌, ◌==◌, leb, ltb, Text, text, text_eq, length, filter, if◌then◌else◌, Bool, true,
  false, not, ◌&&◌, ◌||◌, List, [], ◌∷◌, ◌++◌, Option, none, some,
}
use distributed_document_sea.Documents.{listed}
use distributed_document_sea.Keys.{map_lower}

-- `[a-z0-9]`
unfoldable pub is_token_char : ℕ → Bool
is_token_char c = (leb b'a' c && leb c b'z') || (leb b'0' c && leb c b'9')

abbrev closed : Text → List Text → List Text
closed [] tokens = tokens
closed (c ∷ word) tokens = (c ∷ word) ∷ tokens

-- `TOKEN_RE.findall`: the longest runs; `word` is the run that is open.
unfoldable pub find_all : (word s : Text) → List Text
unfolding is_token_char
find_all word [] = closed word []
find_all word (c ∷ s) =
    let longer = find_all (word ++ c ∷ []) s in
    let next = closed word (find_all [] s) in if is_token_char c then longer else next

-- `STOPWORDS`
abbrev pub stopwords : List Text
stopwords =
    text "the"
    ∷ text "a"
    ∷ text "an"
    ∷ text "of"
    ∷ text "and"
    ∷ text "or"
    ∷ text "to"
    ∷ text "in"
    ∷ text "is"
    ∷ text "it"
    ∷ text "for"
    ∷ text "on"
    ∷ []

-- `tokenize`
unfoldable pub tokenize : Text → List Text
unfolding find_all
tokenize s = filter (λ t. not (listed stopwords t)) (find_all [] (map_lower s))

-- How many positions of two texts of one length differ.
unfoldable pub differences : Text → Text → ℕ
differences [] b = 0
differences (x ∷ a) [] = 0
differences (x ∷ a) (y ∷ b) = let rest = differences a b in if x == y then rest else rest + 1

-- The loop over the shorter and the longer text, with the flag `skipped`.
unfoldable pub align : Bool → (shorter longer : Text) → Bool
align skipped [] longer = true
align skipped (x ∷ shorter) [] = true
align skipped (x ∷ shorter) (y ∷ longer) =
    let same = align skipped shorter longer in
    let skip = align true (x ∷ shorter) longer in
    if x == y then same else if skipped then false else skip

-- `_edit_distance_at_most_one`
unfoldable pub edit_distance_at_most_one : Text → Text → Bool
unfolding differences align
edit_distance_at_most_one a b =
    if text_eq a b
    then true
    else if length a == length b
    then differences a b == 1
    else if ltb (length a) (length b)
    then align false a b
    else align false b a

abbrev shorter_than : Text → Option Text → Bool
shorter_than candidate none = true
shorter_than candidate (some best) = ltb (length candidate) (length best)

-- `abs(len(candidate) - len(term)) > 1`
abbrev pub is_far : Text → Text → Bool
is_far candidate term = ltb 1 ((length candidate - length term) + (length term - length candidate))

-- One round of the loop of `_closest`.
unfoldable pub closer : Text → Text → Option Text → Option Text
closer term candidate best =
    if is_far candidate term
    then best
    else if edit_distance_at_most_one term candidate && shorter_than candidate best
    then some candidate
    else best

-- `_closest`, over the vocabulary in the order in which the set is iterated.
unfoldable pub closest_from : Text → List Text → Option Text → Option Text
unfolding closer
closest_from term [] best = best
closest_from term (candidate ∷ vocabulary) best =
    closest_from term vocabulary (closer term candidate best)

unfoldable pub closest : Text → List Text → Option Text
unfolding closest_from
closest term vocabulary = closest_from term vocabulary none

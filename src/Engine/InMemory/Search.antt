-- ===== src/Engine/InMemory/Search.antt =====
-- doc-search/app/clients/inmemory_engine.py: `search`.
--
-- Python's floats are the parameter `floats` of Scores, and `rounded` is `round(score, 6)`. `iterate`
-- is the order in which a set with the given words is gone through.
use distributed_document_sea.Engine.InMemory.Scores.{Floats, weigh}
use distributed_document_sea.Prelude.{
  ℕ, zero, suc, ◌+◌, ◌*◌, ◌==◌, leb, ltb, max, Text, text, text_eq, Dict, lookup, insert, length,
  take, drop, filter, if◌then◌else◌, Bool, true, false, not, ◌&&◌, ◌||◌, List, [], ◌∷◌, ◌++◌, map,
  Option, none, some,
}
use distributed_document_sea.Errors.{other, Result, ok, err}
use distributed_document_sea.Documents.{listed}
use distributed_document_sea.Engine.{SearchQuery, offset, EngineHit, EngineResult}
use distributed_document_sea.Engine.InMemory.{StoredDoc, InMemorySearchEngine}
use distributed_document_sea.Engine.InMemory.Tokens.{tokenize, closest}
use distributed_document_sea.Engine.InMemory.Snippets.{to_hit}

-- A document of the tenant with the tokens of its title and of its content.
pub record Analysed : Type 0 where
  pub doc : StoredDoc
  pub title_tokens : List Text
  pub content_tokens : List Text

unfoldable pub analyse : StoredDoc → Analysed
analyse d = record {
  doc = d;
  title_tokens = tokenize d.source.title;
  content_tokens = tokenize d.source.content;
}

-- The corpus: the documents of the tenant, in the order of the dictionary.
unfoldable pub corpus : Text → Dict StoredDoc → List Analysed
unfolding analyse
corpus tenant_id [] = []
corpus tenant_id ((i, d) ∷ docs) =
    let rest = corpus tenant_id docs in
    if text_eq d.tenant_id tenant_id then analyse d ∷ rest else rest

unfoldable pub vocabulary : List Analysed → List Text
vocabulary [] = []
vocabulary (a ∷ docs) = a.title_tokens ++ (a.content_tokens ++ vocabulary docs)

abbrev pub or_self : Text → Option Text → Text
or_self term none = term
or_self term (some near) = near

-- The terms that are looked for: with `fuzzy`, a word that no document has gives way to a near one.
unfoldable pub effective : (List Text → List Text) → Bool → List Text → List Text → List Text
effective iterate fuzzy words [] = []
effective iterate fuzzy words (term ∷ terms) =
    let rest = effective iterate fuzzy words terms in
    (if listed words term || not fuzzy then term else or_self term (closest term (iterate words)))
    ∷ rest

-- `Counter(tokens)[term]`
unfoldable pub occurrences : Text → List Text → ℕ
occurrences term [] = 0
occurrences term (t ∷ tokens) =
    let rest = occurrences term tokens in if text_eq t term then rest + 1 else rest

unfoldable pub term_frequency : Analysed → Text → ℕ
unfolding occurrences
term_frequency a term = occurrences term a.title_tokens * 3 + occurrences term a.content_tokens

unfoldable pub document_frequency : Text → List Analysed → ℕ
document_frequency term docs =
    length (filter (λ a. listed a.title_tokens term || listed a.content_tokens term) docs)

abbrev pub is_zero : ℕ → Bool
is_zero zero = true
is_zero (suc n) = false

-- The frequencies of the terms that a document has.
unfoldable pub matches : List Analysed → Analysed → List Text → List (ℕ × ℕ)
unfolding term_frequency document_frequency
matches docs a [] = []
matches docs a (term ∷ terms) =
    let rest = matches docs a terms in
    if is_zero (term_frequency a term)
    then rest
    else (term_frequency a term, document_frequency term docs) ∷ rest

-- The lexicographic order of texts by code points.
unfoldable pub text_leb : Text → Text → Bool
text_leb [] b = true
text_leb (x ∷ a) [] = false
text_leb (x ∷ a) (y ∷ b) = let rest = text_leb a b in if x == y then rest else ltb x y

abbrev pub Scored : Type 0
Scored = ℕ × Analysed

-- `key=lambda pair: (-pair[0], pair[1].document_id)`
unfoldable pub is_ahead : Scored → Scored → Bool
unfolding text_leb
is_ahead (s, a) (t, b) = ltb t s || (s == t && text_leb a.doc.document_id b.doc.document_id)

unfoldable pub insert_ranked : Scored → List Scored → List Scored
insert_ranked x [] = x ∷ []
insert_ranked x (y ∷ ys) =
    let rest = insert_ranked x ys in if is_ahead x y then x ∷ y ∷ ys else y ∷ rest

-- `scored.sort`
unfoldable pub ranked : List Scored → List Scored
unfolding insert_ranked
ranked [] = []
ranked (x ∷ xs) = insert_ranked x (ranked xs)

-- `Counter(values).most_common(10)`: the larger count first, in the order of first occurrence.
abbrev or_zero : Option ℕ → ℕ
or_zero none = 0
or_zero (some n) = n

unfoldable pub tally : List Text → Dict ℕ → Dict ℕ
tally [] counts = counts
tally (v ∷ values) counts = tally values (insert v (or_zero (lookup v counts) + 1) counts)

unfoldable pub insert_count : Text × ℕ → Dict ℕ → Dict ℕ
insert_count (v, n) [] = (v, n) ∷ []
insert_count (v, n) ((w, m) ∷ rest) =
    let later = insert_count (v, n) rest in
    if leb m n then (v, n) ∷ (w, m) ∷ rest else (w, m) ∷ later

unfoldable pub by_count : Dict ℕ → Dict ℕ
unfolding insert_count
by_count [] = []
by_count (e ∷ rest) = insert_count e (by_count rest)

unfoldable pub most_common : List Text → List (Text × ℕ)
unfolding tally by_count
most_common values = take 10 (by_count (tally values []))

unfoldable pub content_types : List Scored → List Text
content_types [] = []
content_types ((s, a) ∷ docs) =
    let rest = content_types docs in
    elim a.doc.source.content_type [ [] ↦ rest | c ∷ t ↦ (c ∷ t) ∷ rest ]

unfoldable pub all_tags : List Scored → List Text
all_tags [] = []
all_tags ((s, a) ∷ docs) = a.doc.source.tags ++ all_tags docs

unfoldable pub facets_of : Bool → List Scored → Dict (List (Text × ℕ))
unfolding content_types all_tags most_common
facets_of false docs = []
facets_of true docs =
    (text "content_type", most_common (content_types docs))
    ∷ (text "tags", most_common (all_tags docs))
    ∷ []

module _ (iterate : List Text → List Text) (floats : Floats) (rounded : ℕ → ℕ) where
  -- The loop over the corpus: the documents with enough of the terms and a positive score.
  unfoldable pub score_all : Bool → List Text → List Analysed → List Analysed → List Scored
  unfolding matches
  score_all fuzzy terms docs [] = []
  score_all fuzzy terms docs (a ∷ rest) =
      let later = score_all fuzzy terms docs rest in
      let found = matches docs a terms in
      let score = weigh floats (max (length docs) 1) (length a.content_tokens) found in
      let required = if fuzzy then 1 else length terms in
      if leb required (length found) && ltb 0 score then (score, a) ∷ later else later

  abbrev pub scored_terms : Bool → List Text → List Analysed → List Scored
  scored_terms fuzzy [] docs = []
  scored_terms fuzzy (t ∷ terms) docs =
      score_all fuzzy (effective iterate fuzzy (vocabulary docs) (t ∷ terms)) docs docs

  -- `scored`, in its final order.
  unfoldable pub ranking : SearchQuery → Dict StoredDoc → List Scored
  ranking q docs = ranked (scored_terms q.fuzzy (tokenize q.text) (corpus q.tenant_id docs))

  abbrev pub hit_of : SearchQuery → Scored → EngineHit
  hit_of q (score, a) = to_hit rounded (tokenize q.text) q.highlight score a.doc

  -- `InMemorySearchEngine.search`; `took` is the time that it took, in milliseconds.
  unfoldable pub search : ℕ → SearchQuery → InMemorySearchEngine → Result EngineResult
  unfolding offset
  search took q m =
      let scored = ranking q m.docs in
      if m.available
      then ok (record {
        hits = map (hit_of q) (take q.size (drop (offset q) scored));
        total = length scored;
        total_is_lower_bound = false;
        took_ms = took;
        facets = facets_of q.facets scored;
      })
      else err (other (text "search engine unavailable"))

-- ===== src/Engine/InMemory/Isolation.antt =====
-- doc-search/app/clients/inmemory_engine.py: which documents a search can return.
use distributed_document_sea.Engine.InMemory.Scores.{Floats, weigh}
use mathlib.Core.Path.{subst}
use distributed_document_sea.Prelude.{
  ℕ, zero, suc, ◌≤◌, ◌<◌, leb, ltb, max, ◌≡◌, ◌⊎◌, inl, inr, refl, Text, text_eq, text_eq_iff, Dict,
  length, drop, if◌then◌else◌, Bool, true, false, ◌&&◌, List, [], ◌∷◌, map, arith, All, All-imp,
  All-take, Any, Bool-cases,
}
use distributed_document_sea.Errors.{Exn, ok, err}
use distributed_document_sea.Documents.{listed}
use distributed_document_sea.Engine.{SearchQuery, offset, EngineHit, EngineResult}
use distributed_document_sea.Engine.InMemory.{StoredDoc, InMemorySearchEngine}
use distributed_document_sea.Engine.InMemory.Tokens.{tokenize}
use distributed_document_sea.Engine.InMemory.Snippets.{to_hit}
use distributed_document_sea.Engine.InMemory.Search.{
  Analysed, Scored, analyse, corpus, vocabulary, effective, occurrences, term_frequency, matches,
  insert_ranked, ranked, scored_terms, score_all, ranking, hit_of, search,
}

-- A stored document of the tenant.
abbrev pub IsOwn : Text → Dict StoredDoc → StoredDoc → Type 0
IsOwn tenant_id docs d = Any (λ e. e.1 ≡ d) docs × (d.tenant_id ≡ tenant_id)

corpus-IsOwn :
    (tenant_id : Text) (docs : Dict StoredDoc)
    → All (λ a. IsOwn tenant_id docs a.doc × (a ≡ analyse a.doc)) (corpus tenant_id docs)
unfolding corpus
corpus-IsOwn tenant_id [] = tt
corpus-IsOwn tenant_id ((i, d) ∷ docs) =
    let rest =
      All-imp _ _ (λ a o. ((inr o.0.0, o.0.1), o.1)) (corpus tenant_id docs)
        (corpus-IsOwn tenant_id docs) in
    elim (Bool-cases (text_eq d.tenant_id tenant_id)) [
      | inl own ↦ rw own (((inl refl, (text_eq_iff d.tenant_id tenant_id).0 own), refl), rest)
      | inr other ↦ rw other rest
    ]

-- Every term stands in the title or in the content.
abbrev pub HasAll : List Text → Analysed → Type 0
HasAll terms a =
    All (λ t. (listed a.title_tokens t ≡ true) ⊎ (listed a.content_tokens t ≡ true)) terms

occurrences-listed :
    (t : Text) (tokens : List Text) → 0 < occurrences t tokens → listed tokens t ≡ true
unfolding occurrences listed
occurrences-listed t [] h = absurd (omega arith)
occurrences-listed t (s ∷ tokens) h = ground (arith, occurrences-listed t tokens)

matches-length :
    (docs : List Analysed) (a : Analysed) (terms : List Text)
    → length (matches docs a terms) ≤ length terms
unfolding matches
matches-length docs a [] = omega arith
matches-length docs a (t ∷ terms) = ground (arith, matches-length docs a terms)

-- A document with as many matches as there are terms has them all.
matches-HasAll :
    (docs : List Analysed) (a : Analysed) (terms : List Text)
    → length terms ≤ length (matches docs a terms)
    → HasAll terms a
unfolding matches term_frequency
matches-HasAll docs a [] h = tt
matches-HasAll docs a (t ∷ terms) h = (
  ground (
    arith,
    matches-length docs a terms,
    occurrences-listed t a.title_tokens,
    occurrences-listed t a.content_tokens,
  ),
  matches-HasAll docs a terms (ground (arith, matches-length docs a terms)),
)

pub effective_exact :
    (iterate : List Text → List Text) (words terms : List Text)
    → effective iterate false words terms ≡ terms
unfolding effective
effective_exact iterate words [] = refl
effective_exact iterate words (t ∷ terms) = ground (arith, effective_exact iterate words terms)

module _ (P : Scored → Type 0) where
  insert_ranked-All : (x : Scored) (l : List Scored) → P x → All P l → All P (insert_ranked x l)
  unfolding insert_ranked
  insert_ranked-All x [] p h = (p, tt)
  insert_ranked-All x (y ∷ l) p h = ground (arith, insert_ranked-All x l p h.1)

  ranked-All : (l : List Scored) → All P l → All P (ranked l)
  unfolding ranked
  ranked-All [] h = tt
  ranked-All (x ∷ l) h = insert_ranked-All x (ranked l) h.0 (ranked-All l h.1)

All-drop {ℓ κ} : {A : Type ℓ} (P : A → Type κ) (n : ℕ) (xs : List A) → All P xs → All P (drop n xs)
All-drop P zero xs h = h
All-drop P (suc n) [] h = tt
All-drop P (suc n) (x ∷ xs) h = All-drop P n xs h.1

answered :
    (up : Bool) (x : EngineResult) (e : Exn) (r : EngineResult)
    → (if up then ok x else err e) ≡ ok r
    → x ≡ r
answered true x e r h = ground arith
answered false x e r h = ground arith

all_or_fuzzy :
    (fuzzy : Bool) (among : List Analysed) (a : Analysed) (terms : List Text) (positive : Bool)
    → leb (if fuzzy then 1 else length terms) (length (matches among a terms)) && positive ≡ true
    → (fuzzy ≡ true) ⊎ HasAll terms a
all_or_fuzzy true among a terms positive h = inl refl
all_or_fuzzy false among a terms positive h = inr (matches-HasAll among a terms (ground arith))

module _ (iterate : List Text → List Text) (floats : Floats) (rounded : ℕ → ℕ) where
  -- A scored document of the corpus, with all the terms unless the search is fuzzy.
  abbrev IsScored : Bool → List Text → Text → Dict StoredDoc → Scored → Type 0
  IsScored fuzzy terms tenant_id docs (s, a) =
      IsOwn tenant_id docs a.doc × (a ≡ analyse a.doc) × ((fuzzy ≡ true) ⊎ HasAll terms a)

  score_all-IsScored :
      (fuzzy : Bool) (terms : List Text) (t : Text) (docs : Dict StoredDoc)
      (among rest : List Analysed)
      → All (λ a. IsOwn t docs a.doc × (a ≡ analyse a.doc)) rest
      → All (IsScored fuzzy terms t docs) (score_all iterate floats rounded fuzzy terms among rest)
  unfolding score_all
  score_all-IsScored fuzzy terms t docs among [] h = tt
  score_all-IsScored fuzzy terms t docs among (a ∷ rest) (own, h) =
      let later = score_all-IsScored fuzzy terms t docs among rest h in
      let found = length (matches among a terms) in
      let score =
        weigh floats (max (length among) 1) (length a.content_tokens) (matches among a terms) in
      elim (Bool-cases (leb (if fuzzy then 1 else length terms) found && ltb 0 score)) [
        | inl kept ↦
            rw kept ((own.0, own.1, all_or_fuzzy fuzzy among a terms (ltb 0 score) kept), later)
        | inr left_out ↦ rw left_out later
      ]

  -- A hit is a stored document of the tenant, and has all the terms unless the search is fuzzy.
  abbrev pub IsFound : SearchQuery → Dict StoredDoc → EngineHit → Type 0
  IsFound q docs h =
      (d : StoredDoc) × IsOwn q.tenant_id docs d
      × (h.document_id ≡ d.document_id)
      × ((q.fuzzy ≡ true) ⊎ HasAll (tokenize q.text) (analyse d))

  scored_terms-IsScored :
      (fuzzy : Bool) (terms : List Text) (t : Text) (docs : Dict StoredDoc)
      → All
          (IsScored fuzzy terms t docs)
          (scored_terms iterate floats rounded fuzzy terms (corpus t docs))
  scored_terms-IsScored fuzzy [] t docs = tt
  scored_terms-IsScored true (w ∷ terms) t docs =
      let among = corpus t docs in
      let near = effective iterate true (vocabulary among) (w ∷ terms) in
      All-imp _ _ (λ x h. (h.0, h.1, inl refl))
        (score_all iterate floats rounded true near among among)
        (score_all-IsScored true near t docs among among (corpus-IsOwn t docs))
  scored_terms-IsScored false (w ∷ terms) t docs =
      let among = corpus t docs in
      rw (effective_exact iterate (vocabulary among) (w ∷ terms))
        (score_all-IsScored false (w ∷ terms) t docs among among (corpus-IsOwn t docs))

  hit_of-IsFound :
      (q : SearchQuery) (docs : Dict StoredDoc) (l : List Scored)
      → All (IsScored q.fuzzy (tokenize q.text) q.tenant_id docs) l
      → All (IsFound q docs) (map (hit_of iterate floats rounded q) l)
  unfolding to_hit
  hit_of-IsFound q docs [] h = tt
  hit_of-IsFound q docs ((s, a) ∷ l) ((own, same, terms), h) = (
    (a.doc, own, refl, subst (λ b. (q.fuzzy ≡ true) ⊎ HasAll (tokenize q.text) b) same terms),
    hit_of-IsFound q docs l h,
  )

  -- Every hit of a search of the in-memory engine is a stored document of the tenant that asks,
  -- and, unless the search is fuzzy, has every term of the query in its title or its content.
  pub search-IsFound :
      (took : ℕ) (q : SearchQuery) (m : InMemorySearchEngine) (r : EngineResult)
      → search iterate floats rounded took q m ≡ ok r
      → All (IsFound q m.docs) r.hits
  unfolding search ranking offset
  search-IsFound took q m r h =
      let scored = scored_terms-IsScored q.fuzzy (tokenize q.text) q.tenant_id m.docs in
      let own =
        ranked-All _
          (scored_terms iterate floats rounded q.fuzzy (tokenize q.text)
            (corpus q.tenant_id m.docs))
          scored in
      let page = All-take _ q.size _ (All-drop _ (offset q) _ own) in
      subst (λ v. All (IsFound q m.docs) v.hits) (answered m.available _ _ r h)
        (hit_of-IsFound q m.docs _ page)

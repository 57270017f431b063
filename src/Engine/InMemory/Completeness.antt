-- ===== src/Engine/InMemory/Completeness.antt =====
-- doc-search/app/clients/inmemory_engine.py: which documents a search must return.
use distributed_document_sea.Engine.InMemory.Frequencies.{
  IsShort, HasAll-matches, matches-IsFrequency,
}
use distributed_document_sea.Engine.InMemory.Scores.{
  Floats, weigh, IsIeee, IsFrequency, small, weigh_positive,
}
use mathlib.Core.Path.{subst}
use distributed_document_sea.Prelude.{
  ℕ, zero, suc, ◌-◌, ◌*◌, ◌≤◌, ◌<◌, leb, ltb, max, ◌≡◌, ◌⊎◌, inl, inr, refl, sym, ap, ◌∙◌, Text,
  text_eq, text_eq_iff, Dict, length, take, true, false, ◌&&◌, List, [], ◌∷◌, map, arith, Any,
  Bool-cases, All,
}
use distributed_document_sea.Engine.{SearchQuery, offset}
use distributed_document_sea.Engine.InMemory.{StoredDoc, InMemorySearchEngine}
use distributed_document_sea.Engine.InMemory.Tokens.{tokenize}
use distributed_document_sea.Engine.InMemory.Snippets.{to_hit}
use distributed_document_sea.Engine.InMemory.Search.{
  Analysed, Scored, analyse, corpus, vocabulary, matches, is_ahead, insert_ranked, ranked,
  scored_terms, score_all, ranking, hit_of, search,
}
use distributed_document_sea.Engine.InMemory.Pages.{hits_of}
use distributed_document_sea.Engine.InMemory.Isolation.{HasAll, effective_exact}

corpus_has :
    (tenant_id : Text) (docs : Dict StoredDoc) (d : StoredDoc)
    → d.tenant_id ≡ tenant_id
    → Any (λ e. e.1 ≡ d) docs
    → Any (λ a. a ≡ analyse d) (corpus tenant_id docs)
unfolding corpus
corpus_has tenant_id [] d own h = elim h [ ]
corpus_has tenant_id ((i, e) ∷ docs) d own (inl same) =
    rw ((text_eq_iff e.tenant_id tenant_id).1 (ap (λ x. x.tenant_id) same ∙ own))
      (inl (ap (λ x. analyse x) same))
corpus_has tenant_id ((i, e) ∷ docs) d own (inr later) =
    let rest = corpus_has tenant_id docs d own later in
    elim (Bool-cases (text_eq e.tenant_id tenant_id)) [
      | inl kept ↦ rw kept (inr rest)
      | inr left_out ↦ rw left_out rest
    ]

module _ (P : Scored → Type 0) where
  insert_ranked-Any : (x : Scored) (l : List Scored) → P x ⊎ Any P l → Any P (insert_ranked x l)
  unfolding insert_ranked
  insert_ranked-Any x [] h = h
  insert_ranked-Any x (y ∷ l) h = elim (Bool-cases (is_ahead x y)) [
    | inl first ↦ rw first h
    | inr later ↦ rw later (elim h [
      | inl p ↦ inr (insert_ranked-Any x l (inl p))
      | inr (inl p) ↦ inl p
      | inr (inr p) ↦ inr (insert_ranked-Any x l (inr p))
    ])
  ]

  ranked-Any : (l : List Scored) → Any P l → Any P (ranked l)
  unfolding ranked
  ranked-Any [] h = elim h [ ]
  ranked-Any (x ∷ l) (inl h) = insert_ranked-Any x (ranked l) (inl h)
  ranked-Any (x ∷ l) (inr h) = insert_ranked-Any x (ranked l) (inr (ranked-Any l h))

take_all {ℓ} : {A : Type ℓ} (n : ℕ) (xs : List A) → length xs ≤ n → take n xs ≡ xs
take_all zero [] h = refl
take_all zero (x ∷ xs) h = absurd (omega (arith, h))
take_all (suc n) [] h = refl
take_all (suc n) (x ∷ xs) h = ap (λ l. x ∷ l) (take_all n xs (omega (arith, h)))

module _ (iterate : List Text → List Text) (floats : Floats) (rounded : ℕ → ℕ)
    (ieee : IsIeee floats) where
  is_kept :
      (terms : List Text) (among : List Analysed) (a : Analysed)
      → 0 < length terms
      → HasAll terms a
      → length among ≤ small
      → IsShort a
      → leb (length terms) (length (matches among a terms))
          && ltb 0 (
              weigh floats (max (length among) 1) (length a.content_tokens) (matches among a terms))
        ≡ true
  is_kept terms among a some_term all few short =
      kept_by (matches among a terms) (HasAll-matches among a terms all)
        (matches-IsFrequency among a terms short)
    where
      kept_by :
          (found : List (ℕ × ℕ))
          → length found ≡ length terms
          → All (IsFrequency (max (length among) 1)) found
          → leb (length terms) (length found)
              && ltb 0 (weigh floats (max (length among) 1) (length a.content_tokens) found)
            ≡ true
      kept_by [] same frequencies = absurd (omega (arith, same, some_term))
      kept_by (m ∷ ms) same frequencies = ground (
        arith,
        weigh_positive floats ieee (max (length among) 1) (length a.content_tokens) m ms
            (omega arith) (omega arith) frequencies.0,
      )

  score_all_has :
      (terms : List Text) (among rest : List Analysed) (b : Analysed)
      → 0 < length terms
      → HasAll terms b
      → length among ≤ small
      → IsShort b
      → Any (λ a. a ≡ b) rest
      → Any (λ x. x.1 ≡ b) (score_all iterate floats rounded false terms among rest)
  unfolding score_all
  score_all_has terms among [] b some_term all few short h = elim h [ ]
  score_all_has terms among (a ∷ rest) b some_term all few short (inl same) =
      rw
        (is_kept terms among a some_term (subst (λ x. HasAll terms x) (sym same) all) few
          (subst (λ x. IsShort x) (sym same) short))
        (inl same)
  score_all_has terms among (a ∷ rest) b some_term all few short (inr later) =
      let found = matches among a terms in
      let score = weigh floats (max (length among) 1) (length a.content_tokens) found in
      let there = score_all_has terms among rest b some_term all few short later in
      elim (Bool-cases (leb (length terms) (length found) && ltb 0 score)) [
        | inl kept ↦ rw kept (inr there)
        | inr left_out ↦ rw left_out there
      ]

  scored_terms_has :
      (terms : List Text) (among : List Analysed) (b : Analysed)
      → 0 < length terms
      → HasAll terms b
      → length among ≤ small
      → IsShort b
      → Any (λ a. a ≡ b) among
      → Any (λ x. x.1 ≡ b) (scored_terms iterate floats rounded false terms among)
  scored_terms_has [] among b some_term all few short h = absurd (omega arith)
  scored_terms_has (t ∷ terms) among b some_term all few short h =
      rw (effective_exact iterate (vocabulary among) (t ∷ terms))
        (score_all_has (t ∷ terms) among among b some_term all few short h)

  hits_have :
      (q : SearchQuery) (d : StoredDoc) (l : List Scored)
      → Any (λ x. x.1 ≡ analyse d) l
      → Any (λ h. h.document_id ≡ d.document_id) (map (hit_of iterate floats rounded q) l)
  unfolding to_hit analyse
  hits_have q d [] h = elim h [ ]
  hits_have q d ((s, a) ∷ l) (inl same) = inl (ap (λ x. x.doc.document_id) same)
  hits_have q d ((s, a) ∷ l) (inr later) = inr (hits_have q d l later)

  -- The first page of a ranking that fits into it.
  first_page :
      (took : ℕ) (q : SearchQuery) (m : InMemorySearchEngine)
      → m.available ≡ true
      → q.page ≡ 1
      → length (ranking iterate floats rounded q m.docs) ≤ q.size
      → hits_of (search iterate floats rounded took q m)
        ≡ map (hit_of iterate floats rounded q) (ranking iterate floats rounded q m.docs)
  unfolding search offset
  first_page took q m up first few =
      let from : (q.page - 1) * q.size ≡ 0 =
        ap (λ p. (p - 1) * q.size) first ∙ (let e : 0 * q.size ≡ 0 = omega arith in e) in
      simp (up, from, take_all q.size (ranking iterate floats rounded q m.docs) few)

  -- A stored document of the tenant that has every term is among the hits of a search that is not
  -- fuzzy, if the hits fit on the first page and the counts are small.
  pub search_finds :
      (took : ℕ) (q : SearchQuery) (m : InMemorySearchEngine) (d : StoredDoc)
      → m.available ≡ true
      → q.fuzzy ≡ false
      → q.page ≡ 1
      → 0 < length (tokenize q.text)
      → Any (λ e. e.1 ≡ d) m.docs
      → d.tenant_id ≡ q.tenant_id
      → HasAll (tokenize q.text) (analyse d)
      → length (corpus q.tenant_id m.docs) ≤ small
      → IsShort (analyse d)
      → length (ranking iterate floats rounded q m.docs) ≤ q.size
      → Any (λ h. h.document_id ≡ d.document_id) (hits_of (search iterate floats rounded took q m))
  unfolding ranking
  search_finds took q m d up exact first some_term stored own all few short fits =
      let terms = tokenize q.text in
      let among = corpus q.tenant_id m.docs in
      let scored =
        scored_terms_has (tokenize q.text) (corpus q.tenant_id m.docs) (analyse d) some_term all few
          short (corpus_has q.tenant_id m.docs d own stored) in
      let has = λ (l : List Scored). Any (λ x. x.1 ≡ analyse d) l in
      let there =
        ranked-Any (λ x. x.1 ≡ analyse d) (scored_terms iterate floats rounded q.fuzzy terms among)
          (subst (λ b. has (scored_terms iterate floats rounded b terms among)) (sym exact)
            scored) in
      subst (λ l. Any (λ h. h.document_id ≡ d.document_id) l)
        (sym (first_page took q m up first fits))
        (hits_have q d (ranking iterate floats rounded q m.docs) there)

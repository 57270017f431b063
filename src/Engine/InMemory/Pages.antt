-- ===== src/Engine/InMemory/Pages.antt =====
-- doc-search/app/clients/inmemory_engine.py: the pages of one search, taken together.
use distributed_document_sea.Engine.InMemory.Scores.{Floats}
use distributed_document_sea.Prelude.{
  ℕ, zero, suc, ◌+◌, ◌-◌, ◌*◌, ◌≤◌, ◌≡◌, refl, sym, ap, ◌∙◌, Text, length, take, drop, true, List,
  [], ◌∷◌, ◌++◌, map, arith,
}
use distributed_document_sea.Errors.{Result, ok, err}
use distributed_document_sea.Engine.{SearchQuery, EngineHit, EngineResult}
use distributed_document_sea.Engine.InMemory.{InMemorySearchEngine}
use distributed_document_sea.Engine.InMemory.Search.{search, ranking, hit_of}

module _ {A : Type 0} where
  take_nil : (n m : ℕ) → take {A = A} n [] ≡ take {A = A} m []
  take_nil zero zero = refl
  take_nil zero (suc m) = refl
  take_nil (suc n) zero = refl
  take_nil (suc n) (suc m) = refl

  take-add : (n m : ℕ) (xs : List A) → take n xs ++ take m (drop n xs) ≡ take (n + m) xs
  take-add zero m xs = ap (λ k. take k xs) (omega arith)
  take-add (suc n) m [] = take_nil m (suc n + m)
  take-add (suc n) m (x ∷ xs) =
      ap (λ r. x ∷ r) (take-add n m xs)
      ∙ ap (λ k. take k (x ∷ xs)) (let e : suc (n + m) ≡ suc n + m = omega arith in e)

  take_all : (n : ℕ) (xs : List A) → length xs ≤ n → take n xs ≡ xs
  take_all zero [] h = refl
  take_all zero (x ∷ xs) h = absurd (omega arith)
  take_all (suc n) [] h = refl
  take_all (suc n) (x ∷ xs) h = ap (λ r. x ∷ r) (take_all n xs (omega arith))

map-append {ℓ} :
    {A B : Type ℓ} (f : A → B) (xs ys : List A) → map f (xs ++ ys) ≡ map f xs ++ map f ys
map-append f [] ys = refl
map-append f (x ∷ xs) ys = ap (λ r. f x ∷ r) (map-append f xs ys)

abbrev pub hits_of : Result EngineResult → List EngineHit
hits_of (ok r) = r.hits
hits_of (err e) = []

module _ (iterate : List Text → List Text) (floats : Floats) (rounded : ℕ → ℕ) where
  -- The hits of the first `n` pages, one after the other.
  unfoldable pub first_pages : ℕ → SearchQuery → InMemorySearchEngine → List EngineHit
  first_pages zero q m = []
  first_pages (suc n) q m =
      first_pages n q m ++ hits_of (search iterate floats rounded 0 (record q { page = n + 1 }) m)

  page_hits :
      (n : ℕ) (q : SearchQuery) (m : InMemorySearchEngine)
      → m.available ≡ true
      → hits_of (search iterate floats rounded 0 (record q { page = n + 1 }) m)
        ≡ map
            (hit_of iterate floats rounded q)
            (take q.size (drop (n * q.size) (ranking iterate floats rounded q m.docs)))
  unfolding search ranking
  page_hits n q m up =
      let from : (n + 1 - 1) * q.size ≡ n * q.size = ap (λ k. k * q.size) (omega arith) in
      simp (up, from)

  -- With the engine up, the first pages of a search, of the size of the query, joined in order are
  -- exactly the first hits of its ranking: no hit is missing or twice.
  pub first_pages-take :
      (n : ℕ) (q : SearchQuery) (m : InMemorySearchEngine)
      → m.available ≡ true
      → first_pages n q m
        ≡ map
            (hit_of iterate floats rounded q)
            (take (n * q.size) (ranking iterate floats rounded q m.docs))
  unfolding first_pages
  first_pages-take zero q m up =
      ap
        (λ k.
          map (hit_of iterate floats rounded q) (take k (ranking iterate floats rounded q m.docs)))
        (let e : 0 ≡ 0 * q.size = omega arith in e)
  first_pages-take (suc n) q m up =
      let all = ranking iterate floats rounded q m.docs in
      let next : n * q.size + q.size ≡ suc n * q.size = ground arith in
      ap (λ l. l ++ hits_of (search iterate floats rounded 0 (record q { page = n + 1 }) m))
        (first_pages-take n q m up)
      ∙ ap (λ l. map (hit_of iterate floats rounded q) (take (n * q.size) all) ++ l)
          (page_hits n q m up)
      ∙ sym (
          map-append (hit_of iterate floats rounded q) (take (n * q.size) all)
            (take q.size (drop (n * q.size) all)))
      ∙ ap (λ l. map (hit_of iterate floats rounded q) l)
          (take-add (n * q.size) q.size all ∙ ap (λ k. take k all) next)

-- ===== src/Engine/InMemory/Scores.antt =====
-- doc-search/app/clients/inmemory_engine.py: the score that `search` gives a document.
--
-- Python's floats are a parameter: the operations of `Floats` on the bits of floats that are not
-- negative, so that the order of the bits is that of the numbers and zero is 0.0.
use distributed_document_sea.Prelude.{ℕ, ◌-◌, ◌^◌, ◌≤◌, ◌<◌, List, [], ◌∷◌, arith}

pub record Floats : Type 0 where
  -- The float of an integer, and the literals 0.5, 1.2 and 10.
  pub of_int : ℕ → ℕ
  pub half : ℕ
  pub one_point_two : ℕ
  pub ten : ℕ
  pub add : ℕ → ℕ → ℕ
  pub mul : ℕ → ℕ → ℕ
  pub div : ℕ → ℕ → ℕ
  -- `math.log` of at least 1, and `math.log1p`
  pub log : ℕ → ℕ
  pub log1p : ℕ → ℕ

module _ (floats : Floats) where
  -- `1.0 + math.log1p(len(content_tokens)) / 10`
  unfoldable pub length_norm : ℕ → ℕ
  length_norm words =
      floats.add (floats.of_int 1) (floats.div (floats.log1p (floats.of_int words)) floats.ten)

  -- `math.log(1 + (n_docs - df[term] + 0.5) / (df[term] + 0.5))`
  unfoldable pub idf : ℕ → ℕ → ℕ
  idf n_docs df = floats.log (
      floats.add (floats.of_int 1) (
        floats.div (floats.add (floats.of_int (n_docs - df)) floats.half)
          (floats.add (floats.of_int df) floats.half)))

  -- `idf * (tf / (tf + 1.2)) / length_norm`
  unfoldable pub term_score : (n_docs words tf df : ℕ) → ℕ
  unfolding idf length_norm
  term_score n_docs words tf df =
      floats.div
        (floats.mul (idf n_docs df)
          (floats.div (floats.of_int tf) (floats.add (floats.of_int tf) floats.one_point_two)))
        (length_norm words)

  -- The score after the terms with the given frequencies, from the score before them.
  unfoldable pub scored_from : (score n_docs words : ℕ) → List (ℕ × ℕ) → ℕ
  unfolding term_score
  scored_from score n_docs words [] = score
  scored_from score n_docs words ((tf, df) ∷ found) =
      scored_from (floats.add score (term_score n_docs words tf df)) n_docs words found

  unfoldable pub weigh : (n_docs words : ℕ) → List (ℕ × ℕ) → ℕ
  unfolding scored_from
  weigh n_docs words found = scored_from 0 n_docs words found

-- A count that a float holds, and the reciprocal of which is far from the precision of 1.0.
abbrev pub small : ℕ
small = 2 ^ 40

-- What the score relies on of IEEE arithmetic: a sum of floats that are not negative is at least
-- each of them, and the score of a term neither underflows nor is lost in rounding, if the document
-- has the term, not more documents have it than there are, and the counts are small.
pub record IsIeee (floats : Floats) : Type 0 where
  pub add_left : (a b : ℕ) → a ≤ floats.add a b
  pub add_right : (a b : ℕ) → b ≤ floats.add a b
  pub term_positive :
      (n_docs words tf df : ℕ)
      → 0 < tf
      → df ≤ n_docs
      → n_docs ≤ small
      → words ≤ small
      → tf ≤ small
      → 0 < term_score floats n_docs words tf df

-- The frequencies of a term that the document has, among as many documents.
abbrev pub IsFrequency : ℕ → ℕ × ℕ → Type 0
IsFrequency n_docs m = (0 < m.0) × (m.0 ≤ small) × (m.1 ≤ n_docs)

module _ (floats : Floats) (ieee : IsIeee floats) where
  scored_from-le :
      (score n_docs words : ℕ) (found : List (ℕ × ℕ))
      → score ≤ scored_from floats score n_docs words found
  unfolding scored_from
  scored_from-le score n_docs words [] = omega arith
  scored_from-le score n_docs words ((tf, df) ∷ found) =
      let term = term_score floats n_docs words tf df in
      omega
        (arith, ieee.add_left score term, scored_from-le (floats.add score term) n_docs words found)

  -- A document that has a term has a positive score, if the counts are small.
  pub weigh_positive :
      (n_docs words : ℕ) (m : ℕ × ℕ) (found : List (ℕ × ℕ))
      → n_docs ≤ small
      → words ≤ small
      → IsFrequency n_docs m
      → 0 < weigh floats n_docs words (m ∷ found)
  unfolding weigh scored_from
  weigh_positive n_docs words (tf, df) found few short (has, rare, among) =
      let term = term_score floats n_docs words tf df in
      omega (
        arith,
        ieee.term_positive n_docs words tf df has among few short rare,
        ieee.add_right 0 term,
        scored_from-le (floats.add 0 term) n_docs words found,
      )

-- ===== src/Tests/Floats.antt =====
-- A concrete arithmetic for the scores of the in-memory engine.
use distributed_document_sea.Engine.InMemory.Scores.{Floats, IsIeee, term_score, idf}
use distributed_document_sea.Prelude.{ℕ, leb, ◌*◌, ◌/◌, ◌+◌, ◌-◌, if◌then◌else◌, arith, ◌<◌}

-- Positive numbers with one decimal digit, rounded up, and a logarithm by its tangent at 1.
abbrev tenths_div : ℕ → ℕ → ℕ
tenths_div a b = if leb a 0 then 0 else a * 10 / b + 1

abbrev tenths_mul : ℕ → ℕ → ℕ
tenths_mul a b = if leb a 0 then 0 else a * b / 10 + 1

abbrev pub tenths : Floats
tenths = record {
  of_int = λ n. n * 10;
  half = 5;
  one_point_two = 12;
  ten = 100;
  add = λ a b. a + b;
  mul = tenths_mul;
  div = tenths_div;
  log = λ a. a - 10;
  log1p = λ a. a;
}

tenths_div_positive : (a b : ℕ) → 0 < a → 0 < tenths_div a b
tenths_div_positive a b h = ground arith

tenths_mul_positive : (a b : ℕ) → 0 < a → 0 < tenths_mul a b
tenths_mul_positive a b h = ground arith

pub tenths-IsIeee : IsIeee tenths
unfolding term_score idf
tenths-IsIeee = record {
  add_left = λ a b. omega arith;
  add_right = λ a b. omega arith;
  term_positive = λ n_docs words tf df has among few short rare.
      let ratio = (n_docs - df) * 10 + 5 in
      tenths_div_positive _ _ (
        tenths_mul_positive _ _
          (omega (arith, tenths_div_positive ratio (df * 10 + 5) (omega arith))));
}

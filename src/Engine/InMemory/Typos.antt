-- ===== src/Engine/InMemory/Typos.antt =====
-- doc-search/app/clients/inmemory_engine.py: `_edit_distance_at_most_one` against edits of one letter.
use distributed_document_sea.Prelude.{
  ℕ, ◌+◌, ◌==◌, ltb, ◌≤◌, ◌≡◌, ◌≢◌, ◌⊎◌, inl, inr, ◌↔◌, refl, ap, Text, text_eq, text_eq_iff,
  length, true, false, [], ◌∷◌, ◌++◌, arith, Bool-cases, length-append,
}
use distributed_document_sea.Engine.InMemory.Tokens.{differences, align, edit_distance_at_most_one}

-- `long` is `short` with one letter put in.
abbrev pub Inserted : Text → Text → Type 0
Inserted short long =
    (front : Text) × (c : ℕ) × (back : Text) × (short ≡ front ++ back) × (long ≡ front ++ c ∷ back)

-- One letter is another.
abbrev pub Substituted : Text → Text → Type 0
Substituted a b =
    (front : Text) × (c : ℕ) × (d : ℕ) × (back : Text) × (c ≢ d)
    × (a ≡ front ++ c ∷ back)
    × (b ≡ front ++ d ∷ back)

-- At most one letter is put in, taken out or changed.
abbrev pub OneEdit : Text → Text → Type 0
OneEdit a b = (a ≡ b) ⊎ Substituted a b ⊎ Inserted a b ⊎ Inserted b a

differences_zero : (a b : Text) → length a ≡ length b → (differences a b ≡ 0) ↔ (a ≡ b)
unfolding differences
differences_zero [] [] h = ground arith
differences_zero [] (y ∷ b) h = ground arith
differences_zero (x ∷ a) [] h = ground arith
differences_zero (x ∷ a) (y ∷ b) h = ground (arith, differences_zero a b)

differences_one : (a b : Text) → length a ≡ length b → differences a b ≡ 1 → Substituted a b
unfolding differences
differences_one [] b h e = absurd (ground arith)
differences_one (x ∷ a) [] h e = absurd (ground arith)
differences_one (x ∷ a) (y ∷ b) h e = elim (Bool-cases (x == y)) [
  | inl same ↦
      let (front, c, d, back, ne, ea, eb) =
        differences_one a b (ground arith) (ground (arith, same)) in
      (x ∷ front, c, d, back, ne, cc, ground (arith, same))
  | inr other ↦
      ([], x, y, a, ground (arith, other), refl, ground (arith, other, differences_zero a b))
]

one_difference :
    (front back : Text) (c d : ℕ) → c ≢ d → differences (front ++ c ∷ back) (front ++ d ∷ back) ≡ 1
unfolding differences
one_difference [] back c d ne = ground (arith, differences_zero back back)
one_difference (x ∷ front) back c d ne = ground (arith, one_difference front back c d)

align_skipped : (a b : Text) → length a ≡ length b → (align true a b ≡ true) ↔ (a ≡ b)
unfolding align
align_skipped [] [] h = ground arith
align_skipped [] (y ∷ b) h = ground arith
align_skipped (x ∷ a) [] h = ground arith
align_skipped (x ∷ a) (y ∷ b) h = ground (arith, align_skipped a b)

align-Inserted : (a b : Text) → length b ≡ length a + 1 → align false a b ≡ true → Inserted a b
unfolding align
align-Inserted [] (y ∷ []) h e = ([], y, [], refl, refl)
align-Inserted [] [] h e = absurd (ground arith)
align-Inserted [] (y ∷ z ∷ b) h e = absurd (ground arith)
align-Inserted (x ∷ a) [] h e = absurd (ground arith)
align-Inserted (x ∷ a) (y ∷ b) h e = elim (Bool-cases (x == y)) [
  | inl same ↦
      let (front, c, back, ea, eb) = align-Inserted a b (ground arith) (ground (arith, same)) in
      (x ∷ front, c, back, cc, ground (arith, same))
  | inr other ↦ ([], y, x ∷ a, refl, ground (arith, other, align_skipped (x ∷ a) b))
]

align_self : (a : Text) → align true a a ≡ true
align_self a = (align_skipped a a refl).1 refl

inserted_align :
    (front back : Text) (c : ℕ) → align false (front ++ back) (front ++ c ∷ back) ≡ true
unfolding align
inserted_align [] [] c = refl
inserted_align [] (x ∷ back) c = ground (arith, inserted_align [] back x, align_self back)
inserted_align (x ∷ front) back c = ground (arith, inserted_align front back c)

-- The lengths of two texts that are one edit apart.
pub OneEdit-length :
    (a b : Text) → OneEdit a b → (length a ≤ length b + 1) × (length b ≤ length a + 1)
OneEdit-length a b (inl e) = ground (arith, ap length e)
OneEdit-length a b (inr (inl (front, c, d, back, ne, ea, eb))) = omega (
  arith,
  ap length ea,
  ap length eb,
  length-append {0} front (c ∷ back),
  length-append {0} front (d ∷ back),
)
OneEdit-length a b (inr (inr (inl (front, c, back, ea, eb)))) = omega (
  arith,
  ap length ea,
  ap length eb,
  length-append {0} front (c ∷ back),
  length-append {0} front back,
)
OneEdit-length a b (inr (inr (inr (front, c, back, ea, eb)))) = omega (
  arith,
  ap length ea,
  ap length eb,
  length-append {0} front (c ∷ back),
  length-append {0} front back,
)

Inserted-length : (a b : Text) → Inserted a b → length b ≡ length a + 1
Inserted-length a b (front, c, back, ea, eb) = omega (
  arith,
  ap length ea,
  ap length eb,
  length-append {0} front (c ∷ back),
  length-append {0} front back,
)

Substituted-length : (a b : Text) → Substituted a b → length a ≡ length b
Substituted-length a b (front, c, d, back, ne, ea, eb) = omega (
  arith,
  ap length ea,
  ap length eb,
  length-append {0} front (c ∷ back),
  length-append {0} front (d ∷ back),
)

Substituted-differences : (a b : Text) → Substituted a b → differences a b ≡ 1
Substituted-differences a b (front, c, d, back, ne, ea, eb) =
    rw (ea, eb) (one_difference front back c d ne)

Inserted-align : (a b : Text) → Inserted a b → align false a b ≡ true
Inserted-align a b (front, c, back, ea, eb) = rw (ea, eb) (inserted_align front back c)

found-OneEdit :
    (a b : Text)
    → length a ≤ length b + 1
    → length b ≤ length a + 1
    → edit_distance_at_most_one a b ≡ true
    → OneEdit a b
unfolding edit_distance_at_most_one
found-OneEdit a b h k e = elim (Bool-cases (text_eq a b)) [
  | inl same ↦ inl ((text_eq_iff a b).0 same)
  | inr other ↦ elim (Bool-cases (length a == length b)) [
    | inl level ↦ inr (inl (differences_one a b (ground arith) (ground (arith, other, level))))
    | inr uneven ↦ elim (Bool-cases (ltb (length a) (length b))) [
      | inl less ↦
          inr (inr (inl (align-Inserted a b (ground arith) (ground (arith, other, uneven, less)))))
      | inr more ↦
          inr (inr (inr (align-Inserted b a (ground arith) (ground (arith, other, uneven, more)))))
    ]
  ]
]

OneEdit-found : (a b : Text) → OneEdit a b → edit_distance_at_most_one a b ≡ true
unfolding edit_distance_at_most_one
OneEdit-found a b (inl e) = ground (arith, text_eq_iff a b)
OneEdit-found a b (inr (inl s)) =
    ground (arith, Substituted-length a b s, Substituted-differences a b s)
OneEdit-found a b (inr (inr (inl i))) = ground (arith, Inserted-length a b i, Inserted-align a b i)
OneEdit-found a b (inr (inr (inr i))) = ground (arith, Inserted-length b a i, Inserted-align b a i)

-- For two words whose lengths differ by at most one, the test of the edit distance holds exactly if
-- the words are equal or one edit apart: one symbol inserted, deleted or replaced.
pub edit_distance_at_most_one_lem :
    (a b : Text)
    → length a ≤ length b + 1
    → length b ≤ length a + 1
    → (edit_distance_at_most_one a b ≡ true) ↔ OneEdit a b
edit_distance_at_most_one_lem a b h k = (found-OneEdit a b h k, OneEdit-found a b)

-- ===== src/Engine/InMemory/Closest.antt =====
-- doc-search/app/clients/inmemory_engine.py: what `_closest` finds in a vocabulary.
use distributed_document_sea.Prelude.{
  ltb, ◌≤◌, ◌≡◌, ◌⊎◌, inl, inr, ◌↔◌, refl, Text, length, if◌then◌else◌, Bool, true, false, List, [],
  ◌∷◌, arith, Bool-cases, Option, none, some, All, All-imp, Any,
}
use distributed_document_sea.Engine.InMemory.Tokens.{
  edit_distance_at_most_one, is_far, closer, closest_from, closest,
}
use distributed_document_sea.Engine.InMemory.Typos.{
  OneEdit, OneEdit-length, edit_distance_at_most_one_lem,
}

-- Both tests of the loop.
abbrev near : Text → Text → Bool
near term v = if is_far v term then false else edit_distance_at_most_one term v

near-OneEdit : (term v : Text) → (near term v ≡ true) ↔ OneEdit term v
near-OneEdit term v = (
  λ h. (edit_distance_at_most_one_lem term v (ground arith) (ground arith)).0 (ground arith),
  λ o.
      let (l, l') = OneEdit-length term v o in
      ground (arith, (edit_distance_at_most_one_lem term v l l').1 o),
)

-- What the loop holds after the words `seen`.
abbrev IsBest : Text → List Text → Option Text → Type 0
IsBest term vocabulary none = All (λ v. near term v ≡ false) vocabulary
IsBest term vocabulary (some best) =
    (near term best ≡ true) × All (λ v. (near term v ≡ false) ⊎ (length best ≤ length v)) vocabulary

-- The loop keeps or shortens what it starts from.
abbrev IsFrom : Text → List Text → Option Text → Option Text → Type 0
IsFrom term vocabulary none none = Unit
IsFrom term vocabulary (some b) none = ⊥
IsFrom term vocabulary none (some best) = Any (λ v. v ≡ best) vocabulary
IsFrom term vocabulary (some b) (some best) =
    (length best ≤ length b) × ((b ≡ best) ⊎ Any (λ v. v ≡ best) vocabulary)

abbrev Sees : Text → List Text → Option Text → Option Text → Type 0
Sees term words b r = IsBest term words r × IsFrom term words b r

module _ (term v : Text) (vocabulary : List Text) where
  -- The word is taken, or passed over.
  take_first :
      (r : Option Text) → Sees term vocabulary (some v) r → Sees term (v ∷ vocabulary) none r
  take_first none h = absurd h.1
  take_first (some best) ((n, all), (le, from)) = ((n, (inr le, all)), from)

  take_shorter :
      (b : Text) (r : Option Text)
      → length v ≤ length b
      → Sees term vocabulary (some v) r
      → Sees term (v ∷ vocabulary) (some b) r
  take_shorter b none le h = absurd h.1
  take_shorter b (some best) le ((n, all), (le', from)) =
      ((n, (inr le', all)), (omega arith, inr from))

  pass_far :
      (b r : Option Text)
      → near term v ≡ false
      → Sees term vocabulary b r
      → Sees term (v ∷ vocabulary) b r
  pass_far none none f h = ((f, h.0), tt)
  pass_far (some b) none f h = absurd h.1
  pass_far none (some best) f ((n, all), from) = ((n, (inl f, all)), inr from)
  pass_far (some b) (some best) f ((n, all), (le, inl e)) = ((n, (inl f, all)), (le, inl e))
  pass_far (some b) (some best) f ((n, all), (le, inr m)) = ((n, (inl f, all)), (le, inr (inr m)))

  pass_longer :
      (b : Text) (r : Option Text)
      → length b ≤ length v
      → Sees term vocabulary (some b) r
      → Sees term (v ∷ vocabulary) (some b) r
  pass_longer b none le h = absurd h.1
  pass_longer b (some best) le ((n, all), (le', inl e)) =
      ((n, (inr (omega arith), all)), (le', inl e))
  pass_longer b (some best) le ((n, all), (le', inr m)) =
      ((n, (inr (omega arith), all)), (le', inr (inr m)))

-- The round, by whether the word is near and shorter than the best so far.
closer_far : (term v : Text) (b : Option Text) → near term v ≡ false → closer term v b ≡ b
unfolding closer
closer_far term v b f = ground arith

closer_first : (term v : Text) → near term v ≡ true → closer term v none ≡ some v
unfolding closer
closer_first term v f = ground arith

closer-near :
    (term v b : Text)
    → near term v ≡ true
    → closer term v (some b) ≡ (if ltb (length v) (length b) then some v else some b)
unfolding closer
closer-near term v b f = ground arith

closest_from-IsBest :
    (term : Text) (vocabulary : List Text) (b : Option Text)
    → IsBest term [] b
    → Sees term vocabulary b (closest_from term vocabulary b)
unfolding closest_from
closest_from-IsBest term [] none h = (tt, tt)
closest_from-IsBest term [] (some b) h = (h, (omega arith, inl refl))
closest_from-IsBest term (v ∷ vocabulary) none h = elim (Bool-cases (near term v)) [
  | inr far ↦ rw (closer_far term v none far) (
      pass_far term v vocabulary none (closest_from term vocabulary none) far
        (closest_from-IsBest term vocabulary none h))
  | inl hit ↦ rw (closer_first term v hit) (
      take_first term v vocabulary (closest_from term vocabulary (some v))
        (closest_from-IsBest term vocabulary (some v) (hit, tt)))
]
closest_from-IsBest term (v ∷ vocabulary) (some b) h = elim (Bool-cases (near term v)) [
  | inr far ↦ rw (closer_far term v (some b) far) (
      pass_far term v vocabulary (some b) (closest_from term vocabulary (some b)) far
        (closest_from-IsBest term vocabulary (some b) h))
  | inl hit ↦ elim (Bool-cases (ltb (length v) (length b))) [
    | inl less ↦
        rw (closer-near term v b hit, less)
          (take_shorter term v vocabulary b (closest_from term vocabulary (some v))
            (ground (arith, less)) (closest_from-IsBest term vocabulary (some v) (hit, tt)))
    | inr more ↦
        rw (closer-near term v b hit, more)
          (pass_longer term v vocabulary b (closest_from term vocabulary (some b))
            (ground (arith, more)) (closest_from-IsBest term vocabulary (some b) h))
  ]
]

-- What `_closest` may return.
abbrev pub IsClosest : Text → List Text → Option Text → Type 0
IsClosest term vocabulary none = All (λ v. ¬ OneEdit term v) vocabulary
IsClosest term vocabulary (some best) =
    Any (λ v. v ≡ best) vocabulary
    × OneEdit term best
    × All (λ v. (¬ OneEdit term v) ⊎ (length best ≤ length v)) vocabulary

not-near : (term v : Text) → near term v ≡ false → ¬ OneEdit term v
not-near term v f o = cc ((near-OneEdit term v).1 o)

IsBest-IsClosest :
    (term : Text) (vocabulary : List Text) (r : Option Text)
    → Sees term vocabulary none r
    → IsClosest term vocabulary r
IsBest-IsClosest term vocabulary none h = All-imp _ _ (not-near term) vocabulary h.0
IsBest-IsClosest term vocabulary (some best) ((n, all), from) = (
  from,
  (near-OneEdit term best).0 n,
  All-imp _ _ (λ v c. elim c [ inl far ↦ inl (not-near term v far) | inr le ↦ inr le ]) vocabulary
      all,
)

-- The closest word is a word of the vocabulary, one edit apart and no longer than any other such
-- word; there is none only if no word is one edit apart.
pub closest-IsClosest :
    (term : Text) (vocabulary : List Text) → IsClosest term vocabulary (closest term vocabulary)
unfolding closest
closest-IsClosest term vocabulary =
    IsBest-IsClosest term vocabulary (closest_from term vocabulary none)
      (closest_from-IsBest term vocabulary none tt)

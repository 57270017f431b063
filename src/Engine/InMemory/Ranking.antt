-- ===== src/Engine/InMemory/Ranking.antt =====
-- doc-search/app/clients/inmemory_engine.py: the order of the scored documents.
use mathlib.Core.List.{Perm}
use mathlib.Core.List.Perm
use distributed_document_sea.Prelude.{
  ◌≡◌, inl, inr, refl, Text, true, false, List, [], ◌∷◌, Bool-cases, arith,
}
use distributed_document_sea.Engine.InMemory.Search.{
  Scored, text_leb, is_ahead, insert_ranked, ranked,
}

-- Each document is ahead of the next one.
abbrev pub IsRanked : List Scored → Type 0
IsRanked [] = Unit
IsRanked (x ∷ []) = Unit
IsRanked (x ∷ y ∷ rest) = (is_ahead x y ≡ true) × IsRanked (y ∷ rest)

text_leb_total : (a b : Text) → text_leb a b ≡ false → text_leb b a ≡ true
unfolding text_leb
text_leb_total [] b h = cc
text_leb_total (x ∷ a) [] h = refl
text_leb_total (x ∷ a) (y ∷ b) h = ground (arith, text_leb_total a b)

is_ahead_total : (x y : Scored) → is_ahead x y ≡ false → is_ahead y x ≡ true
unfolding is_ahead
is_ahead_total (s, a) (t, b) h = ground (arith, text_leb_total a.doc.document_id b.doc.document_id)

insert_ranked-IsRanked : (x : Scored) (l : List Scored) → IsRanked l → IsRanked (insert_ranked x l)
unfolding insert_ranked
insert_ranked-IsRanked x [] h = tt
insert_ranked-IsRanked x (y ∷ []) h = elim (Bool-cases (is_ahead x y)) [
  | inl first ↦ rw first (first, tt)
  | inr later ↦ rw later (is_ahead_total x y later, tt)
]
insert_ranked-IsRanked x (y ∷ z ∷ l) h = elim (Bool-cases (is_ahead x y)) [
  | inl first ↦ rw first (first, h)
  | inr later ↦ elim (Bool-cases (is_ahead x z)) [
    | inl second ↦ rw (later, second) (is_ahead_total x y later, (second, h.1))
    | inr third ↦
        let rest = insert_ranked-IsRanked x (z ∷ l) h.1 in
        rw (later, third) (h.0, (rw third at rest))
  ]
]

insert_ranked-perm : (x : Scored) (l : List Scored) → Perm (insert_ranked x l) (x ∷ l)
unfolding insert_ranked
insert_ranked-perm x [] = Perm.rfl
insert_ranked-perm x (y ∷ l) = elim (Bool-cases (is_ahead x y)) [
  | inl first ↦ rw first Perm.rfl
  | inr later ↦ rw later (Perm.trans (Perm.cons y (insert_ranked-perm x l)) (Perm.swap x y l))
]

-- A ranking has the same documents, each ahead of the next one.
pub ranked-IsRanked : (l : List Scored) → IsRanked (ranked l) × Perm (ranked l) l
unfolding ranked
ranked-IsRanked [] = (tt, Perm.rfl)
ranked-IsRanked (x ∷ l) =
    let (order, same) = ranked-IsRanked l in
    (
      insert_ranked-IsRanked x (ranked l) order,
      Perm.trans (insert_ranked-perm x (ranked l)) (Perm.cons x same),
    )

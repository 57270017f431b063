-- ===== src/Processor/Plans.antt =====
-- doc-search/app/workers/processor.py: what a plan holds of one document.
use distributed_document_sea.Prelude.{
  ◌≡◌, ◌≢◌, inl, inr, refl, ap, ◌∙◌, Text, text_eq, text_eq_iff, text_eq_refl, Dict, lookup,
  Distinct, Bool, true, false, List, [], ◌∷◌, map, filter, none, some, arith, All, Bool-cases,
  Option-cases, All-filter,
}
use distributed_document_sea.Documents.{
  Document, Rows, deleted, status_eq, get_many, listed, find_first,
}
use distributed_document_sea.Documents.Queries.{row}
use distributed_document_sea.Engine.{Operation, document_id}
use distributed_document_sea.Engine.InMemory.{
  StoredDoc, apply, apply_all, after_write, lookup-apply,
}
use distributed_document_sea.Processor.{plan, operation_for, row_of}

pub row_of-get_many :
    (ids : List Text) (i : Text) (rows : Rows)
    → listed ids i ≡ true
    → row_of i (get_many ids rows) ≡ row i rows
unfolding row_of get_many filter find_first row
row_of-get_many ids i [] h = refl
row_of-get_many ids i (r ∷ rows) h =
    ground (arith, row_of-get_many ids i rows h, text_eq_iff r.id i)

pub listed-map :
    (f : Text → Text) (ids : List Text) (i : Text)
    → f i ≡ i
    → listed ids i ≡ true
    → listed (map f ids) i ≡ true
unfolding listed
listed-map f [] i e h = cc
listed-map f (j ∷ ids) i e h =
    ground (arith, listed-map f ids i e, text_eq_iff j i, text_eq_iff (f j) i)

not-listed : (i : Text) (ids : List Text) → All (λ j. i ≢ j) ids → listed ids i ≡ false
unfolding listed
not-listed i [] h = refl
not-listed i (j ∷ ids) h = ground (arith, not-listed i ids h.1, h.0, text_eq_iff j i)

document_id-operation_for : (i : Text) (d : Document) → document_id (operation_for i d) ≡ i
unfolding operation_for
document_id-operation_for i d = ground arith

plan-none :
    (j : Text) (ids : List Text) (rows : Rows)
    → row_of j rows ≡ none
    → (plan (j ∷ ids) rows).operations ≡ (plan ids rows).operations
unfolding plan
plan-none j ids rows h = ground arith

plan-some :
    (j : Text) (ids : List Text) (rows : Rows) (d : Document)
    → row_of j rows ≡ some d
    → (plan (j ∷ ids) rows).operations ≡ operation_for j d ∷ (plan ids rows).operations
unfolding plan
plan-some j ids rows d h = ground arith

plan_elsewhere :
    (ids : List Text) (rows : Rows) (i : Text) (docs : Dict StoredDoc)
    → listed ids i ≡ false
    → lookup i (apply_all (plan ids rows).operations docs) ≡ lookup i docs
unfolding apply_all listed
plan_elsewhere [] rows i docs h = unfold plan in refl
plan_elsewhere (j ∷ ids) rows i docs h = elim (Option-cases (row_of j rows)) [
  | inl gone ↦ rw (plan-none j ids rows gone) (plan_elsewhere ids rows i docs (ground arith))
  | inr (d, found) ↦ rw (plan-some j ids rows d found) (
      plan_elsewhere ids rows i (apply (operation_for j d) docs) (ground arith)
      ∙ ground (arith, lookup-apply (operation_for j d) i docs, document_id-operation_for j d))
]

-- Each document of a plan is written once, from its row.
pub plan_writes :
    (ids : List Text) (rows : Rows) (i : Text) (d : Document) (docs : Dict StoredDoc)
    → Distinct ids
    → listed ids i ≡ true
    → row_of i rows ≡ some d
    → lookup i (apply_all (plan ids rows).operations docs)
      ≡ after_write (operation_for i d) (lookup i docs)
unfolding apply_all listed
plan_writes [] rows i d docs u h found = cc
plan_writes (j ∷ ids) rows i d docs u h found = elim (Bool-cases (text_eq j i)) [
  | inl same ↦
      let e : j ≡ i = (text_eq_iff j i).0 same in
      rw (plan-some j ids rows d (rw e found)) (
        plan_elsewhere ids rows i (apply (operation_for j d) docs) (not-listed i ids (rw e at u.0))
        ∙ (rw e (
            ground (
              arith,
              lookup-apply (operation_for i d) i docs,
              document_id-operation_for i d,
              text_eq_refl i,
            ))))
  | inr other ↦ elim (Option-cases (row_of j rows)) [
    | inl gone ↦
        rw (plan-none j ids rows gone) (plan_writes ids rows i d docs u.1 (ground arith) found)
    | inr (d', found') ↦ rw (plan-some j ids rows d' found') (
        plan_writes ids rows i d (apply (operation_for j d') docs) u.1 (ground arith) found
        ∙ ap (after_write (operation_for i d)) (
            ground
              (arith, lookup-apply (operation_for j d') i docs, document_id-operation_for j d')))
  ]
]

pub plan_busy :
    (ids : List Text) (rows : Rows) (i : Text) (d : Document)
    → listed ids i ≡ true
    → row_of i rows ≡ some d
    → listed (map document_id (plan ids rows).operations) i ≡ true
unfolding plan listed
plan_busy [] rows i d h found = cc
plan_busy (j ∷ ids) rows i d h found =
    ground (arith, plan_busy ids rows i d, document_id-operation_for j d, text_eq_iff j i)

pub plan_indexes :
    (ids : List Text) (rows : Rows) (i : Text) (d : Document)
    → listed ids i ≡ true
    → row_of i rows ≡ some d
    → status_eq d.status deleted ≡ false
    → listed (plan ids rows).index_ids i ≡ true
unfolding plan listed
plan_indexes [] rows i d h found live = cc
plan_indexes (j ∷ ids) rows i d h found live =
    ground (arith, plan_indexes ids rows i d, text_eq_iff j i, found)

pub Distinct-filter : (p : Text → Bool) (xs : List Text) → Distinct xs → Distinct (filter p xs)
unfolding filter
Distinct-filter p [] u = tt
Distinct-filter p (x ∷ xs) u = elim (Bool-cases (p x)) [
  | inl keep ↦ rw keep (All-filter (λ y. x ≢ y) p xs u.0, Distinct-filter p xs u.1)
  | inr drop ↦ rw drop (Distinct-filter p xs u.1)
]

pub listed_of_busy : (l : List Operation) (i : Text) → listed (map document_id l) i ≡ true → l ≢ []
unfolding listed
listed_of_busy [] i h e = cc
listed_of_busy (x ∷ l) i h e = cc

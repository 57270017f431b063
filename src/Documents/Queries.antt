-- ===== src/Documents/Queries.antt =====
-- What the queries return and what the updates leave alone.
use distributed_document_sea.Prelude.{
  ℕ, ◌≡◌, ◌≢◌, ◌⊎◌, inl, inr, refl, Text, text_eq, text_eq_iff, Bool, true, false, if◌then◌else◌,
  List, [], ◌∷◌, Option, none, some, map, Option-cases, arith,
}
use distributed_document_sea.Documents.{
  deleted, Document, Rows, create, selects, find_first, get, soft_deleted, update_row, soft_delete,
  mark_row_indexed, mark_indexed, mark_row_failed, mark_failed, taken,
}

-- The row with an id, if there is one: what the primary key looks up.
unfoldable pub row : Text → Rows → Option Document
row i rows = find_first (λ d. text_eq d.id i) rows

-- The primary key: an id has one row.
abbrev pub IsKeyed : Rows → Type 0
IsKeyed [] = Unit
IsKeyed (d ∷ rows) = (row d.id rows ≡ none) × IsKeyed rows

-- Nothing of another tenant is selected, and nothing deleted unless it is asked for.
pub get_selected :
    (t i : Text) (b : Bool) (rows : Rows) {d : Document}
    → get t i b rows ≡ some d
    → (d.tenant_id ≡ t) × (d.id ≡ i) × ((b ≡ true) ⊎ (d.status ≢ deleted))
unfolding get find_first selects
get_selected t i b [] h = cc
get_selected t i b (r ∷ rows) {d} h =
    ground (arith, get_selected t i b rows {d = d}, text_eq_iff r.id i, text_eq_iff r.tenant_id t)

pub get_absent : (t i : Text) (b : Bool) (rows : Rows) → row i rows ≡ none → get t i b rows ≡ none
unfolding get find_first selects row
get_absent t i b [] h = refl
get_absent t i b (r ∷ rows) h = ground (arith, get_absent t i b rows)

-- With one row to an id, the row that `get` selects is that row.
pub get-row :
    (t i : Text) (b : Bool) (rows : Rows) {d : Document}
    → IsKeyed rows
    → row i rows ≡ some d
    → get t i b rows ≡ (if selects t i b d then some d else none)
unfolding get find_first selects row
get-row t i b [] k h = cc
get-row t i b (r ∷ rows) {d} k h =
    ground (arith, get-row t i b rows {d = d}, get_absent t i b rows, text_eq_iff r.id i)

pub row-update_row :
    (d : Document) (i : Text) (rows : Rows)
    → row i (update_row d rows) ≡ (
        if text_eq d.id i
        then (elim (row i rows) [ none ↦ none | some r ↦ some d ])
        else row i rows)
unfolding row find_first update_row
row-update_row d i [] = ground arith
row-update_row d i (r ∷ rows) =
    ground (
      arith,
      row-update_row d i rows,
      text_eq_iff r.id d.id,
      text_eq_iff r.id i,
      text_eq_iff d.id i,
    )

pub row-create :
    (d : Document) (i : Text) (rows : Rows)
    → row i (create d rows)
      ≡ (elim (row i rows) [ none ↦ (if text_eq d.id i then some d else none) | some r ↦ some r ])
unfolding row find_first create
row-create d i [] = ground arith
row-create d i (r ∷ rows) = ground (arith, row-create d i rows)

pub row-id : (i : Text) (rows : Rows) {d : Document} → row i rows ≡ some d → d.id ≡ i
unfolding row find_first
row-id i [] h = cc
row-id i (r ∷ rows) {d} h = ground (arith, row-id i rows {d = d}, text_eq_iff r.id i)

pub row-mark_indexed :
    (now : ℕ) (ids : List Text) (i : Text) (rows : Rows)
    → row i (mark_indexed now ids rows)
      ≡ (elim (row i rows) [ none ↦ none | some r ↦ some (mark_row_indexed now ids r) ])
unfolding row find_first mark_indexed mark_row_indexed
row-mark_indexed now ids i [] = refl
row-mark_indexed now ids i (r ∷ rows) = ground (arith, row-mark_indexed now ids i rows)

-- A row that was soft deleted is not selected any more.
pub get-soft_delete :
    (now : ℕ) (t i : Text) (d : Document) (rows : Rows)
    → d.id ≡ i
    → get t i false (soft_delete now d rows) ≡ none
unfolding get find_first selects soft_delete update_row soft_deleted
get-soft_delete now t i d [] h = refl
get-soft_delete now t i d (r ∷ rows) h =
    ground (arith, get-soft_delete now t i d rows h, text_eq_iff r.id d.id, text_eq_iff r.id i)

pub row-mark_failed :
    (now : ℕ) (ids : List Text) (i : Text) (rows : Rows)
    → row i (mark_failed now ids rows)
      ≡ (elim (row i rows) [ none ↦ none | some r ↦ some (mark_row_failed now ids r) ])
unfolding row find_first mark_failed mark_row_failed
row-mark_failed now ids i [] = refl
row-mark_failed now ids i (r ∷ rows) = ground (arith, row-mark_failed now ids i rows)

pub row_of_not_taken : (i : Text) (rows : Rows) → taken i rows ≡ false → row i rows ≡ none
unfolding row find_first taken
row_of_not_taken i [] h = refl
row_of_not_taken i (r ∷ rows) h = ground (arith, row_of_not_taken i rows)

-- With one row to an id, what `get` selects is the row with the id.
pub row-get :
    (t i : Text) (b : Bool) (rows : Rows) (d : Document)
    → IsKeyed rows
    → get t i b rows ≡ some d
    → row i rows ≡ some d
row-get t i b rows d k h = elim (Option-cases (row i rows)) [
  | inl gone ↦ absurd (ground (arith, get_absent t i b rows gone))
  | inr (r, found) ↦ ground (arith, get-row t i b rows k found)
]

-- A write that maps over the rows and leaves their ids alone.
row-map-none :
    (f : Document → Document) (i : Text) (rows : Rows)
    → ((r : Document) → (f r).id ≡ r.id)
    → row i rows ≡ none
    → row i (map f rows) ≡ none
unfolding row find_first
row-map-none f i [] same h = refl
row-map-none f i (r ∷ rows) same h = ground (arith, same r, row-map-none f i rows same)

pub IsKeyed-map :
    (f : Document → Document) (rows : Rows)
    → ((r : Document) → (f r).id ≡ r.id)
    → IsKeyed rows
    → IsKeyed (map f rows)
IsKeyed-map f [] same k = tt
IsKeyed-map f (r ∷ rows) same k =
    (rw (same r) (row-map-none f r.id rows same k.0), IsKeyed-map f rows same k.1)

pub IsKeyed-create :
    (d : Document) (rows : Rows) → taken d.id rows ≡ false → IsKeyed rows → IsKeyed (create d rows)
unfolding create taken row find_first
IsKeyed-create d [] h k = ground arith
IsKeyed-create d (r ∷ rows) h k = (
  ground (arith, row-create d r.id rows, text_eq_iff r.id d.id, text_eq_iff d.id r.id),
  IsKeyed-create d rows (ground arith) k.1,
)

-- A row that was just stored is selected.
pub get-create :
    (d : Document) (rows : Rows)
    → taken d.id rows ≡ false
    → d.status ≢ deleted
    → get d.tenant_id d.id false (create d rows) ≡ some d
unfolding get find_first selects create taken
get-create d [] free live =
    ground (arith, text_eq_iff d.id d.id, text_eq_iff d.tenant_id d.tenant_id)
get-create d (r ∷ rows) free live = ground (arith, get-create d rows)

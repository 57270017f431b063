-- ===== src/Documents/Growth.antt =====
-- What every write of the repository keeps of the rows that are there.
use distributed_document_sea.Prelude.{
  ℕ, ◌≤◌, ◌≡◌, inl, inr, Text, text_eq, text_eq_iff, false, List, some, arith, Bool-cases,
}
use distributed_document_sea.Documents.{
  deleted, Document, Rows, taken, create, get, soft_deleted, update_row, soft_delete,
  mark_row_indexed, mark_indexed, mark_row_failed, mark_failed,
}
use distributed_document_sea.Documents.Queries.{
  row, IsKeyed, row-create, row-update_row, row-mark_indexed, row-mark_failed, row-get,
  get_selected, IsKeyed-map, IsKeyed-create,
}

-- One write, by whichever process makes it.
pub data Write (rows : Rows) : Rows → Type 0 where
  add : (d : Document) → taken d.id rows ≡ false → Write rows (create d rows)
  remove :
      (now : ℕ) (t i : Text) (d : Document)
      → get t i false rows ≡ some d
      → Write rows (soft_delete now d rows)
  index : (now : ℕ) (ids : List Text) → Write rows (mark_indexed now ids rows)
  fail : (now : ℕ) (ids : List Text) → Write rows (mark_failed now ids rows)

pub data Writes (rows : Rows) : Rows → Type 0 where
  here : Writes rows rows
  next : {mid end : Rows} → Writes rows mid → Write mid end → Writes rows end

-- What becomes of one row: its identity and content stay, its version does not fall, and a deleted
-- row stays deleted.
pub record Succeeds (r r' : Document) : Type 0 where
  pub same_id : r'.id ≡ r.id
  pub same_tenant : r'.tenant_id ≡ r.tenant_id
  pub same_content : r'.content ≡ r.content
  pub newer : r.version ≤ r'.version
  pub stays_deleted : r.status ≡ deleted → r' ≡ r

pub Succeeds-refl : (r : Document) → Succeeds r r
Succeeds-refl r = ground arith

pub Succeeds-trans : (a b d : Document) → Succeeds a b → Succeeds b d → Succeeds a d
Succeeds-trans a b d h k = ground arith

-- Every row has a successor.
abbrev pub Grows : Rows → Rows → Type 0
Grows rows rows' =
    (i : Text) (r : Document)
    → row i rows ≡ some r
    → (r' : Document) × (row i rows' ≡ some r') × Succeeds r r'

create-Grows : (d : Document) (rows : Rows) → Grows rows (create d rows)
create-Grows d rows i r h = (r, ground (arith, row-create d i rows), Succeeds-refl r)

mark_indexed-Grows :
    (now : ℕ) (ids : List Text) (rows : Rows) → Grows rows (mark_indexed now ids rows)
mark_indexed-Grows now ids rows i r h = (
  mark_row_indexed now ids r,
  ground (arith, row-mark_indexed now ids i rows),
  unfold mark_row_indexed in ground arith,
)

mark_failed-Grows :
    (now : ℕ) (ids : List Text) (rows : Rows) → Grows rows (mark_failed now ids rows)
mark_failed-Grows now ids rows i r h = (
  mark_row_failed now ids r,
  ground (arith, row-mark_failed now ids i rows),
  unfold mark_row_failed in ground arith,
)

soft_delete-Grows :
    (now : ℕ) (t i : Text) (d : Document) (rows : Rows)
    → IsKeyed rows
    → get t i false rows ≡ some d
    → Grows rows (soft_delete now d rows)
unfolding soft_delete
soft_delete-Grows now t i d rows k h j r found = elim (Bool-cases (text_eq d.id j)) [
  | inl same ↦
      let (_, is_i, live) = get_selected t i false rows h in
      let found_d = row-get t i false rows d k h in
      (
        soft_deleted now d,
        unfold soft_deleted in ground (arith, row-update_row (soft_deleted now d) j rows),
        unfold soft_deleted in ground (arith, text_eq_iff d.id j),
      )
  | inr other ↦ (
    r,
    unfold soft_deleted in ground (arith, row-update_row (soft_deleted now d) j rows),
    Succeeds-refl r,
  )
]

pub Write-IsKeyed : {rows rows' : Rows} → Write rows rows' → IsKeyed rows → IsKeyed rows'
unfolding soft_delete update_row soft_deleted mark_indexed mark_failed
Write-IsKeyed {rows} (add d h) k = IsKeyed-create d rows h k
Write-IsKeyed {rows} (remove now t i d h) k =
    IsKeyed-map _ rows (λ r. ground (arith, text_eq_iff r.id d.id)) k
Write-IsKeyed {rows} (index now ids) k =
    IsKeyed-map (mark_row_indexed now ids) rows (λ r. unfold mark_row_indexed in ground arith) k
Write-IsKeyed {rows} (fail now ids) k =
    IsKeyed-map (mark_row_failed now ids) rows (λ r. unfold mark_row_failed in ground arith) k

pub Write-Grows : {rows rows' : Rows} → IsKeyed rows → Write rows rows' → Grows rows rows'
Write-Grows {rows} k (add d h) = create-Grows d rows
Write-Grows {rows} k (remove now t i d h) = soft_delete-Grows now t i d rows k h
Write-Grows {rows} k (index now ids) = mark_indexed-Grows now ids rows
Write-Grows {rows} k (fail now ids) = mark_failed-Grows now ids rows

pub Grows-trans : (a b d : Rows) → Grows a b → Grows b d → Grows a d
Grows-trans a b d g h i r found =
    let (r', found', s) = g i r found in
    let (r'', found'', s') = h i r' found' in (r'', found'', Succeeds-trans r r' r'' s s')

-- From a table with one row to an id, after any sequence of inserts, soft deletes and status
-- updates the table still has one row to an id, and every row that was there still is, with its id,
-- tenant and content, a version that has not fallen, and unchanged if it was deleted.
pub Writes-grow :
    {rows rows' : Rows} → IsKeyed rows → Writes rows rows' → IsKeyed rows' × Grows rows rows'
Writes-grow {rows} k here = (k, λ i r found. (r, found, Succeeds-refl r))
Writes-grow {rows} {rows'} k (next {mid} ws w) =
    let (km, gm) = Writes-grow k ws in
    (Write-IsKeyed w km, Grows-trans rows mid rows' gm (Write-Grows km w))

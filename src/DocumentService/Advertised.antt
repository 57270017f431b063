-- ===== src/DocumentService/Advertised.antt =====
-- doc-search/app/services/document_service.py: requests in any order, with the database, the cache
-- and the queue failing and recovering between them.
use native.Mathlib.Nat.{le_refl}
use distributed_document_sea.DocumentService.Writes.{create_outcome, delete_found, delete_missing}
use distributed_document_sea.Prelude.{
  ℕ, ◌+◌, ◌≤◌, ◌≡◌, ◌⊎◌, inl, inr, refl, Text, Bool, true, false, if◌then◌else◌, List, [], ◌∷◌,
  ◌++◌, some, arith, Option-cases, Bool-cases, All, All-append, All-imp, text_eq_refl,
}
use distributed_document_sea.Cache.{Codec, Model}
use distributed_document_sea.Documents
use distributed_document_sea.Documents.{Document, deleted, Rows, soft_deleted, soft_delete}
use distributed_document_sea.Documents.Queries.{
  row, IsKeyed, row-create, row-get, row_of_not_taken, row-update_row, get_selected,
}
use distributed_document_sea.Documents.Growth.{Write, Grows, Write-IsKeyed, Write-Grows}
use distributed_document_sea.Events.{DocumentEvent, event_index, event_delete}
use distributed_document_sea.DocumentService.{
  DocumentCreate, DocumentResponse, World, create, delete, get, event_for, new_document,
}

-- The request of a tenant, or a change of the surroundings.
pub data Action : Type 0 where
  post : (tenant id event_id occurred_at : Text) → DocumentCreate → Action
  remove : (tenant id event_id occurred_at : Text) → Action
  read : (tenant id : Text) → Action
  database cache queue : Bool → Action
  wait : ℕ → Action

module _ (c : Codec) (model : Model c DocumentResponse) (ttl : ℕ) where
  unfoldable pub act : Action → World c → World c
  act (post t i e o payload) w = (create c i e o t payload w).1
  act (remove t i e o) w = (delete c e o t i w).1
  act (read t i) w = (get c model ttl t i w).1
  act (database up) w = record w { db = record w.db { reachable = up } }
  act (cache up) w = record w { cache = record w.cache { available = up } }
  act (queue up) w = record w { queue = record w.queue { available = up } }
  act (wait n) w = record w { now = w.now + n }

  unfoldable pub act_all : List Action → World c → World c
  act_all [] w = w
  act_all (a ∷ rest) w = act_all rest (act a w)

-- The row of an event: there, of the tenant that the event names, at least at its version, and
-- deleted if the event is a deletion.
abbrev pub IsAdvertised : Rows → DocumentEvent → Type 0
IsAdvertised rows e =
    (r : Document) × (row e.document_id rows ≡ some r)
    × (r.tenant_id ≡ e.tenant_id)
    × (e.version ≤ r.version)
    × ((e.type ≡ event_index) ⊎ (r.status ≡ deleted))

IsAdvertised-Grows :
    (rows rows' : Rows)
    → Grows rows rows'
    → (e : DocumentEvent) → IsAdvertised rows e
    → IsAdvertised rows' e
IsAdvertised-Grows rows rows' g e (r, found, tenant, version, kind) =
    let (r', found', s) = g e.document_id r found in
    (r', found', ground arith, omega (arith, s.newer), ground (arith, s.stays_deleted))

pub record IsSound {c : Codec} (w : World c) : Type 0 where
  pub keyed : IsKeyed w.db.rows
  pub advertised : All (IsAdvertised w.db.rows) w.queue.events

-- A write of the table, with at most one more event.
IsSound-Write :
    {c : Codec} (w w' : World c)
    → Write w.db.rows w'.db.rows
    → (w'.queue.events ≡ w.queue.events)
      ⊎ ((e : DocumentEvent) × (w'.queue.events ≡ w.queue.events ++ e ∷ [])
          × IsAdvertised w'.db.rows e)
    → IsSound w
    → IsSound w'
IsSound-Write w w' wr ev s = record {
  keyed = Write-IsKeyed wr s.keyed;
  advertised =
      let kept =
        All-imp _ _ (IsAdvertised-Grows _ _ (Write-Grows s.keyed wr)) w.queue.events s.advertised in
      elim ev [
        | inl same ↦ rw same kept
        | inr (e, more, adv) ↦ rw more (All-append _ w.queue.events (e ∷ []) kept (adv, tt))
      ];
}

IsSound-same :
    {c : Codec} (w w' : World c)
    → w'.db.rows ≡ w.db.rows
    → w'.queue.events ≡ w.queue.events
    → IsSound w
    → IsSound w'
IsSound-same w w' rows events s = record {
  keyed = rw rows s.keyed;
  advertised = rw (rows, events) s.advertised;
}

-- The events of a queue after a publication that may have failed.
published :
    {c : Codec} (w w' : World c) (up : Bool) (e : DocumentEvent)
    → w'.queue.events ≡ (if up then w.queue.events ++ e ∷ [] else w.queue.events)
    → IsAdvertised w'.db.rows e
    → (w'.queue.events ≡ w.queue.events)
      ⊎ ((e : DocumentEvent) × (w'.queue.events ≡ w.queue.events ++ e ∷ [])
          × IsAdvertised w'.db.rows e)
published w w' true e h adv = inr (e, h, adv)
published w w' false e h adv = inl h

deleted_row :
    (now : ℕ) (t i e o : Text) (d : Document) (rows : Rows)
    → IsKeyed rows
    → Documents.get t i false rows ≡ some d
    → IsAdvertised (soft_delete now d rows) (event_for event_delete e o (soft_deleted now d))
unfolding soft_delete event_for soft_deleted
deleted_row now t i e o d rows k found = (
  soft_deleted now d,
  ground (
    arith,
    row-update_row (soft_deleted now d) d.id rows,
    text_eq_refl d.id,
    row-get t i false rows d k found,
    (get_selected t i false rows found).1,
  ),
  refl,
  le_refl _,
  inr refl,
)

module _ (c : Codec) where
  post-IsSound :
      (t i e o : Text) (payload : DocumentCreate) (w : World c)
      → IsSound w
      → IsSound (create c i e o t payload w).1
  unfolding Documents.create
  post-IsSound t i e o payload w s = elim (create_outcome c i e o t payload w) [
    | inl (r, free, _, rows, events) ↦
        let d = new_document i t w.now payload in
        let w' = (create c i e o t payload w).1 in
        IsSound-Write w w' (rw rows (Write.add d (unfold new_document in free)))
          (published w w' w.queue.available (event_for event_index e o d) events (
            rw rows (
              d,
              unfold event_for new_document in
                  ground (
                    arith,
                    row-create d i w.db.rows,
                    row_of_not_taken i w.db.rows free,
                    text_eq_refl i,
                  ),
              unfold event_for in refl,
              unfold event_for in le_refl _,
              unfold event_for in inl refl,
            )))
          s
    | inr (inl (_, same)) ↦ rw same s
    | inr (inr (_, same)) ↦ rw same s
  ]

  remove-IsSound : (t i e o : Text) (w : World c) → IsSound w → IsSound (delete c e o t i w).1
  remove-IsSound t i e o w s = elim (Bool-cases w.db.reachable) [
    | inr r ↦ unfold delete in simp r s
    | inl r ↦ elim (Option-cases (Documents.get t i false w.db.rows)) [
      | inl missing ↦ rw (delete_missing c e o t i w r missing) s
      | inr (d, found) ↦
          let (_, rows, events) = delete_found c e o t i w d r found in
          let w' = (delete c e o t i w).1 in
          IsSound-Write w w' (rw rows (Write.remove w.now t i d found))
            (published w w' w.queue.available (event_for event_delete e o (soft_deleted w.now d))
              events (rw rows (deleted_row w.now t i e o d w.db.rows s.keyed found)))
            s
    ]
  ]

  read-IsSound :
      (model : Model c DocumentResponse) (ttl : ℕ) (t i : Text) (w : World c)
      → IsSound w
      → IsSound (get c model ttl t i w).1
  read-IsSound model ttl t i w =
      IsSound-same w (get c model ttl t i w).1 (unfold get in ground arith)
        (unfold get in ground arith)

  module _ (model : Model c DocumentResponse) (ttl : ℕ) where
    act-IsSound : (a : Action) (w : World c) → IsSound w → IsSound (act c model ttl a w)
    unfolding act
    act-IsSound (post t i e o payload) w s = post-IsSound t i e o payload w s
    act-IsSound (remove t i e o) w s = remove-IsSound t i e o w s
    act-IsSound (read t i) w s = read-IsSound model ttl t i w s
    act-IsSound (database up) w s = record { keyed = s.keyed; advertised = s.advertised }
    act-IsSound (cache up) w s = record { keyed = s.keyed; advertised = s.advertised }
    act-IsSound (queue up) w s = record { keyed = s.keyed; advertised = s.advertised }
    act-IsSound (wait n) w s = record { keyed = s.keyed; advertised = s.advertised }

    -- From a sound world, whatever requests come in whatever order, and whenever the database, the
    -- cache and the queue fail and recover: an id has one row, and every queued event names a row
    -- of its tenant whose version has reached the event's, and which is deleted if the event is a
    -- deletion.
    pub requests_advertise_rows :
        (actions : List Action) (w : World c) → IsSound w → IsSound (act_all c model ttl actions w)
    unfolding act_all
    requests_advertise_rows [] w s = s
    requests_advertise_rows (a ∷ rest) w s =
        requests_advertise_rows rest (act c model ttl a w) (act-IsSound a w s)

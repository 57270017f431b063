-- ===== src/DocumentService/Writes.antt =====
-- What a write commits, publishes and reports.
use distributed_document_sea.Generation.{invalidate_tenant}
use distributed_document_sea.Keys.{document_key}
use distributed_document_sea.Prelude.{
  ◌≡◌, refl, Text, text, if◌then◌else◌, true, false, [], ◌∷◌, ◌++◌, none, some, arith, ◌⊎◌, inl,
  inr, Bool-cases, ◌||◌, not,
}
use distributed_document_sea.Errors.{ok, err, raise_not_found}
use distributed_document_sea.Cache.{Codec, client_delete}
use distributed_document_sea.Documents
use distributed_document_sea.Documents.{Document, soft_deleted, soft_delete, listed}
use distributed_document_sea.Events.{event_index, event_delete, publish}
use distributed_document_sea.DocumentService.{
  DocumentCreate, World, database_error, new_document, event_for, create, delete, integrity_error,
}

module _ (c : Codec) (id event_id occurred_at tenant : Text) where
  pub create-reachable :
      (payload : DocumentCreate) (w : World c)
      → (create c id event_id occurred_at tenant payload w).1.db.reachable ≡ w.db.reachable
  unfolding create
  create-reachable payload w = ground arith

  pub committed :
      (payload : DocumentCreate) (w : World c)
      → w.db.reachable ≡ true
      → Documents.taken id w.db.rows ≡ false
      → listed w.db.tenant_ids tenant ≡ true
      → let d = new_document id tenant w.now payload in
        let out = create c id event_id occurred_at tenant payload w in
        (out.0 ≡ ok d)
        × (out.1.db.rows ≡ w.db.rows ++ d ∷ [])
        × (out.1.queue.events ≡ (
            if w.queue.available
            then w.queue.events ++ event_for event_index event_id occurred_at d ∷ []
            else w.queue.events))
  unfolding create Documents.create publish
  committed payload w r t k = rw (r, t, k) (refl, refl, ground arith)

  -- A creation stores the new row at the end of the table and queues its index event if the queue
  -- is up, or it fails with the database's error and changes nothing, because the database is down,
  -- the id is taken or the tenant has no row.
  pub create_outcome :
      (payload : DocumentCreate) (w : World c)
      → let d = new_document id tenant w.now payload in
        let out = create c id event_id occurred_at tenant payload w in
        ((w.db.reachable ≡ true)
          × (Documents.taken id w.db.rows ≡ false)
          × (out.0 ≡ ok d)
          × (out.1.db.rows ≡ w.db.rows ++ d ∷ [])
          × (out.1.queue.events ≡ (
              if w.queue.available
              then w.queue.events ++ event_for event_index event_id occurred_at d ∷ []
              else w.queue.events)))
        ⊎ (((w.db.reachable ≡ false) × (out ≡ (err database_error, w)))
            ⊎ (((Documents.taken id w.db.rows || not (listed w.db.tenant_ids tenant)) ≡ true)
                × (out ≡ (err integrity_error, w))))
  create_outcome payload w = elim (Bool-cases w.db.reachable) [
    | inl r ↦ elim (Bool-cases (Documents.taken id w.db.rows)) [
      | inl t ↦ inr (inr (rw t refl, unfold create in rw (r, t)))
      | inr t ↦ elim (Bool-cases (listed w.db.tenant_ids tenant)) [
        | inl k ↦ let (a, b, e) = committed payload w r t k in inl (r, t, a, b, e)
        | inr k ↦ inr (inr (rw (t, k) refl, unfold create in rw (r, t, k)))
      ]
    ]
    | inr r ↦ inr (inl (r, unfold create in rw r))
  ]

module _ (c : Codec) (event_id occurred_at tenant document_id : Text) where
  pub delete_parts :
      (w : World c) (d : Document)
      → w.db.reachable ≡ true
      → Documents.get tenant document_id false w.db.rows ≡ some d
      → let after = (delete c event_id occurred_at tenant document_id w).1 in
        (after.db.reachable ≡ true)
        × (after.now ≡ w.now)
        × (after.db.rows ≡ soft_delete w.now d w.db.rows)
        × (after.cache
            ≡ invalidate_tenant c w.now tenant
                (client_delete c (document_key tenant document_id ∷ []) w.cache))
  unfolding delete
  delete_parts w d r found = rw (r, found) (refl, refl, refl, refl)

  -- With the database up, deleting a document of the tenant succeeds, soft-deletes its row, and
  -- queues a delete event with the bumped version if the queue is up.
  pub delete_found :
      (w : World c) (d : Document)
      → w.db.reachable ≡ true
      → Documents.get tenant document_id false w.db.rows ≡ some d
      → let out = delete c event_id occurred_at tenant document_id w in
        (out.0 ≡ ok tt)
        × (out.1.db.rows ≡ soft_delete w.now d w.db.rows)
        × (out.1.queue.events ≡ (
            if w.queue.available
            then w.queue.events
              ++ event_for event_delete event_id occurred_at (soft_deleted w.now d) ∷ []
            else w.queue.events))
  unfolding delete publish
  delete_found w d r found = rw (r, found) (refl, refl, ground arith)

  -- With the database up, deleting a document that the tenant does not have, or has deleted before,
  -- fails with 404 and changes nothing.
  pub delete_missing :
      (w : World c)
      → w.db.reachable ≡ true
      → Documents.get tenant document_id false w.db.rows ≡ none
      → delete c event_id occurred_at tenant document_id w
        ≡ (err (raise_not_found (text "Document not found.")), w)
  unfolding delete
  delete_missing w r missing = rw (r, missing)

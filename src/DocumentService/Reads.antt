-- ===== src/DocumentService/Reads.antt =====
-- What a read returns, from the table or from the cache.
use native.Mathlib.Nat.{le_refl}
use distributed_document_sea.DocumentService.Writes.{delete_parts}
use distributed_document_sea.Prelude.{
  ℕ, ◌≡◌, ◌∙◌, Text, text, text_eq_refl, if◌then◌else◌, true, false, [], ◌∷◌, Option, none, some,
  arith,
}
use distributed_document_sea.Errors.{ok, err, raise_not_found}
use distributed_document_sea.Cache.{Codec, Model, InMemoryCache, client_delete}
use distributed_document_sea.Cache.FailOpen.{
  cached, get_json-cached, cached-client_delete, available-client_delete, fail_open,
}
use distributed_document_sea.Generation.{cached-invalidate, available-invalidate, invalidate_down}
use distributed_document_sea.Keys.{document_key}
use distributed_document_sea.Keys.Isolation.{IsUuid}
use distributed_document_sea.Documents
use distributed_document_sea.Documents.{Document, deleted, soft_deleted, soft_delete, update_row}
use distributed_document_sea.Documents.Queries.{get-soft_delete, get_selected}
use distributed_document_sea.DocumentService.{DocumentResponse, World, from_model, delete, get}

-- The cache, and the world, once the backend answers again.
abbrev pub restored : {c : Codec} → InMemoryCache c → InMemoryCache c
restored m = record m { available = true }

abbrev pub recovered : {c : Codec} → ℕ → World c → World c
recovered later w = record w { cache = restored w.cache; now = later }

module _ (c : Codec) (model : Model c DocumentResponse) (ttl : ℕ) where
  -- What the cache says of a document now.
  abbrev pub cached_document : Text → Text → World c → Option (c.Value)
  cached_document t i w =
      if w.cache.available then cached c w.now (document_key t i) w.cache else none

  pub get_miss :
      (t i : Text) (w : World c)
      → w.db.reachable ≡ true
      → cached_document t i w ≡ none
      → (get c model ttl t i w).0 ≡ (elim (Documents.get t i false w.db.rows) [
        | none ↦ err (raise_not_found (text "Document not found."))
        | some d ↦ ok (from_model d)
      ])
  unfolding get
  get_miss t i w r h = ground (arith, get_json-cached c w.now (document_key t i) w.cache)

  pub get_hit :
      (t i : Text) (w : World c) (r : DocumentResponse)
      → cached_document t i w ≡ some (model.dump r)
      → (get c model ttl t i w).0 ≡ ok r
  unfolding get
  get_hit t i w r h =
      ground (arith, get_json-cached c w.now (document_key t i) w.cache, model.validate_dump r)

  module _ (event_id occurred_at t i : Text) where
    -- After a tenant has deleted a document of its own, with the database and the cache up, reading
    -- it fails with 404 at once, whatever the cache held and whether or not the queue took the
    -- delete event.
    pub get-delete :
        (w : World c) (d : Document)
        → w.db.reachable ≡ true
        → w.cache.available ≡ true
        → IsUuid i
        → Documents.get t i false w.db.rows ≡ some d
        → (get c model ttl t i (delete c event_id occurred_at t i w).1).0
          ≡ err (raise_not_found (text "Document not found."))
    get-delete w d r a u found =
        let after = (delete c event_id occurred_at t i w).1 in
        let (reachable, now, rows, cache) = delete_parts c event_id occurred_at t i w d r found in
        get_miss t i after reachable (
          rw (now, cache)
            (ground (
              arith,
              cached-invalidate c w.now w.now t t i
                  (client_delete c (document_key t i ∷ []) w.cache) (le_refl w.now) u,
              available-invalidate c w.now t (client_delete c (document_key t i ∷ []) w.cache),
              available-client_delete c (document_key t i ∷ []) w.cache,
              cached-client_delete c w.now (document_key t i) (document_key t i) w.cache,
              text_eq_refl (document_key t i),
            )))
        ∙ rw
            (rows, get-soft_delete w.now t i d w.db.rows (get_selected t i false w.db.rows found).1)

    -- With the database up, if the cache is down while a tenant deletes a document of its own, and
    -- holds a response for it that is alive when the cache answers again, the deleted document is
    -- served.
    pub stale_after_outage :
        (w : World c) (d : Document) (later : ℕ) (x : DocumentResponse)
        → w.db.reachable ≡ true
        → w.cache.available ≡ false
        → Documents.get t i false w.db.rows ≡ some d
        → cached c later (document_key t i) (restored w.cache) ≡ some (model.dump x)
        → (get c model ttl t i (recovered later (delete c event_id occurred_at t i w).1)).0 ≡ ok x
    stale_after_outage w d later x r a found h =
        let (reachable, now, rows, cache) = delete_parts c event_id occurred_at t i w d r found in
        get_hit t i (recovered later (delete c event_id occurred_at t i w).1) x (
          rw
            (
              cache,
              (fail_open c w.now 0 (document_key t i) (model.dump x) w.cache a).2,
              invalidate_down c w.now t w.cache a,
            )
            h)

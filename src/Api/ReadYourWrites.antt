-- ===== src/Api/ReadYourWrites.antt =====
-- doc-search/app/api/routes/documents.py: a document that was created, asked for afterwards.
use distributed_document_sea.Prelude.{
  ℕ, ◌≡◌, refl, ap, ◌∙◌, text, true, false, none, some, arith, Text,
}
use distributed_document_sea.Errors.{ok}
use distributed_document_sea.Cache.{Codec, get_json}
use distributed_document_sea.Keys.{document_key}
use distributed_document_sea.Documents
use distributed_document_sea.Documents.{Rows, pending, deleted, listed}
use distributed_document_sea.Documents.Queries.{get-create}
use distributed_document_sea.DocumentService
use distributed_document_sea.DocumentService.{
  DocumentCreate, DocumentResponse, from_model, new_document,
}
use distributed_document_sea.Tenants.{Tenant}
use distributed_document_sea.RateLimiter.{RateLimitDecision}
use distributed_document_sea.Api.Protected.{Service, Site}
use distributed_document_sea.Api.Replies.{document, with_context, dispatch}
use distributed_document_sea.Api.Routes.{Drawn, Headers, get_document, get_documents}
use distributed_document_sea.Api.Refusals.{request_admitted}
use distributed_document_sea.Api.Ownership.{IsLetThrough, at_handler, created_at, post_stores}

module _ (c : Codec) {S : Type 0} (service : Service c S) (drawn : Drawn) where
  get_stored :
      (h : Headers) (t : Tenant) (d : RateLimitDecision) (row : Documents.Document) (s : Site c S)
      → IsLetThrough c service drawn (text "read") h t d s
      → s.world.db.reachable ≡ true
      → Documents.get t.id row.id false s.world.db.rows ≡ some row
      → (get_json c s.world.now
          (document_key t.id row.id)
          (at_handler c service drawn (text "read") h t s).world.cache).0
        ≡ none
      → let out = get_documents c service drawn (ok row.id) h s in
        (out.0.status ≡ 200) × (out.0.body ≡ document (from_model row))
  unfolding get_documents get_document DocumentService.get dispatch with_context
  get_stored h t d row s (decision, allowed) up found missed =
      let whole =
        request_admitted c service drawn (text "read") (ok row.id) (get_document c service drawn) h
          t d s row.id decision allowed refl in
      rw (whole, missed, up, found) (refl, refl)

-- What was sent, as the response of a new document.
abbrev pub created : Text → Text → ℕ → DocumentCreate → DocumentResponse
created id tenant_id now sent = record {
  id = id;
  tenant_id = tenant_id;
  title = sent.title;
  content = sent.content;
  content_type = sent.content_type;
  tags = sent.tags;
  metadata = sent.metadata;
  version = 1;
  status = pending;
  created_at = now;
  updated_at = now;
  indexed_at = none;
}

module _ (c : Codec) {S : Type 0} (service : Service c S) (drawn drawn' : Drawn) where
  -- A document whose creation was authenticated and admitted, with the database up, a fresh id and
  -- a row of the tenant, is there at once: a later request of the tenant for it, authenticated,
  -- admitted and not in the cache, is answered with 200 and a body that has the drawn id, the
  -- tenant, the title, the content, the content type, the tags and the metadata that were sent,
  -- version 1, the status pending and the time of the creation, whatever the queue and the engine
  -- do.
  pub read_your_write :
      (h h' : Headers) (t : Tenant) (d d' : RateLimitDecision) (payload : DocumentCreate)
      (later : ℕ) (s : Site c S)
      → IsLetThrough c service drawn (text "write") h t d s
      → s.world.db.reachable ≡ true
      → Documents.taken drawn.document_id s.world.db.rows ≡ false
      → listed s.world.db.tenant_ids t.id ≡ true
      → IsLetThrough c service drawn'
          (text "read")
          h'
          t
          d'
          (created_at c service drawn later payload h s)
      → (get_json c later
          (document_key t.id drawn.document_id)
          (at_handler c service drawn'
            (text "read")
            h'
            t
            (created_at c service drawn later payload h s)).world.cache).0
        ≡ none
      → let out =
          get_documents c service drawn'
            (ok drawn.document_id)
            h'
            (created_at c service drawn later payload h s) in
        (out.0.status ≡ 200)
        × (out.0.body ≡ document (created drawn.document_id t.id s.world.now payload))
  unfolding new_document from_model
  read_your_write h h' t d d' payload later s let_through up free known again missed =
      let row = new_document drawn.document_id t.id s.world.now payload in
      let (_, stored, up') =
        post_stores c service drawn h t d payload s let_through up free known in
      get_stored c service drawn' h' t d' row (created_at c service drawn later payload h s) again
        up'
        (ap (λ rows. Documents.get t.id drawn.document_id false rows) stored
          ∙ get-create row s.world.db.rows free (λ e. ground arith))
        missed

-- ===== src/Api/Ownership.antt =====
-- doc-search/app/api/routes/documents.py: whole requests for one document.
use distributed_document_sea.Prelude.{
  ℕ, ◌≡◌, ◌≢◌, ◌⊎◌, inl, inr, refl, ◌∙◌, Text, text, text_eq_iff, true, false, none, some, arith,
  [], text_eq,
}
use distributed_document_sea.Errors.{ok, app_error, status_code, code}
use distributed_document_sea.Errors.Handlers.{respond, handle_app_error}
use distributed_document_sea.Cache.{Codec, get_json}
use distributed_document_sea.Keys.{document_key}
use distributed_document_sea.Documents
use distributed_document_sea.Documents.{Document, Rows, selects, listed}
use distributed_document_sea.Documents.Queries.{row, IsKeyed, get_absent, get-row}
use distributed_document_sea.DocumentService
use distributed_document_sea.DocumentService.{
  DocumentCreate, DocumentResponse, World, from_model, new_document,
}
use distributed_document_sea.Tenants.{Tenant}
use distributed_document_sea.RateLimiter.{RateLimitDecision}
use distributed_document_sea.Api.Protected.{Service, Site}
use distributed_document_sea.Api.Replies.{
  Response, sent, with_context, request_id, dispatch, problem,
}
use distributed_document_sea.Api.Routes.{
  Drawn, Headers, create_document, get_document, delete_document, post_documents, get_documents,
  delete_documents,
}
use distributed_document_sea.Api.Refusals.{IsDecided, admitted_site, request_admitted}

-- The id stands for no document, or for one of another tenant.
abbrev pub IsNotOwned : Text → Text → Rows → Type 0
IsNotOwned tenant_id i rows =
    (row i rows ≡ none) ⊎ ((d : Document) × (row i rows ≡ some d) × (d.tenant_id ≢ tenant_id))

get-IsNotOwned :
    (t i : Text) (rows : Rows)
    → IsKeyed rows
    → IsNotOwned t i rows
    → Documents.get t i false rows ≡ none
unfolding selects
get-IsNotOwned t i rows k (inl gone) = get_absent t i false rows gone
get-IsNotOwned t i rows k (inr (d, found, foreign)) =
    get-row t i false rows k found ∙ ground (arith, text_eq_iff d.tenant_id t)

module _ (c : Codec) {S : Type 0} (service : Service c S) (drawn : Drawn) where
  -- The request is authenticated as the tenant's, and admitted.
  abbrev pub IsLetThrough : Text → Headers → Tenant → RateLimitDecision → Site c S → Type 0
  IsLetThrough bucket h t d s =
      IsDecided c service drawn bucket h.x_api_key t d s × (d.allowed ≡ true)

  abbrev pub at_handler : Text → Headers → Tenant → Site c S → Site c S
  at_handler bucket h t s = admitted_site c service drawn bucket h.x_api_key t s

  abbrev pub not_found_response : Headers → RateLimitDecision → Response
  not_found_response h d = with_context (request_id drawn.rid h.x_request_id) (some d) (record {
    status = 404;
    headers = [];
    body = problem (record {
      code = text "not_found";
      message = text "Document not found.";
      request_id = request_id drawn.rid h.x_request_id;
      fields = [];
    });
  })

  -- With the database up and one row to an id, an admitted request to delete a document that is not
  -- there or is of another tenant is answered with the same 404 in both cases, and only the cache
  -- entry of the tenant and the limiter have changed.
  pub foreign_delete_404 :
      (h : Headers) (t : Tenant) (d : RateLimitDecision) (i : Text) (s : Site c S)
      → IsLetThrough (text "write") h t d s
      → s.world.db.reachable ≡ true
      → IsKeyed s.world.db.rows
      → IsNotOwned t.id i s.world.db.rows
      → delete_documents c service drawn (ok i) h s
        ≡ (not_found_response h d, at_handler (text "write") h t s)
  unfolding delete_documents delete_document DocumentService.delete dispatch respond
      handle_app_error sent with_context app_error status_code code text_eq
  foreign_delete_404 h t d i s (decision, allowed) up keyed foreign =
      let whole =
        request_admitted c service drawn (text "write") (ok i) (delete_document c service drawn) h t
          d s i decision allowed refl in
      whole ∙ rw (up, get-IsNotOwned t.id i s.world.db.rows keyed foreign) refl

  -- An admitted request to read a document that is not there or is of another tenant, and of which
  -- the cache has nothing under the tenant's key, is answered with the same 404 in both cases.
  pub foreign_get_404 :
      (h : Headers) (t : Tenant) (d : RateLimitDecision) (i : Text) (s : Site c S)
      → IsLetThrough (text "read") h t d s
      → s.world.db.reachable ≡ true
      → IsKeyed s.world.db.rows
      → IsNotOwned t.id i s.world.db.rows
      → (get_json c s.world.now
          (document_key t.id i)
          (at_handler (text "read") h t s).world.cache).0
        ≡ none
      → let out = get_documents c service drawn (ok i) h s in
        (out.0 ≡ not_found_response h d) × (out.1.world.db ≡ s.world.db)
  unfolding get_documents get_document DocumentService.get dispatch respond handle_app_error sent
      with_context app_error status_code code text_eq
  foreign_get_404 h t d i s (decision, allowed) up keyed foreign missed =
      let whole =
        request_admitted c service drawn (text "read") (ok i) (get_document c service drawn) h t d s
          i decision allowed refl in
      rw (whole, missed, up, get-IsNotOwned t.id i s.world.db.rows keyed foreign) (refl, refl)

  -- The state that a creation leaves, at a later time.
  abbrev pub created_at : ℕ → DocumentCreate → Headers → Site c S → Site c S
  created_at later payload h s =
      let s' = (post_documents c service drawn none (ok payload) h s).1 in
      record s' { world = record s'.world { now = later } }

  pub post_stores :
      (h : Headers) (t : Tenant) (d : RateLimitDecision) (payload : DocumentCreate) (s : Site c S)
      → IsLetThrough (text "write") h t d s
      → s.world.db.reachable ≡ true
      → Documents.taken drawn.document_id s.world.db.rows ≡ false
      → listed s.world.db.tenant_ids t.id ≡ true
      → let out = post_documents c service drawn none (ok payload) h s in
        (out.0.status ≡ 202)
        × (out.1.world.db.rows
            ≡ Documents.create
                (new_document drawn.document_id t.id s.world.now payload)
                s.world.db.rows)
        × (out.1.world.db.reachable ≡ true)
  unfolding post_documents create_document DocumentService.create dispatch with_context
  post_stores h t d payload s (decision, allowed) up free known =
      let whole =
        request_admitted c service drawn (text "write") (ok payload)
          (create_document c service drawn) h t d s payload decision allowed refl in
      rw (whole, up, free, known) (refl, refl, refl)

-- ===== src/Api/Routes.antt =====
-- doc-search/app/api/routes/documents.py and doc-search/app/api/routes/search.py: the handlers, and
-- whole requests.
use distributed_document_sea.Prelude.{ℕ, Text, text, [], ◌∷◌, ◌++◌, Option, none}
use distributed_document_sea.Errors.{Result, ok, err, Exn}
use distributed_document_sea.Cache.{Codec}
use distributed_document_sea.Documents.{Document}
use distributed_document_sea.DocumentService
use distributed_document_sea.DocumentService.{DocumentCreate, DocumentResponse, World}
use distributed_document_sea.Engine.{SearchQuery}
use distributed_document_sea.Search
use distributed_document_sea.Search.{SearchModel, SearchResponse}
use distributed_document_sea.Tenants.{Tenant}
use distributed_document_sea.Api.{SearchParams, search_documents}
use distributed_document_sea.Api.Protected.{Service, Site, with_cache, protected}
use distributed_document_sea.Api.Replies.{
  Response, accepted, document, results, no_content, request_id, dispatch,
}

-- What the server draws and reads for one request.
pub record Drawn : Type 0 where
  pub rid : Text
  pub document_id : Text
  pub event_id : Text
  pub occurred_at : Text
  pub redis_now : ℕ
  pub took : ℕ
  pub ttl : ℕ

-- The headers of a request that the service reads.
pub record Headers : Type 0 where
  pub x_api_key : Option Text
  pub x_request_id : Option Text

abbrev accepted_reply : Result Document → Result Response
accepted_reply (err e) = err e
accepted_reply (ok d) = ok (record {
  status = 202;
  headers = (text "Location", text "/documents/" ++ d.id) ∷ [];
  body = accepted (record {
    id = d.id;
    tenant_id = d.tenant_id;
    status = d.status;
    version = d.version;
    created_at = d.created_at;
  });
})

abbrev document_reply : Result DocumentResponse → Result Response
document_reply (err e) = err e
document_reply (ok r) = ok (record { status = 200; headers = []; body = document r })

abbrev deleted_reply : Result (Unit {0}) → Result Response
deleted_reply (err e) = err e
deleted_reply (ok _) = ok (record { status = 204; headers = []; body = no_content })

abbrev results_reply : Result SearchResponse → Result Response
results_reply (err e) = err e
results_reply (ok r) = ok (record { status = 200; headers = []; body = results r })

module _ (c : Codec) {S : Type 0} (service : Service c S) (drawn : Drawn) where
  -- A request to a protected route: the response, and the state that it leaves.
  unfoldable pub request :
      {P : Type 0}
      → Text
      → Option Exn
      → Result P
      → (Tenant → P → Site c S → Result Response × Site c S)
      → Headers
      → Site c S
      → Response × Site c S
  unfolding request_id dispatch
  request bucket body validated handler h s =
      let (o, s') =
        protected c service validated handler bucket body drawn.redis_now h.x_api_key s in
      (dispatch (request_id drawn.rid h.x_request_id) o, s')

module _ (c : Codec) {S : Type 0} (service : Service c S) (drawn : Drawn) where
  abbrev with_world : Site c S → World c → Site c S
  with_world s w = record s { world = w }

  unfoldable pub create_document : Tenant → DocumentCreate → Site c S → Result Response × Site c S
  create_document tenant payload s =
      let (r, w) =
        DocumentService.create c drawn.document_id drawn.event_id drawn.occurred_at tenant.id
          payload s.world in
      (accepted_reply r, with_world s w)

  unfoldable pub get_document : Tenant → Text → Site c S → Result Response × Site c S
  get_document tenant document_id s =
      let (r, w) =
        DocumentService.get c service.documents service.document_ttl tenant.id document_id
          s.world in
      (document_reply r, with_world s w)

  unfoldable pub delete_document : Tenant → Text → Site c S → Result Response × Site c S
  delete_document tenant document_id s =
      let (r, w) =
        DocumentService.delete c drawn.event_id drawn.occurred_at tenant.id document_id s.world in
      (deleted_reply r, with_world s w)

  abbrev run_search : Result SearchQuery → Site c S → Result Response × Site c S
  run_search (err e) s = (err e, s)
  run_search (ok q) s =
      let (r, (m, engine)) =
        Search.search c service.responses service.sha256 service.engine_search s.world.now
          drawn.took drawn.ttl q.tenant_id q (s.world.cache, s.engine) in
      (results_reply r, record (with_cache s m) { engine = engine })

  unfoldable pub search : Tenant → SearchParams → Site c S → Result Response × Site c S
  search tenant p s =
      run_search (search_documents service.max_page_size service.max_result_window tenant p) s

  -- `POST /documents`
  unfoldable pub post_documents :
      Option Exn → Result DocumentCreate → Headers → Site c S → Response × Site c S
  unfolding create_document
  post_documents body payload h s =
      request c service drawn (text "write") body payload create_document h s

  -- `GET /documents/{document_id}`
  unfoldable pub get_documents : Result Text → Headers → Site c S → Response × Site c S
  unfolding get_document
  get_documents document_id h s =
      request c service drawn (text "read") none document_id get_document h s

  -- `DELETE /documents/{document_id}`
  unfoldable pub delete_documents : Result Text → Headers → Site c S → Response × Site c S
  unfolding delete_document
  delete_documents document_id h s =
      request c service drawn (text "write") none document_id delete_document h s

  -- `GET /search`
  unfoldable pub get_search : Result SearchParams → Headers → Site c S → Response × Site c S
  unfolding search
  get_search params h s = request c service drawn (text "search") none params search h s

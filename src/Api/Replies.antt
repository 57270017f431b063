-- ===== src/Api/Replies.antt =====
-- doc-search/app/middleware/request_context.py, doc-search/app/schemas/document.py and the handlers of
-- errors: what the client is sent.
--
-- The handler of `Exception` stands outside the middleware (the framework calls it after the
-- middleware has raised), those of the other classes inside it.
use distributed_document_sea.Prelude.{
  ℕ, Text, text, decimal, List, [], ◌∷◌, ◌++◌, Option, none, some,
}
use distributed_document_sea.Errors.{Exn, Result, ok, err}
use distributed_document_sea.Errors.Handlers.{Envelope, JsonResponse, respond, handle_unexpected}
use distributed_document_sea.Documents.{DocumentStatus}
use distributed_document_sea.DocumentService.{DocumentResponse}
use distributed_document_sea.Search.{SearchResponse}
use distributed_document_sea.RateLimiter.{RateLimitDecision}
use distributed_document_sea.Api.{rate_limit_headers}
use distributed_document_sea.Api.Protected.{Outcome}

pub record DocumentAccepted : Type 0 where
  pub id : Text
  pub tenant_id : Text
  pub status : DocumentStatus
  pub version : ℕ
  pub created_at : ℕ

pub data Body : Type 0 where
  accepted : DocumentAccepted → Body
  document : DocumentResponse → Body
  results : SearchResponse → Body
  no_content : Body
  problem : Envelope → Body

pub record Response : Type 0 where
  pub status : ℕ
  pub headers : List (Text × Text)
  pub body : Body

-- `request.headers.get("X-Request-ID") or uuid.uuid4().hex[:16]`
unfoldable pub request_id : Text → Option Text → Text
request_id drawn none = drawn
request_id drawn (some []) = drawn
request_id drawn (some (x ∷ xs)) = x ∷ xs

abbrev retry_after_headers : Option ℕ → List (Text × Text)
retry_after_headers none = []
retry_after_headers (some n) = (text "Retry-After", decimal n) ∷ []

unfoldable pub sent : JsonResponse → Response
sent r = record {
  status = r.status;
  headers = retry_after_headers r.retry_after;
  body = problem r.content;
}

-- The headers that the middleware adds.
unfoldable pub with_context : Text → Option RateLimitDecision → Response → Response
unfolding rate_limit_headers
with_context rid d r = record r {
  headers = r.headers ++ (text "X-Request-ID", rid) ∷ rate_limit_headers d;
}

-- What a handler of errors gives, or what the handler of `Exception` sends if it raises.
abbrev handled : Text → Option RateLimitDecision → Result JsonResponse → Response
handled rid d (ok r) = with_context rid d (sent r)
handled rid d (err e) = sent (handle_unexpected rid)

abbrev error_response : Text → Option RateLimitDecision → Exn → Response
error_response rid d e = handled rid d (respond rid e)

abbrev result_response : Text → Option RateLimitDecision → Result Response → Response
result_response rid d (ok r) = with_context rid d r
result_response rid d (err e) = error_response rid d e

-- `dispatch`, around the route and the handlers of errors.
unfoldable pub dispatch : Text → Outcome Response → Response
unfolding with_context sent
dispatch rid o = result_response rid o.rate_limit o.result

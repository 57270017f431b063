-- ===== src/Errors/Handlers.antt =====
-- doc-search/app/api/exception_handlers.py: each exception as a response.
use distributed_document_sea.Prelude.{
  ℕ, ◌+◌, ◌/◌, max, Text, text, if◌then◌else◌, ◌==◌, List, [], ◌∷◌, ◌++◌, map, take, drop, Option,
  none, some,
}
use distributed_document_sea.Errors.{
  Seconds, ErrorClass, rate_limited, status_code, code, AppError, Exn, app, http_exception,
  request_validation, other, Result, ok, err, ◌>>=◌,
}

-- A field of a validation message: where, and why.
pub record FieldError : Type 0 where
  pub field : Text
  pub reason : Text

pub record Envelope : Type 0 where
  pub code : Text
  pub message : Text
  pub request_id : Text
  pub fields : List FieldError

pub record JsonResponse : Type 0 where
  pub status : ℕ
  pub content : Envelope
  pub retry_after : Option ℕ

-- `_envelope`; of `details` only the fields of a validation error are kept.
envelope : Text → Text → Text → List FieldError → Envelope
envelope request_id code message fields = record {
  code = code;
  message = message;
  request_id = request_id;
  fields = fields;
}

-- `max(1, int(exc.retry_after_seconds) + 1)`: `int` raises on the infinite time of a bucket that is
-- never filled.
unfoldable pub retry_after_header : Seconds → Result ℕ
retry_after_header s =
    if s.den == 0 then err (other (text "OverflowError")) else ok (max 1 (s.num / s.den + 1))

-- `isinstance(exc, RateLimitedError)`
abbrev header_of : ErrorClass → Result (Option ℕ)
header_of (rate_limited s limit) = retry_after_header s >>= λ n. ok (some n)
header_of _ = ok none

unfoldable pub handle_app_error : Text → AppError → Result JsonResponse
unfolding envelope retry_after_header
handle_app_error rid e = header_of e.error_class >>= λ retry_after. ok (record {
  status = status_code e.error_class;
  content = envelope rid (code e.error_class) e.message [];
  retry_after = retry_after;
})

-- `".".join(loc[1:])`
unfoldable pub join_dots : List Text → Text
join_dots [] = []
join_dots (p ∷ []) = p
join_dots (p ∷ q ∷ rest) = p ++ (text "." ++ join_dots (q ∷ rest))

unfoldable pub handle_validation_error : Text → List (List Text × Text) → JsonResponse
unfolding envelope join_dots
handle_validation_error rid errors = record {
  status = 422;
  content =
      envelope rid (text "validation_error") (text "Request validation failed.")
        (take 20 (map (λ e. record { field = join_dots (drop 1 e.0); reason = e.1 }) errors));
  retry_after = none;
}

http_code : ℕ → Text
http_code status =
    if status == 401
    then text "unauthorized"
    else if status == 403
    then text "forbidden"
    else if status == 404
    then text "not_found"
    else if status == 405
    then text "method_not_allowed"
    else text "http_error"

unfoldable pub handle_http_exception : Text → ℕ → Text → JsonResponse
unfolding envelope http_code
handle_http_exception rid status detail = record {
  status = status;
  content = envelope rid (http_code status) detail [];
  retry_after = none;
}

unfoldable pub handle_unexpected : Text → JsonResponse
unfolding envelope
handle_unexpected rid = record {
  status = 500;
  content =
      envelope rid (text "internal_error") (text "An internal error occurred. Please retry.") [];
  retry_after = none;
}

-- The handler that the framework picks for an exception, except the one of `Exception`, to which any
-- other exception goes and what a handler raises.
unfoldable pub respond : Text → Exn → Result JsonResponse
unfolding handle_app_error handle_validation_error handle_http_exception
respond rid (app e) = handle_app_error rid e
respond rid (http_exception status detail) = ok (handle_http_exception rid status detail)
respond rid (request_validation errors) = ok (handle_validation_error rid errors)
respond rid (other what) = err (other what)

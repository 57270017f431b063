-- ===== src/Errors.antt =====
-- doc-search/app/core/errors.py: the domain errors, and exceptions as values. Everything that the
-- service can raise is an `Exn`; a fallible function returns a `Result`.
pub mod Handlers
use distributed_document_sea.Prelude.{
  ℕ, Text, text, text_eq, if◌then◌else◌, Bool, true, false, List, [], ◌++◌,
}

-- A float number of seconds that the code computes as a quotient, kept exact. A zero denominator
-- stands for the infinite value that Lua computes.
pub record Seconds : Type 0 where
  pub num : ℕ
  pub den : ℕ

-- The subclasses of `AppError`, with the attributes that they add. `internal` is the base class.
pub data ErrorClass : Type 0 where
  internal bad_request unauthorized forbidden not_found payload_too_large : ErrorClass
  rate_limited : Seconds → ℕ → ErrorClass
  dependency_unavailable : Text → ErrorClass

-- The class attributes `status_code`, `code` and `message`.
unfoldable pub status_code : ErrorClass → ℕ
status_code internal = 500
status_code bad_request = 400
status_code unauthorized = 401
status_code forbidden = 403
status_code not_found = 404
status_code payload_too_large = 413
status_code (rate_limited _ _) = 429
status_code (dependency_unavailable _) = 503

unfoldable pub code : ErrorClass → Text
code internal = text "internal_error"
code bad_request = text "bad_request"
code unauthorized = text "unauthorized"
code forbidden = text "forbidden"
code not_found = text "not_found"
code payload_too_large = text "payload_too_large"
code (rate_limited _ _) = text "rate_limited"
code (dependency_unavailable _) = text "dependency_unavailable"

unfoldable pub default_message : ErrorClass → Text
default_message internal = text "An internal error occurred."
default_message bad_request = text "The request is invalid."
default_message unauthorized = text "Missing or invalid API credentials."
default_message forbidden = text "The authenticated tenant may not access this resource."
default_message not_found = text "Resource not found."
default_message payload_too_large = text "Document payload exceeds the configured limit."
default_message (rate_limited _ _) = text "Per-tenant rate limit exceeded."
default_message (dependency_unavailable d) =
    text "Dependency '" ++ (d ++ text "' is unavailable. Please retry.")

pub record AppError : Type 0 where
  pub error_class : ErrorClass
  pub message : Text

-- `AppError.__init__`: `message or self.message`, so an empty message gives the default too.
unfoldable pub app_error : ErrorClass → Text → AppError
unfolding default_message
app_error c message = record {
  error_class = c;
  message = if text_eq message [] then default_message c else message;
}

-- What a handler or a client library may raise. `other` is any exception that is none of the
-- classes that the handlers single out (a driver's, `ConnectionError`, `RuntimeError`).
pub data Exn : Type 0 where
  app : AppError → Exn
  http_exception : ℕ → Text → Exn
  request_validation : List (List Text × Text) → Exn
  other : Text → Exn

pub data Result {ℓ} (A : Type ℓ) : Type ℓ where
  err : Exn → Result A
  ok : A → Result A

infixl 5 ◌>>=◌
-- The rest of a method after a call that may raise.
abbrev pub ◌>>=◌ : {A B : Type 0} → Result A → (A → Result B) → Result B
err e >>= rest = err e
ok a >>= rest = rest a

-- The errors as the code raises them.
abbrev pub raise_unavailable : Text → Exn
raise_unavailable d = app (app_error (dependency_unavailable d) [])

abbrev pub raise_not_found : Text → Exn
raise_not_found m = app (app_error not_found m)

-- `except DependencyUnavailableError`
unfoldable pub is_unavailable : Exn → Bool
is_unavailable (app e) = elim e.error_class [ dependency_unavailable _ ↦ true | _ ↦ false ]
is_unavailable _ = false

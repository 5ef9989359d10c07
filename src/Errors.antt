-- ===== src/Errors.antt =====
-- src/middleware/errorHandler.ts: the error classes, and the handlers that turn an error or an
-- unmatched route into a response.
pub mod Replies
mod Tests
use property_platform_backen.Prelude.{
  ℕ, Text, codes, String, Bool, true, false, Option, none, some, List, [], ◌∷◌, ◌++◌, leb,
  if◌then◌else◌,
}
use property_platform_backen.Json.{Json, bool, num, str, obj, Fields, end, field}

pub record AppError : Type 0 where
  pub message : Text
  pub status_code : ℕ
  pub code : Text
  pub is_operational : Bool

-- What a handler can throw: an `AppError`, the subclass `ValidationError` with its details, or
-- any other error with the `errno`, `code` and `message` that the program reads of it.
pub data Thrown : Type 0 where
  app_error : AppError → Thrown
  validation_error : AppError → Option Json → Thrown
  other_error : Option ℕ → Option Text → Text → Thrown

unfoldable pub new_app_error : Text → ℕ → Text → AppError
new_app_error message status_code code = record {
  message = message;
  status_code = status_code;
  code = code;
  is_operational = true;
}

unfoldable pub new_validation_error : Text → Option Json → Thrown
unfolding new_app_error
new_validation_error message details =
    validation_error (new_app_error message 400 (codes "VALIDATION_ERROR")) details

unfoldable pub not_found_error : Text → Thrown
unfolding new_app_error
not_found_error message = app_error (new_app_error message 404 (codes "NOT_FOUND"))

unfoldable pub conflict_error : Text → Thrown
unfolding new_app_error
conflict_error message = app_error (new_app_error message 409 (codes "CONFLICT"))

unfoldable pub unauthorized_error : Text → Thrown
unfolding new_app_error
unauthorized_error message = app_error (new_app_error message 401 (codes "UNAUTHORIZED"))

unfoldable pub too_many_requests_error : Text → Thrown
unfolding new_app_error
too_many_requests_error message = app_error (new_app_error message 429 (codes "RATE_LIMITED"))

pub record Response : Type 0 where
  pub status : ℕ
  pub body : Json

pub data Level : Type 0 where
  warn error : Level

-- One line of the log: its level, its message, and the error that it describes.
pub record LogLine : Type 0 where
  pub level : Level
  pub message : Text
  pub cause : Thrown

with_details : Option Json → Fields
with_details none = end
with_details (some details) = field (codes "details") details end

failure_body : Text → Text → Fields → Option Text → Json
failure_body code message more request_id = obj (
    field (codes "success") (bool false) (
      field (codes "error")
        (obj (field (codes "code") (str code) (field (codes "message") (str message) more)))
        (elim request_id [ none ↦ end | some id ↦ field (codes "requestId") (str id) end ])))

-- The branch of `errorHandler` for an `AppError`.
handle_app_error : Thrown → AppError → Fields → Text → LogLine × Response
unfolding failure_body
handle_app_error err e more request_id = (
  record {
    level = if leb 500 e.status_code then error else warn;
    message = e.message;
    cause = err;
  },
  record { status = e.status_code; body = failure_body e.code e.message more (some request_id) },
)

unfoldable pub error_handler : Bool → Text → Thrown → LogLine × Response
unfolding handle_app_error with_details failure_body
error_handler is_prod request_id (app_error e) = handle_app_error (app_error e) e end request_id
error_handler is_prod request_id (validation_error e details) =
    handle_app_error (validation_error e details) e (with_details details) request_id
error_handler is_prod request_id (other_error errno code message) = (
  record {
    level = error;
    message = codes "Unhandled error";
    cause = other_error errno code message;
  },
  record {
    status = 500;
    body =
        failure_body (codes "INTERNAL_ERROR")
          (codes "Something went wrong. Please try again later.")
          (if is_prod then end else field (codes "debug") (str message) end) (some request_id);
  },
)

unfoldable pub not_found_handler : Text → Text → Response
unfolding failure_body
not_found_handler method path = record {
  status = 404;
  body =
      failure_body (codes "NOT_FOUND")
        (codes "Route " ++ method ++ codes " " ++ path ++ codes " not found") end none;
}

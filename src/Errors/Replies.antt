-- ===== src/Errors/Replies.antt =====
-- What a client can learn from an error response.
use property_platform_backen.Prelude.{ℕ, ◌≤◌, Text, ◌≡◌, refl, ◌↔◌, Bool, true, arith}
use property_platform_backen.Errors.{
  Thrown, app_error, validation_error, other_error, error_handler, error,
}

-- The status that a client is told: the error's own, and 500 for an error of no class of ours.
abbrev pub status_of : Thrown → ℕ
status_of (app_error e) = e.status_code
status_of (validation_error e details) = e.status_code
status_of (other_error errno code message) = 500

abbrev pub IsAuthored : Thrown → Type 0
IsAuthored (other_error errno code message) = ⊥
IsAuthored _ = Unit

-- In production any two errors that are no `AppError` have the same response: neither the message
-- nor the code nor the errno of the first reaches the client.
pub error_handler_hides :
    (request_id : Text) (e e' : Thrown)
    → ¬ IsAuthored e
    → ¬ IsAuthored e'
    → (error_handler true request_id e).1 ≡ (error_handler true request_id e').1
unfolding error_handler
error_handler_hides id (other_error a b c) (other_error a' b' c') h h' = refl
error_handler_hides id (app_error a) e' h h' = absurd (h tt)
error_handler_hides id (validation_error a d) e' h h' = absurd (h tt)
error_handler_hides id (other_error a b c) (app_error a') h h' = absurd (h' tt)
error_handler_hides id (other_error a b c) (validation_error a' d') h h' = absurd (h' tt)

-- Every error gets a response with the status of its class, 500 if it is no `AppError`, and one
-- line of the log about it, at level `error` exactly when that status is 500 or more.
pub error_handler-status :
    (is_prod : Bool) (request_id : Text) (e : Thrown)
    → ((error_handler is_prod request_id e).1.status ≡ status_of e)
      × ((error_handler is_prod request_id e).0.cause ≡ e)
      × (((error_handler is_prod request_id e).0.level ≡ error) ↔ (500 ≤ status_of e))
unfolding error_handler
error_handler-status p id (app_error e) = (refl, refl, ground arith)
error_handler-status p id (validation_error e d) = (refl, refl, ground arith)
error_handler-status p id (other_error a b c) = (refl, refl, ground arith)

-- ===== src/Errors/Tests.antt =====
-- Runs and instances of the error handlers.
use property_platform_backen.Prelude.{◌≡◌, refl, true, some, none, codes}
use property_platform_backen.Errors.{error_handler, other_error, conflict_error}
use property_platform_backen.Errors.Replies.{error_handler_hides}

error_handler_hides_example :
    (error_handler true (codes "r1") (other_error (some 1146) none (codes "no table"))).1
    ≡ (error_handler true (codes "r1") (other_error none none (codes "ECONNREFUSED"))).1
error_handler_hides_example =
    error_handler_hides (codes "r1") (other_error (some 1146) none (codes "no table"))
      (other_error none none (codes "ECONNREFUSED")) (λ h. h) (λ h. h)

conflict_status : (error_handler true (codes "r1") (conflict_error (codes "x"))).1.status ≡ 409
unfolding error_handler conflict_error
conflict_status = refl

-- ===== src/Health/Tests.antt =====
-- Runs of the checks.
use property_platform_backen.Prelude.{◌≡◌, [], ◌∷◌}
use property_platform_backen.Database.{refused, answered}
use property_platform_backen.Health.{readiness, verify_db_connection}
use property_platform_backen.Health.Ready.{readiness_cases, verify_cases}
use property_platform_backen.Samples.{town}

redis_down : (readiness (town (answered ∷ refused ∷ []))).0.status ≡ 503
redis_down = (readiness_cases (town (answered ∷ refused ∷ []))).1

returned : (verify_db_connection (town (answered ∷ refused ∷ []))).1.leased ≡ 0
returned = (verify_cases (town (answered ∷ refused ∷ []))).1.0

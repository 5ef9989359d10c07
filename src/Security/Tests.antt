-- ===== src/Security/Tests.antt =====
-- Instances of the theorems on sanitising and on origins.
use property_platform_backen.Prelude.{◌≡◌, ◌↔◌, refl, codes, true, some, [], ◌∷◌, arith}
use property_platform_backen.Json.{Json, str, obj, end, field}
use property_platform_backen.Hash.{is_space, trim_start, cons_unless_blank, trim_end, trim, join}
use property_platform_backen.Security.{sanitize_body, is_filled, cors_origin_validator, allow}
use property_platform_backen.Security.Clean.{IsClean, sanitize_body-IsClean}
use property_platform_backen.Security.Origins.{IsPlain, Listed, cors_origin_validator_iff}
use property_platform_backen.Hash.Trim.{trim-twice}

abbrev body : Json
body = obj (field (codes "message") (str (codes " hi ")) end)

sanitize_body-IsClean_example : IsClean (λ s. trim s ≡ s) (sanitize_body (λ s. s) body)
sanitize_body-IsClean_example = sanitize_body-IsClean (λ s. trim s ≡ s) (λ s. s) trim-twice body tt

origin_a : IsPlain (codes "a")
unfolding codes trim trim_start trim_end cons_unless_blank is_space
origin_a = record { filled = refl; no_comma = ((λ e. ground arith), tt); trimmed = refl }

origin_b : IsPlain (codes "b")
unfolding codes trim trim_start trim_end cons_unless_blank is_space
origin_b = record { filled = refl; no_comma = ((λ e. ground arith), tt); trimmed = refl }

b_filled : is_filled (codes "b") ≡ true
unfolding codes
b_filled = refl

cors_origin_validator_iff_example :
    (cors_origin_validator (join b',' (codes "a" ∷ codes "b" ∷ [])) (some (codes "b")) ≡ allow)
    ↔ Listed (codes "b") (codes "a" ∷ codes "b" ∷ [])
cors_origin_validator_iff_example =
    cors_origin_validator_iff (codes "a" ∷ codes "b" ∷ []) (codes "b") (origin_a, (origin_b, tt))
      b_filled

-- ===== src/Security.antt =====
-- `requestId`, `sanitizeBody`, `deepSanitize` and `corsOriginValidator` of
-- src/middleware/security.ts. What `sanitizeHtml` does to a string, with no tag and no attribute
-- allowed, is an argument.
pub mod Clean
pub mod Origins
mod Tests
use property_platform_backen.Prelude.{
  ℕ, Text, codes, text_eq, Bool, true, false, not, Option, none, some, List, [], ◌∷◌, any, map,
  select, ◌==◌, if◌then◌else◌,
}
use property_platform_backen.Json.{
  Json, null, bool, num, str, arr, obj, Items, nil, cons, Fields, end, field,
}
use property_platform_backen.Errors.{Thrown, other_error}
use property_platform_backen.Hash.{trim}

-- An assignment to `out['__proto__']` makes no field of `out`.
abbrev pub set_field : Text → Json → Fields → Fields
set_field k v out = if text_eq k (codes "__proto__") then out else field k v out

module _ (sanitize_html : Text → Text) where
  unfoldable mutual
    pub deep_sanitize : Json → Json
    deep_sanitize null = null
    deep_sanitize (bool b) = bool b
    deep_sanitize (num n) = num n
    deep_sanitize (str s) = str (trim (sanitize_html s))
    deep_sanitize (arr items) = arr (sanitize_items items)
    deep_sanitize (obj fields) = obj (sanitize_fields fields)

    pub sanitize_items : Items → Items
    sanitize_items nil = nil
    sanitize_items (cons v items) = cons (deep_sanitize v) (sanitize_items items)

    pub sanitize_fields : Fields → Fields
    sanitize_fields end = end
    sanitize_fields (field k v fields) = set_field k (deep_sanitize v) (sanitize_fields fields)

  -- Only an object or an array is sanitised: a body that is a string is left alone.
  unfoldable pub sanitize_body : Json → Json
  sanitize_body (arr items) = deep_sanitize (arr items)
  sanitize_body (obj fields) = deep_sanitize (obj fields)
  sanitize_body body = body

cons_first : ℕ → List Text → List Text
cons_first c [] = (c ∷ []) ∷ []
cons_first c (part ∷ parts) = (c ∷ part) ∷ parts

-- `s.split(sep)`, for a separator of one unit.
unfoldable pub split : ℕ → Text → List Text
unfolding cons_first
split sep [] = [] ∷ []
split sep (c ∷ s) = let rest = split sep s in if c == sep then [] ∷ rest else cons_first c rest

abbrev pub is_filled : Text → Bool
is_filled [] = false
is_filled (c ∷ s) = true

-- `env.CORS_ALLOWED_ORIGINS`, taken apart.
unfoldable pub allowed_origins : Text → List Text
allowed_origins origins = select is_filled (map trim (split b',' origins))

-- What the callback is given.
pub data OriginVerdict : Type 0 where
  allow : OriginVerdict
  fail : Thrown → OriginVerdict

unfoldable pub cors_origin_validator : Text → Option Text → OriginVerdict
cors_origin_validator origins none = allow
cors_origin_validator origins (some []) = allow
cors_origin_validator origins (some (c ∷ s)) =
    if any (λ o. text_eq o (c ∷ s)) (allowed_origins origins)
    then allow
    else fail (other_error none none (codes "Not allowed by CORS"))

-- `requestId`: the id of the request, given what `uuidv4` returns.
unfoldable pub request_id : Option Text → Text → Text
request_id none uuid = uuid
request_id (some []) uuid = uuid
request_id (some (c ∷ id)) uuid = c ∷ id

-- ===== src/Security/Clean.antt =====
-- What a sanitised body holds.
use property_platform_backen.Prelude.{◌≡◌, Text, codes, text_eq, Bool-cases, false, inl, inr}
use property_platform_backen.Json.{
  Json, null, bool, num, str, arr, obj, Items, nil, cons, Fields, end, field,
}
use property_platform_backen.Hash.{trim}
use property_platform_backen.Security.{
  deep_sanitize, sanitize_items, sanitize_fields, sanitize_body,
}

module _ (Clean : Text → Type 0) where
  -- Every string in the value, at any depth, is clean, and no field is named `__proto__`.
  mutual
    pub IsClean : Json → Type 0
    IsClean null = Unit
    IsClean (bool b) = Unit
    IsClean (num n) = Unit
    IsClean (str s) = Clean s
    IsClean (arr items) = AreClean items
    IsClean (obj fields) = HaveClean fields

    pub AreClean : Items → Type 0
    AreClean nil = Unit
    AreClean (cons v items) = IsClean v × AreClean items

    pub HaveClean : Fields → Type 0
    HaveClean end = Unit
    HaveClean (field k v fields) =
        (text_eq k (codes "__proto__") ≡ false) × (IsClean v × HaveClean fields)

abbrev pub IsContainer : Json → Type 0
IsContainer (arr items) = Unit
IsContainer (obj fields) = Unit
IsContainer _ = ⊥

module _ (Clean : Text → Type 0) (sanitize_html : Text → Text)
    (cleans : (s : Text) → Clean (trim (sanitize_html s))) where
  mutual
    unfolding deep_sanitize IsClean

    deep_sanitize-IsClean : (j : Json) → IsClean Clean (deep_sanitize sanitize_html j)
    deep_sanitize-IsClean null = tt
    deep_sanitize-IsClean (bool b) = tt
    deep_sanitize-IsClean (num n) = tt
    deep_sanitize-IsClean (str s) = cleans s
    deep_sanitize-IsClean (arr items) = sanitize_items-AreClean items
    deep_sanitize-IsClean (obj fields) = sanitize_fields-HaveClean fields

    sanitize_items-AreClean : (items : Items) → AreClean Clean (sanitize_items sanitize_html items)
    sanitize_items-AreClean nil = tt
    sanitize_items-AreClean (cons v items) =
        (deep_sanitize-IsClean v, sanitize_items-AreClean items)

    sanitize_fields-HaveClean :
        (fields : Fields) → HaveClean Clean (sanitize_fields sanitize_html fields)
    sanitize_fields-HaveClean end = tt
    sanitize_fields-HaveClean (field k v fields) =
        elim (Bool-cases (text_eq k (codes "__proto__"))) [
          | inl proto ↦ rw proto (sanitize_fields-HaveClean fields)
          | inr plain ↦
              rw plain (plain, (deep_sanitize-IsClean v, sanitize_fields-HaveClean fields))
        ]

  -- If `sanitizeHtml` and `trim` make every string clean, then after `sanitizeBody` every string
  -- of a body that is an object or an array is clean, at any depth, and no field is named
  -- `__proto__`.
  pub sanitize_body-IsClean :
      (body : Json) → IsContainer body → IsClean Clean (sanitize_body sanitize_html body)
  unfolding sanitize_body
  sanitize_body-IsClean (arr items) h = deep_sanitize-IsClean (arr items)
  sanitize_body-IsClean (obj fields) h = deep_sanitize-IsClean (obj fields)
  sanitize_body-IsClean null h = absurd h
  sanitize_body-IsClean (bool b) h = absurd h
  sanitize_body-IsClean (num n) h = absurd h
  sanitize_body-IsClean (str s) h = absurd h

-- ===== src/Cms/Tests.antt =====
-- Instances of the theorems on the CMS, over the store in memory.
use property_platform_backen.Prelude.{
  ◌≡◌, refl, codes, if◌then◌else◌, List, [], ◌∷◌, true, none, some, arith,
}
use property_platform_backen.Json.{Json, null}
use property_platform_backen.Errors.{other_error}
use property_platform_backen.Effects.{ok, err}
use property_platform_backen.Redis.Memory.{Cell, memory, look_up}
use property_platform_backen.Cache.{CacheEnvelope}
use property_platform_backen.EnquiryApi.{respond}
use property_platform_backen.Cms.{
  invalidated_response, with_reply, properties_outcome, property_outcome, property_response,
  invalidate_property_cache_handler, properties_key, page_size, Posts, list_response,
  list_properties_handler, get_property_by_slug_handler,
}
use property_platform_backen.Redis.{is_literal}
use property_platform_backen.Cms.Invalidation.{
  is_outdated, invalidate_handler_exact, reads_after_webhook,
}
use property_platform_backen.Database.{answered, refused}
use property_platform_backen.Cms.Unreachable.{
  is_answered, try_list_properties_handler, found_status, list_status,
}

abbrev page : CacheEnvelope Posts
page = record { data_of = record { page_info = null; nodes = null }; cached_at = 100 }

-- The first page is kept for six hours.
abbrev full : List (Cell (CacheEnvelope Posts))
full = record { key = codes "wpcms:properties:20:start"; value = page; deadline = 21600000 } ∷ []

abbrev empty : List (Cell (CacheEnvelope Json))
empty = []

ab_literal : is_literal (codes "ab") ≡ true
unfolding codes
ab_literal = refl

invalidate_handler_exact_example :
    let (reply, left) =
      invalidate_property_cache_handler
        (memory (CacheEnvelope Posts))
        400000
        (some (codes "ab"))
        full in
    (reply ≡ ok invalidated_response)
    × (look_up 400000 (codes "wpcms:properties:20:start") left ≡ (
        if is_outdated (some (codes "ab")) (codes "wpcms:properties:20:start")
        then none
        else look_up 400000 (codes "wpcms:properties:20:start") full))
invalidate_handler_exact_example =
    invalidate_handler_exact (memory (CacheEnvelope Posts)) 400000 (some (codes "ab"))
      (codes "wpcms:properties:20:start") full ab_literal

reads_after_webhook_example :
    ((list_properties_handler
        (memory (CacheEnvelope Posts))
        300
        400001
        none
        none
        (err (other_error none none (codes "down")))
        400002
        (invalidate_property_cache_handler
          (memory (CacheEnvelope Posts))
          400000
          (some (b'a' ∷ b'b' ∷ []))
          full).1).0
      ≡ with_reply list_response (properties_outcome (err (other_error none none (codes "down")))))
    × ((get_property_by_slug_handler
          (memory (CacheEnvelope Json))
          300
          400001
          (b'a' ∷ b'b' ∷ [])
          (ok none)
          400002
          (invalidate_property_cache_handler
            (memory (CacheEnvelope Json))
            400000
            (some (b'a' ∷ b'b' ∷ []))
            empty).1).0
        ≡ with_reply property_response (property_outcome (b'a' ∷ b'b' ∷ []) (ok none)))
reads_after_webhook_example =
    reads_after_webhook (memory (CacheEnvelope Posts)) (memory (CacheEnvelope Json)) b'a'
      (b'b' ∷ []) 300 400000 400001 400002 none none (err (other_error none none (codes "down")))
      (ok none) full empty (omega arith) refl

-- The CMS answers and the cache is empty, but the page cannot be stored.
list_status_example :
    (respond true (codes "r1") (
      try_list_properties_handler
        (memory (CacheEnvelope Posts))
        answered
        refused
        300
        400000
        none
        none
        (ok page.data_of)
        400001
        [])).0.status
    ≡ (if is_answered answered
        then found_status
            (memory (CacheEnvelope Posts))
            refused
            300
            400000
            (look_up 400000 (properties_key (page_size none) none) [])
            (ok page.data_of)
        else 500)
list_status_example =
    list_status (memory (CacheEnvelope Posts)) true (codes "r1") answered refused 300 400000 none
      none (ok page.data_of) 400001 []

-- ===== src/Cms/Invalidation.antt =====
-- What a webhook of the CMS takes out of the cache.
use property_platform_backen.Prelude.{
  ℕ, ◌≤◌, ◌∙◌, ◌≡◌, refl, Text, codes, Bool, true, ◌||◌, Option, none, some, [], ◌∷◌, ◌++◌,
  if◌then◌else◌, arith, decimal,
}
use property_platform_backen.Json.{Json}
use property_platform_backen.Effects.{Result, ok}
use property_platform_backen.Redis.{Redis, starts, is_literal}
use property_platform_backen.Cache.{
  CacheEnvelope, invalidate_cache_by_prefix, get_or_set_with_swr, serve_found, missed,
}
use property_platform_backen.Cache.Prefixes.{get-invalidate_cache_by_prefix}
use property_platform_backen.Cms.{
  Posts, or_start, properties_key, property_key, page_size, with_reply, list_response,
  properties_outcome, property_outcome, property_response, invalidate_property_cache,
  invalidate_property_cache_handler, list_properties_handler, get_property_by_slug_handler,
  fetch_published_properties, fetch_property_by_slug, invalidated_response,
}

-- The slug that a webhook names.
abbrev pub named : Option Text → Text
named none = []
named (some slug) = slug

-- Whether a key is that of a page of listings, or starts with that of the property named.
abbrev pub is_outdated : Option Text → Text → Bool
is_outdated none k = starts (codes "wpcms:properties:") k
is_outdated (some []) k = starts (codes "wpcms:properties:") k
is_outdated (some (c ∷ slug)) k =
    starts (codes "wpcms:properties:") k || starts (property_key (c ∷ slug)) k

starts-append : (p t : Text) → starts p (p ++ t) ≡ true
unfolding starts
starts-append [] t = refl
starts-append (c ∷ p) t = ground (arith, starts-append p t)

starts_self : (p : Text) → starts p p ≡ true
unfolding starts
starts_self [] = refl
starts_self (c ∷ p) = ground (arith, starts_self p)

list_literal : is_literal (codes "wpcms:properties:") ≡ true
unfolding codes
list_literal = refl

key_literal :
    (slug : Text) → is_literal slug ≡ true → is_literal (codes "wpcms:property:" ++ slug) ≡ true
unfolding codes
key_literal slug h = h

module _ {T : Type 0} (redis : Redis (CacheEnvelope T)) where
  open redis use {Store, get, get_lapsed}

  get-invalidate_property_cache :
      (t : ℕ) (slug : Option Text) (k : Text) (s : Store)
      → is_literal (named slug) ≡ true
      → get t k (invalidate_property_cache redis t slug s)
        ≡ (if is_outdated slug k then none else get t k s)
  unfolding invalidate_property_cache property_key
  get-invalidate_property_cache t none k s h =
      get-invalidate_cache_by_prefix redis t (codes "wpcms:properties:") k s list_literal
  get-invalidate_property_cache t (some []) k s h =
      get-invalidate_cache_by_prefix redis t (codes "wpcms:properties:") k s list_literal
  get-invalidate_property_cache t (some (c ∷ slug)) k s h =
      let prefix = codes "wpcms:property:" ++ c ∷ slug in
      rw
        (
          get-invalidate_cache_by_prefix redis t (codes "wpcms:properties:") k
              (invalidate_cache_by_prefix redis t prefix s) list_literal,
          get-invalidate_cache_by_prefix redis t prefix k s (key_literal (c ∷ slug) h),
        )
        (ground arith)

  get_outdated :
      (t now : ℕ) (slug : Option Text) (k : Text) (s : Store)
      → t ≤ now
      → is_literal (named slug) ≡ true
      → is_outdated slug k ≡ true
      → get now k (invalidate_property_cache redis t slug s) ≡ none
  get_outdated t now slug k s le h old =
      get_lapsed t now k (invalidate_property_cache redis t slug s) le
        (get-invalidate_property_cache t slug k s h ∙ rw old refl)

  -- A webhook is answered with 200. If the slug that it names, if any, has no character with a
  -- meaning in a pattern, then of the cache just the pages of listings are gone, and the entries
  -- whose keys start with that of the property named.
  pub invalidate_handler_exact :
      (t : ℕ) (slug : Option Text) (k : Text) (s : Store)
      → is_literal (named slug) ≡ true
      → let (reply, left) = invalidate_property_cache_handler redis t slug s in
        (reply ≡ ok invalidated_response)
        × (get t k left ≡ (if is_outdated slug k then none else get t k s))
  unfolding invalidate_property_cache_handler
  invalidate_handler_exact t slug k s h = (refl, get-invalidate_property_cache t slug k s h)

outdated_page :
    (slug : Option Text) (first : ℕ) (after : Option Text)
    → is_outdated slug (properties_key first after) ≡ true
unfolding properties_key
outdated_page none first after =
    starts-append (codes "wpcms:properties:") (decimal first ++ (codes ":" ++ or_start after))
outdated_page (some []) first after =
    starts-append (codes "wpcms:properties:") (decimal first ++ (codes ":" ++ or_start after))
outdated_page (some (c ∷ slug)) first after =
    rw (starts-append (codes "wpcms:properties:") (decimal first ++ (codes ":" ++ or_start after)))

outdated_property :
    (c : ℕ) (slug : Text) → is_outdated (some (c ∷ slug)) (property_key (c ∷ slug)) ≡ true
outdated_property c slug =
    let at_end : starts (property_key (c ∷ slug)) (property_key (c ∷ slug)) ≡ true =
      starts_self (property_key (c ∷ slug)) in
    ground (arith, at_end)

-- If a webhook names a slug without a character that has a meaning in a pattern, then until the
-- cache is written again each page of listings and the property itself are answered from the CMS,
-- for better or worse: with what its reply, or its failure, comes to.
pub reads_after_webhook :
    (pages : Redis (CacheEnvelope Posts)) (posts : Redis (CacheEnvelope Json)) (c : ℕ) (slug : Text)
    (ttl t now done : ℕ) (first : Option ℕ) (after : Option Text) (listing : Result Posts)
    (post : Result (Option Json)) (s : pages.Store) (u : posts.Store)
    → t ≤ now
    → is_literal (c ∷ slug) ≡ true
    → ((list_properties_handler pages ttl now first after listing done
          (invalidate_property_cache_handler pages t (some (c ∷ slug)) s).1).0
        ≡ with_reply list_response (properties_outcome listing))
      × ((get_property_by_slug_handler posts ttl now
            (c ∷ slug)
            post
            done
            (invalidate_property_cache_handler posts t (some (c ∷ slug)) u).1).0
          ≡ with_reply property_response (property_outcome (c ∷ slug) post))
unfolding list_properties_handler get_property_by_slug_handler fetch_published_properties
    fetch_property_by_slug get_or_set_with_swr serve_found missed invalidate_property_cache_handler
reads_after_webhook pages posts c slug ttl t now done first after listing post s u le h = (
  rw
      (get_outdated pages t now (some (c ∷ slug)) (properties_key (page_size first) after) s le h
        (outdated_page (some (c ∷ slug)) (page_size first) after))
      refl,
  rw
      (get_outdated posts t now (some (c ∷ slug)) (property_key (c ∷ slug)) u le h
        (outdated_property c slug))
      refl,
)

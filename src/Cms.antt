-- ===== src/Cms.antt =====
-- src/services/wpGraphQL.service.ts and the handlers of src/controllers/property.controller.ts.
-- What the GraphQL client returns or throws is an argument, and the content of the CMS is passed on
-- as JSON.
pub mod Keys
pub mod Outages
pub mod Unreachable
pub mod Invalidation
mod Tests
use property_platform_backen.Prelude.{
  ℕ, Text, codes, decimal, Bool, true, Option, none, some, List, [], ◌∷◌, ◌++◌, leb, if◌then◌else◌,
}
use property_platform_backen.Json.{Json, bool, str, obj, end, field}
use property_platform_backen.Errors.{
  Thrown, app_error, validation_error, other_error, new_app_error, Response,
}
use property_platform_backen.Effects.{Result, ok, err}
use property_platform_backen.Redis.{Redis}
use property_platform_backen.Cache.{
  CacheEnvelope, Fetch, Served, get_or_set_with_swr, invalidate_cache_by_prefix,
}

-- `data.posts`
pub record Posts : Type 0 where
  pub page_info : Json
  pub nodes : Json

abbrev pub grace : ℕ
grace = 600

-- `after ?? 'start'`
abbrev pub or_start : Option Text → Text
or_start none = codes "start"
or_start (some after) = after

unfoldable pub properties_key : ℕ → Option Text → Text
properties_key first after =
    codes "wpcms:properties:" ++ (decimal first ++ (codes ":" ++ or_start after))

unfoldable pub property_key : Text → Text
property_key slug = codes "wpcms:property:" ++ slug

unfoldable pub upstream_error : Text → Thrown
unfolding new_app_error
upstream_error message = app_error (new_app_error message 502 (codes "CMS_UPSTREAM_ERROR"))

-- The fetcher of `fetchPublishedProperties`, given how the client's request ends.
unfoldable pub properties_outcome : Result Posts → Result Posts
properties_outcome (ok posts) = ok posts
properties_outcome (err e) =
    err (
      upstream_error
        (codes "Unable to load property listings right now. Please try again shortly."))

-- The `catch` of `fetchPropertyBySlug`.
unfoldable pub property_failure : Thrown → Thrown
property_failure (other_error errno code message) =
    upstream_error (codes "Unable to load property details right now. Please try again shortly.")
property_failure e = e

unfoldable pub property_outcome : Text → Result (Option Json) → Result Json
unfolding property_failure new_app_error
property_outcome slug (ok (some post)) = ok post
property_outcome slug (ok none) = err (
    property_failure (
      app_error (
        new_app_error (codes "Property \"" ++ slug ++ codes "\" not found in CMS") 404
          (codes "NOT_FOUND"))))
property_outcome slug (err e) = err (property_failure e)

-- `Math.min(Number(req.query.first) || 20, 50)`, where none stands for no number, or 0.
unfoldable pub page_size : Option ℕ → ℕ
page_size none = 20
page_size (some n) = if leb n 50 then n else 50

unfoldable pub with_reply : {T : Type 0} → (T → Response) → Result T → Result Response
with_reply f (ok value) = ok (f value)
with_reply f (err e) = err e

abbrev pub list_response : Posts → Response
list_response posts = record {
  status = 200;
  body = obj (
      field (codes "success") (bool true)
        (field (codes "data") posts.nodes (field (codes "pageInfo") posts.page_info end)));
}

abbrev pub property_response : Json → Response
property_response post = record {
  status = 200;
  body = obj (field (codes "success") (bool true) (field (codes "data") post end));
}

module _ (redis : Redis (CacheEnvelope Posts)) where
  open redis use {Store}

  -- With the lifetime `ttl` of the environment, at the time `now`, where the request of a fetch
  -- ends as `request` says at the time `done`.
  unfoldable pub fetch_published_properties :
      ℕ → ℕ → ℕ → Option Text → Result Posts → ℕ → Store → Served redis
  fetch_published_properties ttl now first after request done s =
      get_or_set_with_swr redis (properties_key first after) ttl grace now
        (record { outcome = properties_outcome request; done_at = done }) s

  unfoldable pub list_properties_handler :
      ℕ → ℕ → Option ℕ → Option Text → Result Posts → ℕ → Store → Result Response × Store
  list_properties_handler ttl now first after request done s =
      let served = fetch_published_properties ttl now (page_size first) after request done s in
      (with_reply list_response served.reply, served.store)

module _ (redis : Redis (CacheEnvelope Json)) where
  open redis use {Store}

  unfoldable pub fetch_property_by_slug :
      ℕ → ℕ → Text → Result (Option Json) → ℕ → Store → Served redis
  fetch_property_by_slug ttl now slug request done s =
      get_or_set_with_swr redis (property_key slug) ttl grace now
        (record { outcome = property_outcome slug request; done_at = done }) s

  unfoldable pub get_property_by_slug_handler :
      ℕ → ℕ → Text → Result (Option Json) → ℕ → Store → Result Response × Store
  get_property_by_slug_handler ttl now slug request done s =
      let served = fetch_property_by_slug ttl now slug request done s in
      (with_reply property_response served.reply, served.store)

abbrev pub invalidated_response : Response
invalidated_response = record {
  status = 200;
  body = obj (
      field (codes "success") (bool true)
        (field (codes "message") (str (codes "Cache invalidated")) end));
}

-- For envelopes of pages and of properties alike: one Redis holds both.
module _ {T : Type 0} (redis : Redis (CacheEnvelope T)) where
  open redis use {Store}

  -- `invalidatePropertyCache` at a time.
  unfoldable pub invalidate_property_cache : ℕ → Option Text → Store → Store
  invalidate_property_cache now none s =
      invalidate_cache_by_prefix redis now (codes "wpcms:properties:") s
  invalidate_property_cache now (some []) s =
      invalidate_cache_by_prefix redis now (codes "wpcms:properties:") s
  invalidate_property_cache now (some (c ∷ slug)) s =
      invalidate_cache_by_prefix redis now (codes "wpcms:properties:")
        (invalidate_cache_by_prefix redis now (codes "wpcms:property:" ++ c ∷ slug) s)

  -- The body's `slug`, where it has a text there.
  unfoldable pub invalidate_property_cache_handler :
      ℕ → Option Text → Store → Result Response × Store
  invalidate_property_cache_handler now slug s =
      (ok invalidated_response, invalidate_property_cache now slug s)

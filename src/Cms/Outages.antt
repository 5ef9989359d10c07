-- ===== src/Cms/Outages.antt =====
-- What clients see of the CMS and its failures.
use property_platform_backen.Prelude.{
  ℕ, ◌+◌, ◌*◌, ◌<◌, ◌≡◌, ◌⊎◌, refl, inl, inr, Text, Bool, Option, none, some, ltb, lt→ltb,
  Bool-cases,
}
use property_platform_backen.Json.{Json}
use property_platform_backen.Errors.{app_error, validation_error, other_error, error_handler}
use property_platform_backen.Errors.Replies.{IsAuthored}
use property_platform_backen.Effects.{Result, ok, err}
use property_platform_backen.Redis.{Redis}
use property_platform_backen.Cache.{CacheEnvelope, get_or_set_with_swr, serve_found, missed}
use property_platform_backen.EnquiryApi.{respond}
use property_platform_backen.Cms.{
  Posts, grace, properties_key, page_size, list_response, with_reply, fetch_published_properties,
  list_properties_handler, property_key, property_outcome, property_failure, upstream_error,
  fetch_property_by_slug, get_property_by_slug_handler, property_response,
}

module _ (redis : Redis (CacheEnvelope Posts)) where
  open redis use {Store, get}

  -- While the cache holds a page that is younger than its lifetime and ten minutes more, a request
  -- for the page is answered with 200 and that page, and the store is left alone, whatever the CMS
  -- does.
  pub list_during_outage :
      (is_prod : Bool) (request_id : Text) (ttl now : ℕ) (first : Option ℕ) (after : Option Text)
      (request : Result Posts) (done : ℕ) (s : Store) (e : CacheEnvelope Posts)
      → get now (properties_key (page_size first) after) s ≡ some e
      → now < e.cached_at + (ttl + grace) * 1000
      → respond is_prod request_id
          (list_properties_handler redis ttl now first after request done s)
        ≡ (list_response e.data_of, s)
  unfolding respond list_properties_handler fetch_published_properties get_or_set_with_swr
      serve_found with_reply
  list_during_outage is_prod request_id ttl now first after request done s e held young =
      elim (Bool-cases (ltb now (e.cached_at + ttl * 1000))) [
        | inl fresh ↦ rw (held, fresh)
        | inr old ↦ rw (held, old, lt→ltb now (e.cached_at + (ttl + grace) * 1000) young)
      ]

-- The statuses that a request for one property can have.
abbrev pub IsExpected : ℕ → Type 0
IsExpected status = (status ≡ 200) ⊎ ((status ≡ 404) ⊎ (status ≡ 502))

abbrev pub IsForeign : Result (Option Json) → Type 0
IsForeign (ok found) = Unit
IsForeign (err e) = ¬ IsAuthored e

module _ (redis : Redis (CacheEnvelope Json)) where
  open redis use {Store, get}

  missed-IsExpected :
      (is_prod : Bool) (request_id slug key : Text) (request : Result (Option Json)) (done : ℕ)
      (s : Store)
      → IsForeign request
      → IsExpected
          (respond is_prod request_id
            (with_reply property_response (property_outcome slug request), s)).0.status
  unfolding respond with_reply property_outcome property_failure upstream_error error_handler
  missed-IsExpected is_prod request_id slug key (ok (some post)) done s h = inl refl
  missed-IsExpected is_prod request_id slug key (ok none) done s h = inr (inl refl)
  missed-IsExpected is_prod request_id slug key (err (other_error a b c)) done s h = inr (inr refl)
  missed-IsExpected is_prod request_id slug key (err (app_error a)) done s h = absurd (h tt)
  missed-IsExpected is_prod request_id slug key (err (validation_error a d)) done s h =
      absurd (h tt)

  hit-IsExpected :
      (is_prod : Bool) (request_id : Text) (post : Json) (s : Store)
      → IsExpected (respond is_prod request_id (with_reply property_response (ok post), s)).0.status
  unfolding respond with_reply
  hit-IsExpected is_prod request_id post s = inl refl

  found-IsExpected :
      (is_prod : Bool) (request_id slug key : Text) (ttl now : ℕ) (request : Result (Option Json))
      (done : ℕ) (found : Option (CacheEnvelope Json)) (s : Store)
      → IsForeign request
      → let served =
          serve_found redis key ttl grace now
            (record { outcome = property_outcome slug request; done_at = done })
            found
            s in
        IsExpected
          (respond is_prod request_id
            (with_reply property_response served.reply, served.store)).0.status
  unfolding serve_found missed
  found-IsExpected is_prod request_id slug key ttl now request done none s h =
      missed-IsExpected is_prod request_id slug key request done _ h
  found-IsExpected is_prod request_id slug key ttl now request done (some e) s h =
      elim (Bool-cases (ltb now (e.cached_at + ttl * 1000))) [
        | inl fresh ↦ rw fresh (hit-IsExpected is_prod request_id e.data_of s)
        | inr old ↦ elim (Bool-cases (ltb now (e.cached_at + (ttl + grace) * 1000))) [
          | inl usable ↦ rw (old, usable) (hit-IsExpected is_prod request_id e.data_of s)
          | inr gone ↦
              rw (old, gone) (missed-IsExpected is_prod request_id slug key request done _ h)
        ]
      ]

  -- Whatever the cache holds, a request for a property by its slug is answered with 200, 404 or
  -- 502, where the client of the CMS throws no error of the program's own classes.
  pub get_property-IsExpected :
      (is_prod : Bool) (request_id slug : Text) (ttl now : ℕ) (request : Result (Option Json))
      (done : ℕ) (s : Store)
      → IsForeign request
      → IsExpected
          (respond is_prod request_id
            (get_property_by_slug_handler redis ttl now slug request done s)).0.status
  unfolding get_property_by_slug_handler fetch_property_by_slug get_or_set_with_swr
  get_property-IsExpected is_prod request_id slug ttl now request done s h =
      found-IsExpected is_prod request_id slug (property_key slug) ttl now request done
        (get now (property_key slug) s) s h

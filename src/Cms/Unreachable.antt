-- ===== src/Cms/Unreachable.antt =====
-- `GET /properties` of src/controllers/property.controller.ts where the commands of Redis may fail.
use property_platform_backen.Prelude.{
  ℕ, ◌+◌, ◌*◌, ◌≡◌, refl, inl, inr, Text, Bool, true, false, Option, none, some, ltb, lt→ltb, arith,
  Bool-cases, if◌then◌else◌,
}
use property_platform_backen.Effects.{Result, ok, err}
use property_platform_backen.Errors.{Response, error_handler}
use property_platform_backen.Redis.{Redis}
use property_platform_backen.Database.{Fault, answered, refused, unacked, lost_connection}
use property_platform_backen.Cache.{CacheEnvelope}
use property_platform_backen.Cache.Failing.{
  try_get_or_set_with_swr, try_serve_found, try_missed, try_write_cache,
}
use property_platform_backen.EnquiryApi.{respond}
use property_platform_backen.Cms.{
  Posts, grace, properties_key, properties_outcome, page_size, list_response, with_reply,
  upstream_error,
}

abbrev pub is_answered : Fault → Bool
is_answered answered = true
is_answered _ = false

module _ (redis : Redis (CacheEnvelope Posts)) where
  open redis use {Store, get}

  -- `list_properties_handler`, with the faults of its GET and of the SET behind a fetch.
  unfoldable pub try_list_properties_handler :
      Fault
      → Fault
      → ℕ
      → ℕ
      → Option ℕ
      → Option Text
      → Result Posts
      → ℕ
      → Store
      → Result Response × Store
  unfolding try_get_or_set_with_swr
  try_list_properties_handler read write ttl now first after request done s =
      let served =
        try_get_or_set_with_swr redis read write (properties_key (page_size first) after) ttl grace
          now (record { outcome = properties_outcome request; done_at = done }) s in
      (with_reply list_response served.reply, served.store)

  -- The status behind a cache without a usable page.
  abbrev pub fetched_status : Fault → Result Posts → ℕ
  fetched_status write (ok posts) = if is_answered write then 200 else 500
  fetched_status write (err e) = 502

  abbrev pub found_status : Fault → ℕ → ℕ → Option (CacheEnvelope Posts) → Result Posts → ℕ
  found_status write ttl now none request = fetched_status write request
  found_status write ttl now (some e) request =
      if ltb now (e.cached_at + (ttl + grace) * 1000) then 200 else fetched_status write request

  module _ (is_prod : Bool) (request_id : Text) where
    missed_status :
        (write : Fault) (key : Text) (done : ℕ) (request : Result Posts) (s : Store)
        → let served = try_missed redis write key done (properties_outcome request) s in
          (respond is_prod request_id
            (with_reply list_response served.reply, served.store)).0.status
          ≡ fetched_status write request
    unfolding respond with_reply try_missed properties_outcome upstream_error error_handler
        try_write_cache lost_connection
    missed_status answered key done (ok posts) s = refl
    missed_status refused key done (ok posts) s = refl
    missed_status unacked key done (ok posts) s = refl
    missed_status write key done (err e) s = refl

    serve_status :
        (write : Fault) (key : Text) (ttl now done : ℕ) (request : Result Posts)
        (found : Option (CacheEnvelope Posts)) (s : Store)
        → let served =
            try_serve_found redis write key ttl grace now
              (record { outcome = properties_outcome request; done_at = done })
              found
              s in
          (respond is_prod request_id
            (with_reply list_response served.reply, served.store)).0.status
          ≡ found_status write ttl now found request
    unfolding respond with_reply try_serve_found
    serve_status write key ttl now done request none s = missed_status write key done request s
    serve_status write key ttl now done request (some e) s =
        elim (Bool-cases (ltb now (e.cached_at + ttl * 1000))) [
          | inl fresh ↦ rw (fresh, lt→ltb now (e.cached_at + (ttl + grace) * 1000) (ground arith))
          | inr old ↦ elim (Bool-cases (ltb now (e.cached_at + (ttl + grace) * 1000))) [
            | inl usable ↦ rw (old, usable)
            | inr gone ↦ rw (old, gone) (missed_status write key done request s)
          ]
        ]

    -- The status of a list of properties: 500 if the GET fails, 200 with a page in the cache that
    -- is young enough, and else 502 if the CMS fails, 500 if the page of the CMS cannot be stored,
    -- and 200 otherwise.
    pub list_status :
        (read write : Fault) (ttl now : ℕ) (first : Option ℕ) (after : Option Text)
        (request : Result Posts) (done : ℕ) (s : Store)
        → (respond is_prod request_id
            (try_list_properties_handler read write ttl now first after request done s)).0.status
          ≡ (if is_answered read
              then found_status write ttl now
                  (get now (properties_key (page_size first) after) s)
                  request
              else 500)
    unfolding try_list_properties_handler try_get_or_set_with_swr respond with_reply error_handler
        lost_connection
    list_status answered write ttl now first after request done s =
        serve_status write (properties_key (page_size first) after) ttl now done request
          (get now (properties_key (page_size first) after) s) s
    list_status refused write ttl now first after request done s = refl
    list_status unacked write ttl now first after request done s = refl

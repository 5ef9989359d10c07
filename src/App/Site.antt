-- ===== src/App/Site.antt =====
-- The chain of middleware of `createApp` and the routers. A request carries its time in the clock
-- of the state, and a middleware before the response takes no time.
use property_platform_backen.Prelude.{ℕ, Text, codes, Option}
use property_platform_backen.Json.{Json}
use property_platform_backen.Errors.{Response, not_found_handler}
use property_platform_backen.Effects.{Result, ok, err}
use property_platform_backen.Database.{World}
use property_platform_backen.Redis.{Redis}
use property_platform_backen.Cache.{CacheEnvelope}
use property_platform_backen.Idempotency.{Marker, Outcome, answered, serve}
use property_platform_backen.Cms.{
  Posts, list_properties_handler, get_property_by_slug_handler, invalidate_property_cache_handler,
}
use property_platform_backen.Security.{
  OriginVerdict, allow, fail, sanitize_body, cors_origin_validator,
}
use property_platform_backen.RateLimiter.{
  Counters, Limiter, Limiting, general_limiter, enquiry_limiter, webhook_limiter, key_of, limit,
}
use property_platform_backen.Health.{readiness}
use property_platform_backen.App.{
  Settings, Request, Route, health, ready, metrics, metrics_response, post_enquiry, get_enquiry,
  get_enquiries, crm_webhook, list_properties, get_property, post_invalidation, unknown,
  health_response, slug_of, error_response, handled, validated_enquiry, validated_get,
  validated_list, validated_webhook,
}

-- The state that the requests share: Redis, by what the program keeps there, and the rest.
pub record Site (counters : Counters) (markers : Redis Marker) (pages : Redis (CacheEnvelope Posts))
    (posts : Redis (CacheEnvelope Json)) : Type 0 where
  pub limiting : Limiting counters
  pub marks : markers.Store
  pub page_cache : pages.Store
  pub post_cache : posts.Store
  pub world : World

module _ (counters : Counters) (markers : Redis Marker) (pages : Redis (CacheEnvelope Posts))
    (posts : Redis (CacheEnvelope Json)) (settings : Settings) (req : Request) where
  abbrev pub State : Type 0
  State = Site counters markers pages posts

  -- A limiter and what stands behind it.
  unfoldable pub behind_limit :
      (State → Outcome × State) → Result (Unit {0}) × Limiting counters → State → Outcome × State
  behind_limit next (ok u, counts) s = next (record s { limiting = counts })
  behind_limit next (err e, counts) s =
      (answered (error_response settings req e), record s { limiting = counts })

  unfoldable pub limited : Limiter → (State → Outcome × State) → State → Outcome × State
  limited limiter next s =
      behind_limit next
        (limit counters limiter s.world.now (key_of settings.normal limiter req.ip) s.limiting) s

  -- The end of a request that only the rest of the state decides.
  unfoldable pub on_world : (World → Response × World) → State → Outcome × State
  on_world handler s =
      let (res, world) = handler s.world in (answered res, record s { world = world })

  -- POST /api/enquiry behind its limiter.
  unfoldable pub keyed_enquiry : Json → State → Outcome × State
  keyed_enquiry body s =
      let (outcome, marks, world) =
        serve markers (λ w. handled settings req (validated_enquiry settings req body w))
          s.world.now req.done_at (codes "/enquiry") req.idempotency_key s.marks s.world in
      (outcome, record s { marks = marks; world = world })

  unfoldable pub cms_list : Option ℕ → Option Text → State → Outcome × State
  cms_list first after s =
      let (res, store) = handled settings req (
        list_properties_handler pages settings.ttl s.world.now first after req.listing req.done_at
          s.page_cache) in
      (answered res, record s { page_cache = store })

  unfoldable pub cms_property : Text → State → Outcome × State
  cms_property slug s =
      let (res, store) = handled settings req (
        get_property_by_slug_handler posts settings.ttl s.world.now slug req.post req.done_at
          s.post_cache) in
      (answered res, record s { post_cache = store })

  unfoldable pub cms_invalidate : Option Text → State → Outcome × State
  cms_invalidate slug s =
      let (res, listed) =
        handled settings req
          (invalidate_property_cache_handler pages s.world.now slug s.page_cache) in
      let (_, shown) = invalidate_property_cache_handler posts s.world.now slug s.post_cache in
      (answered res, record s { page_cache = listed; post_cache = shown })

  -- The routers behind the general limiter.
  unfoldable pub api : Route → Json → State → Outcome × State
  api post_enquiry body = limited (enquiry_limiter settings.limits) (keyed_enquiry body)
  api (get_enquiry params) body =
      on_world (λ w. handled settings req (validated_get settings params w))
  api (get_enquiries query) body =
      on_world (λ w. handled settings req (validated_list settings query w))
  api crm_webhook body =
      limited (webhook_limiter settings.limits)
        (on_world (λ w. handled settings req (validated_webhook settings req body w)))
  api (list_properties first after) body =
      limited (general_limiter settings.limits) (cms_list first after)
  api (get_property slug) body = limited (general_limiter settings.limits) (cms_property slug)
  api post_invalidation body = cms_invalidate (slug_of body)
  api _ body = on_world (λ w. (not_found_handler req.method req.path, w))

  -- What follows the parsing of the body.
  unfoldable pub dispatch : Route → Json → State → Outcome × State
  dispatch health body = on_world (λ w. (health_response req.uptime w.now, w))
  dispatch ready body = on_world readiness
  dispatch metrics body = on_world (λ w. (metrics_response req.metrics_text, w))
  dispatch unknown body = on_world (λ w. (not_found_handler req.method req.path, w))
  dispatch route body = limited (general_limiter settings.limits) (api route body)

  unfoldable pub past_json : Route → Result Json → State → Outcome × State
  past_json route (ok body) s = dispatch route (sanitize_body settings.sanitize_html body) s
  past_json route (err e) s = (answered (error_response settings req e), s)

  unfoldable pub past_cors : Route → OriginVerdict → State → Outcome × State
  past_cors route allow s = past_json route req.parsed s
  past_cors route (fail e) s = (answered (error_response settings req e), s)

  -- One request, from its arrival to its response.
  unfoldable pub handle_request : Route → State → Outcome × State
  handle_request route s = past_cors route (cors_origin_validator settings.origins req.origin) s

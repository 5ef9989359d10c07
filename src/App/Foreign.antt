-- ===== src/App/Foreign.antt =====
-- That a request which is no enquiry of the client leaves its count alone.
use property_platform_backen.Prelude.{ℕ, ◌+◌, ◌≤◌, ◌<◌, Option, Text}
use property_platform_backen.Json.{Json}
use property_platform_backen.Effects.{Result, ok, err}
use property_platform_backen.Redis.{Redis}
use property_platform_backen.Cache.{CacheEnvelope}
use property_platform_backen.Idempotency.{Marker, Outcome}
use property_platform_backen.Cms.{Posts}
use property_platform_backen.Security.{
  OriginVerdict, allow, fail, cors_origin_validator, sanitize_body,
}
use property_platform_backen.RateLimiter.{Counters, general_limiter}
use property_platform_backen.App.{Settings, Request, Route, health, ready, metrics, unknown}
use property_platform_backen.App.Site.{limited, api, dispatch, past_json, past_cors, handle_request}
use property_platform_backen.App.Counted.{
  State, KeepsCount, IsForeign, on_world-KeepsCount, general-KeepsCount, api-KeepsCount,
}

module _ (counters : Counters) (markers : Redis Marker) (pages : Redis (CacheEnvelope Posts))
    (posts : Redis (CacheEnvelope Json)) (settings : Settings) (ip : Option Text) (req : Request)
    (now until h : ℕ) (before : now < until) (short : until ≤ now + settings.limits.window_ms) where
  abbrev Kept :
      (State counters markers pages posts settings ip
        → Outcome × State counters markers pages posts settings ip)
      → Type 0
  Kept = KeepsCount counters markers pages posts settings ip req now until h before short

  abbrev Foreign : Route → Type 0
  Foreign = IsForeign counters markers pages posts settings ip req now until h before short

  limited-api-KeepsCount :
      (route : Route) (body : Json)
      → Foreign route
      → Kept (λ s.
        limited counters markers pages posts settings req
          (general_limiter settings.limits)
          (api counters markers pages posts settings req route body)
          s)
  limited-api-KeepsCount route body f =
      general-KeepsCount counters markers pages posts settings ip req now until h before short _ (
        api-KeepsCount counters markers pages posts settings ip req now until h before short route
          body f)

  dispatch-KeepsCount :
      (route : Route) (body : Json)
      → Foreign route
      → Kept (dispatch counters markers pages posts settings req route body)
  unfolding dispatch
  dispatch-KeepsCount health body f =
      on_world-KeepsCount counters markers pages posts settings ip req now until h before short _
  dispatch-KeepsCount ready body f =
      on_world-KeepsCount counters markers pages posts settings ip req now until h before short _
  dispatch-KeepsCount metrics body f =
      on_world-KeepsCount counters markers pages posts settings ip req now until h before short _
  dispatch-KeepsCount unknown body f =
      on_world-KeepsCount counters markers pages posts settings ip req now until h before short _
  dispatch-KeepsCount route body f = limited-api-KeepsCount route body f

  past_json-KeepsCount :
      (route : Route) (r : Result Json)
      → Foreign route
      → Kept (past_json counters markers pages posts settings req route r)
  unfolding past_json
  past_json-KeepsCount route (ok body) f = record {
    holds = (dispatch-KeepsCount route (sanitize_body settings.sanitize_html body) f).holds;
  }
  past_json-KeepsCount route (err e) f = record { holds = λ s clock c. c }

  past_cors-KeepsCount :
      (route : Route) (v : OriginVerdict)
      → Foreign route
      → Kept (past_cors counters markers pages posts settings req route v)
  unfolding past_cors
  past_cors-KeepsCount route allow f = record {
    holds = (past_json-KeepsCount route req.parsed f).holds;
  }
  past_cors-KeepsCount route (fail e) f = record { holds = λ s clock c. c }

  pub handle_request-KeepsCount :
      (route : Route)
      → Foreign route
      → Kept (handle_request counters markers pages posts settings req route)
  unfolding handle_request
  handle_request-KeepsCount route f = record {
    holds =
        (past_cors-KeepsCount route (cors_origin_validator settings.origins req.origin) f).holds;
  }

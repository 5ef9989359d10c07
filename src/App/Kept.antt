-- ===== src/App/Kept.antt =====
-- What every request keeps of the state behind the middleware.
use property_platform_backen.Prelude.{Text, codes, Bool}
use property_platform_backen.Json.{Json}
use property_platform_backen.Errors.{Response}
use property_platform_backen.Effects.{Result, ok, err, Exec, pure}
use property_platform_backen.Effects.Keeps.{Keeps}
use property_platform_backen.Database.{World, call}
use property_platform_backen.EnquiryApi.{respond}
use property_platform_backen.Redis.{Redis}
use property_platform_backen.Cache.{CacheEnvelope}
use property_platform_backen.Idempotency.{
  Marker, Verdict, next_plain, next_claimed, replay, rejected, Outcome, idempotency_middleware,
  proceed, serve,
}
use property_platform_backen.Cms.{Posts}
use property_platform_backen.Security.{
  OriginVerdict, allow, fail, cors_origin_validator, sanitize_body,
}
use property_platform_backen.RateLimiter.{
  Counters, Limiter, Limiting, limit, key_of, enquiry_limiter, webhook_limiter, general_limiter,
}
use property_platform_backen.Health.{readiness}
use property_platform_backen.App.{
  Settings, Request, Route, health, ready, metrics, post_enquiry, get_enquiry, get_enquiries,
  crm_webhook, list_properties, get_property, unknown, handled, validated_enquiry,
}
use property_platform_backen.App.Handlers.{
  IsKept, called, validated_enquiry-Keeps, validated_get-Keeps, validated_list-Keeps,
  validated_webhook-Keeps,
}
use property_platform_backen.App.Site.{
  Site, behind_limit, limited, on_world, keyed_enquiry, cms_list, cms_property, cms_invalidate, api,
  dispatch, past_json, past_cors, handle_request,
}

module _ (Inv : World → Type 0) (kept : IsKept Inv) where
  world-respond :
      (is_prod : Bool) (id : Text) (r : Result Response × World)
      → Inv r.1
      → Inv (respond is_prod id r).1
  unfolding respond
  world-respond is_prod id (ok res, w) h = h
  world-respond is_prod id (err e, w) h = h

  readiness_world : (w : World) → Inv w → Inv (readiness w).1
  unfolding readiness
  readiness_world w h =
      let checked : Keeps Inv (call (pure tt)) = called Inv kept (record { at = λ w h. h }) in
      checked.at (call (pure tt) w).1 (checked.at w h)

  module _ (counters : Counters) (markers : Redis Marker) (pages : Redis (CacheEnvelope Posts))
      (posts : Redis (CacheEnvelope Json)) (settings : Settings) (req : Request) where
    abbrev State : Type 0
    State = Site counters markers pages posts

    -- A part of the chain that keeps the database sound.
    record KeepsWorld (part : State → Outcome × State) : Type 0 where
      pub holds : (s : State) → Inv s.world → Inv (part s).1.world

    behind_limit_world :
        (next : State → Outcome × State) (r : Result (Unit {0}) × Limiting counters) (s : State)
        → KeepsWorld next
        → Inv s.world
        → Inv (behind_limit counters markers pages posts settings req next r s).1.world
    unfolding behind_limit
    behind_limit_world next (ok u, counts) s k h = k.holds (record s { limiting = counts }) h
    behind_limit_world next (err e, counts) s k h = h

    limited-KeepsWorld :
        (limiter : Limiter) (next : State → Outcome × State)
        → KeepsWorld next
        → KeepsWorld (limited counters markers pages posts settings req limiter next)
    unfolding limited
    limited-KeepsWorld limiter next k = record {
      holds = λ s h.
          behind_limit_world next
            (limit counters limiter s.world.now (key_of settings.normal limiter req.ip) s.limiting)
            s k h;
    }

    -- A route that only works on the database.
    replied-KeepsWorld :
        (handler : Exec World Response)
        → Keeps Inv handler
        → KeepsWorld (
            on_world counters markers pages posts settings req
              (λ w. handled settings req (handler w)))
    unfolding on_world handled
    replied-KeepsWorld handler k = record {
      holds = λ s h. world-respond _ _ (handler s.world) (k.at s.world h);
    }

    proceed_world :
        (handler : World → Response × World) (verdict : Verdict) (marks : markers.Store) (w : World)
        → ((u : World) → Inv u → Inv (handler u).1)
        → Inv w
        → Inv (proceed markers handler req.done_at verdict marks w).2
    unfolding proceed
    proceed_world handler next_plain marks w k h = k w h
    proceed_world handler (next_claimed key) marks w k h = k w h
    proceed_world handler (replay res) marks w k h = h
    proceed_world handler (rejected e) marks w k h = h

    keyed-KeepsWorld :
        (body : Json) → KeepsWorld (keyed_enquiry counters markers pages posts settings req body)
    unfolding keyed_enquiry serve handled
    keyed-KeepsWorld body = record {
      holds = λ s h.
          let (verdict, marks) =
            idempotency_middleware markers s.world.now (codes "/enquiry") req.idempotency_key
              s.marks in
          proceed_world (λ w. handled settings req (validated_enquiry settings req body w)) verdict
            marks s.world
            (λ u k.
              world-respond _ _ (validated_enquiry settings req body u)
                ((validated_enquiry-Keeps Inv kept settings req body).at u k))
            h;
    }

    api-KeepsWorld :
        (route : Route) (body : Json)
        → KeepsWorld (api counters markers pages posts settings req route body)
    unfolding api cms_list cms_property cms_invalidate on_world
    api-KeepsWorld post_enquiry body =
        limited-KeepsWorld (enquiry_limiter settings.limits) _ (keyed-KeepsWorld body)
    api-KeepsWorld (get_enquiry params) body =
        replied-KeepsWorld _ (validated_get-Keeps Inv kept settings params)
    api-KeepsWorld (get_enquiries query) body =
        replied-KeepsWorld _ (validated_list-Keeps Inv kept settings query)
    api-KeepsWorld crm_webhook body =
        limited-KeepsWorld (webhook_limiter settings.limits) _
          (replied-KeepsWorld _ (validated_webhook-Keeps Inv kept settings req body))
    api-KeepsWorld (list_properties first after) body =
        limited-KeepsWorld (general_limiter settings.limits) _ (record { holds = λ s h. h })
    api-KeepsWorld (get_property slug) body =
        limited-KeepsWorld (general_limiter settings.limits) _ (record { holds = λ s h. h })
    api-KeepsWorld _ body = record { holds = λ s h. h }

    dispatch-KeepsWorld :
        (route : Route) (body : Json)
        → KeepsWorld (dispatch counters markers pages posts settings req route body)
    unfolding dispatch on_world
    dispatch-KeepsWorld health body = record { holds = λ s h. h }
    dispatch-KeepsWorld ready body = record { holds = λ s h. readiness_world s.world h }
    dispatch-KeepsWorld metrics body = record { holds = λ s h. h }
    dispatch-KeepsWorld unknown body = record { holds = λ s h. h }
    dispatch-KeepsWorld route body = limited-KeepsWorld _ _ (api-KeepsWorld route body)

    past_json-KeepsWorld :
        (route : Route) (r : Result Json)
        → KeepsWorld (past_json counters markers pages posts settings req route r)
    unfolding past_json
    past_json-KeepsWorld route (ok body) = record {
      holds = (dispatch-KeepsWorld route (sanitize_body settings.sanitize_html body)).holds;
    }
    past_json-KeepsWorld route (err e) = record { holds = λ s h. h }

    past_cors-KeepsWorld :
        (route : Route) (v : OriginVerdict)
        → KeepsWorld (past_cors counters markers pages posts settings req route v)
    unfolding past_cors
    past_cors-KeepsWorld route allow = record {
      holds = (past_json-KeepsWorld route req.parsed).holds;
    }
    past_cors-KeepsWorld route (fail e) = record { holds = λ s h. h }

    pub handle_request-Keeps :
        (route : Route) (s : State)
        → Inv s.world
        → Inv (handle_request counters markers pages posts settings req route s).1.world
    unfolding handle_request
    handle_request-Keeps route s h =
        (past_cors-KeepsWorld route (cors_origin_validator settings.origins req.origin)).holds s h

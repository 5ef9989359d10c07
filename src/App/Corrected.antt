-- ===== src/App/Corrected.antt =====
-- What an idempotency key does to a client that corrects its request.
use property_platform_backen.Prelude.{ℕ, ◌+◌, ◌≤◌, ◌<◌, ◌≡◌, refl, Text, codes, none, some, ◌∷◌}
use property_platform_backen.Json.{Json, Fields, obj}
use property_platform_backen.Errors.{error_handler, new_validation_error}
use property_platform_backen.Effects.{continue}
use property_platform_backen.Database.{World}
use property_platform_backen.Redis.{Redis}
use property_platform_backen.Cache.{CacheEnvelope}
use property_platform_backen.EnquiryApi.{respond}
use property_platform_backen.Idempotency.{
  Marker, processing, completed, idempotency_life, redis_key, not_claimed, proceed, serve,
  record_response, answered,
}
use property_platform_backen.Idempotency.Replay.{held, taken, free}
use property_platform_backen.Cms.{Posts}
use property_platform_backen.Validators.{bad}
use property_platform_backen.Validators.Schemas.{parse_create_enquiry, validate}
use property_platform_backen.RateLimiter.{Counters}
use property_platform_backen.App.{Settings, Request, handled, error_response, validated_enquiry}
use property_platform_backen.App.Site.{Site, keyed_enquiry}

module _ (counters : Counters) (markers : Redis Marker) (pages : Redis (CacheEnvelope Posts))
    (posts : Redis (CacheEnvelope Json)) (settings : Settings) (c : ℕ) (cs : Text) where
  open markers use {get, set_ex}

  -- A request with the key.
  abbrev keyed : Request → Request
  keyed req = record req { idempotency_key = some (c ∷ cs) }

  invalid_reply :
      (req : Request) (body : Json) (errors : Fields) (w : World)
      → parse_create_enquiry settings.zod body ≡ bad errors
      → handled settings req (validated_enquiry settings req body w) ≡ (
        error_response settings req
            (new_validation_error (codes "Request validation failed") (some (obj errors))),
        w,
      )
  unfolding handled respond validated_enquiry continue validate error_response
  invalid_reply req body errors w h = rw h refl

  -- Behind the limiter, a request with a new key and a body that the schema refuses is answered
  -- with 400 and changes no table; and for 24 hours from that response on, every request with the
  -- key is answered with the same 400, whatever its body, and changes nothing.
  pub corrected_replayed :
      (req again : Request) (body corrected : Json) (errors : Fields) (late : ℕ)
      (s : Site counters markers pages posts)
      → parse_create_enquiry settings.zod body ≡ bad errors
      → get s.world.now (redis_key (codes "/enquiry") (c ∷ cs)) s.marks ≡ none
      → req.done_at ≤ late
      → late < req.done_at + idempotency_life
      → let refused =
          error_response settings req
            (new_validation_error (codes "Request validation failed") (some (obj errors))) in
        let (outcome, t) = keyed_enquiry counters markers pages posts settings (keyed req) body s in
        let t' = record t { world = record t.world { now = late } } in
        (outcome ≡ answered refused)
        × (refused.status ≡ 400)
        × (t.world ≡ s.world)
        × (keyed_enquiry counters markers pages posts settings (keyed again) corrected t'
            ≡ (answered refused, t'))
  unfolding keyed_enquiry serve proceed record_response not_claimed error_response
      new_validation_error error_handler
  corrected_replayed req again body corrected errors late s bad_body fresh from before =
      let key = redis_key (codes "/enquiry") (c ∷ cs) in
      let claimed = set_ex s.world.now key processing idempotency_life s.marks in
      let refused =
        error_response settings req
          (new_validation_error (codes "Request validation failed") (some (obj errors))) in
      let marker = completed refused.status refused.body in
      rw
        (
          free markers (codes "/enquiry") c cs s.world.now s.marks fresh,
          invalid_reply (keyed req) body errors s.world bad_body,
        )
        (
          refl,
          refl,
          refl,
          rw
              (taken markers (codes "/enquiry") c cs late marker
                (set_ex req.done_at key marker idempotency_life claimed)
                (held markers (codes "/enquiry") c cs req.done_at late idempotency_life marker
                  claimed from before))
              refl,
        )

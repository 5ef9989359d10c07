-- ===== src/App/Observed.antt =====
-- What a request has done whose response is observed under its raw path.
use property_platform_backen.Prelude.{◌≡◌, Bool}
use property_platform_backen.Json.{Json}
use property_platform_backen.Errors.{Response}
use property_platform_backen.Redis.{Redis}
use property_platform_backen.Cache.{CacheEnvelope}
use property_platform_backen.Idempotency.{Marker, Outcome, answered}
use property_platform_backen.Cms.{Posts}
use property_platform_backen.RateLimiter.{Counters, general_limiter, key_of, limit}
use property_platform_backen.App.{Settings, Request}
use property_platform_backen.App.Timed.{State, has_returned}

module _ (counters : Counters) (markers : Redis Marker) (pages : Redis (CacheEnvelope Posts))
    (posts : Redis (CacheEnvelope Json)) (settings : Settings) where
  abbrev Here : Type 0
  Here = State counters markers pages posts settings

  -- The request is answered, and the database, the queues and what Redis keeps, other than the
  -- counts of the limiters, are as before.
  pub record IsUntouched (s : Here) (out : Outcome × Here) : Type 0 where
    pub response : (res : Response) × (out.0 ≡ answered res)
    pub world : out.1.world ≡ s.world
    pub marks : out.1.marks ≡ s.marks
    pub page_cache : out.1.page_cache ≡ s.page_cache
    pub post_cache : out.1.post_cache ≡ s.post_cache

  module _ (req : Request) (s : Here) where
    -- The limiter lets the request through.
    abbrev is_passed : Bool
    is_passed =
        has_returned
          (limit counters (general_limiter settings.limits) s.world.now
            (key_of settings.normal (general_limiter settings.limits) req.ip) s.limiting).0

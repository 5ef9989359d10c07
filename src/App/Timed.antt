-- ===== src/App/Timed.antt =====
-- The middleware of src/app.ts that times every request, and the histogram of src/config/metrics.ts
-- as the list of its observations. It observes a response when it is finished, and so no request
-- that has none.
use property_platform_backen.Prelude.{
  ℕ, ◌-◌, Text, codes, decimal, Bool, true, false, ◌&&◌, Option, none, some, List, [], ◌∷◌,
  if◌then◌else◌,
}
use property_platform_backen.Json.{Json}
use property_platform_backen.Effects.{Result, ok, err}
use property_platform_backen.Redis.{Redis}
use property_platform_backen.Cache.{CacheEnvelope}
use property_platform_backen.Idempotency.{Marker, Outcome, answered, failed}
use property_platform_backen.Cms.{Posts}
use property_platform_backen.Security.{OriginVerdict, allow, fail, cors_origin_validator}
use property_platform_backen.RateLimiter.{Counters, general_limiter, key_of, limit}
use property_platform_backen.App.{
  Settings, Request, Route, health, ready, metrics, post_enquiry, get_enquiry, get_enquiries,
  crm_webhook, list_properties, get_property, post_invalidation, unknown_api, unknown,
}
use property_platform_backen.App.Site.{Site, handle_request}

-- `httpRequestDuration.observe`, with the duration in milliseconds.
pub record Observation : Type 0 where
  pub method : Text
  pub route : Text
  pub status_code : Text
  pub duration : ℕ

-- `req.route.path`, which Express sets when it enters the handlers of a route.
unfoldable pub pattern : Route → Option Text
pattern health = some (codes "/health")
pattern ready = some (codes "/health/ready")
pattern metrics = some (codes "/metrics")
pattern post_enquiry = some (codes "/enquiry")
pattern (get_enquiry params) = some (codes "/enquiry/:id")
pattern (get_enquiries query) = some (codes "/enquiries")
pattern crm_webhook = some (codes "/webhook/crm")
pattern (list_properties first after) = some (codes "/properties")
pattern (get_property slug) = some (codes "/properties/:slug")
pattern post_invalidation = some (codes "/properties/cache/invalidate")
pattern unknown_api = none
pattern unknown = none

abbrev pub patterns : List Text
patterns =
    codes "/health"
    ∷ codes "/health/ready"
    ∷ codes "/metrics"
    ∷ codes "/enquiry"
    ∷ codes "/enquiry/:id"
    ∷ codes "/enquiries"
    ∷ codes "/webhook/crm"
    ∷ codes "/properties"
    ∷ codes "/properties/:slug"
    ∷ codes "/properties/cache/invalidate"
    ∷ []

-- Whether the routers are entered behind the general limiter.
abbrev pub is_under_api : Route → Bool
is_under_api health = false
is_under_api ready = false
is_under_api metrics = false
is_under_api unknown = false
is_under_api _ = true

abbrev pub is_allowed : OriginVerdict → Bool
is_allowed allow = true
is_allowed (fail e) = false

abbrev pub has_returned {ℓ} : {A : Type ℓ} → Result A → Bool
has_returned (ok a) = true
has_returned (err e) = false

-- `(req.route?.path as string) || req.path`
abbrev pub or_path : Request → Option Text → Text
or_path req (some path) = path
or_path req none = req.path_at_end

-- The listener on `finish`.
abbrev pub observed : Request → Text → ℕ → Outcome → List Observation → List Observation
observed req label start (answered res) seen =
    record {
      method = req.method;
      route = label;
      status_code = decimal res.status;
      duration = req.done_at - start;
    }
    ∷ seen
observed req label start (failed e) seen = seen

module _ (counters : Counters) (markers : Redis Marker) (pages : Redis (CacheEnvelope Posts))
    (posts : Redis (CacheEnvelope Json)) (settings : Settings) where
  abbrev pub State : Type 0
  State = Site counters markers pages posts

  -- Whether a request gets as far as the routers.
  unfoldable pub is_routed : Request → Route → State → Bool
  is_routed req route s =
      is_allowed (cors_origin_validator settings.origins req.origin)
      && has_returned req.parsed
      && (if is_under_api route
          then has_returned
              (limit counters (general_limiter settings.limits) s.world.now
                (key_of settings.normal (general_limiter settings.limits) req.ip) s.limiting).0
          else true)

  unfoldable pub route_label : Request → Route → State → Text
  unfolding is_routed pattern
  route_label req route s =
      if is_routed req route s then or_path req (pattern route) else req.path_at_end

  -- A request through the app, with the histogram.
  unfoldable pub timed_request :
      Request → Route → State × List Observation → State × List Observation
  unfolding route_label
  timed_request req route (s, seen) =
      let (outcome, s') = handle_request counters markers pages posts settings req route s in
      (s', observed req (route_label req route s) s.world.now outcome seen)

  unfoldable pub timed_requests :
      List (Request × Route) → State × List Observation → State × List Observation
  timed_requests [] h = h
  timed_requests ((req, route) ∷ rest) h = timed_requests rest (timed_request req route h)

-- ===== src/App/Labels.antt =====
-- The labels of the histogram.
use mathlib.Core.List.{reverse, reverse_aux}
use property_platform_backen.Prelude.{
  ◌≡◌, refl, ap, ◌∙◌, inl, inr, Text, List, [], ◌∷◌, map, Bool-cases,
}
use property_platform_backen.Json.{Json}
use property_platform_backen.Errors.{Response}
use property_platform_backen.Effects.{Result, ok, err}
use property_platform_backen.Redis.{Redis}
use property_platform_backen.Cache.{CacheEnvelope}
use property_platform_backen.Idempotency.{Marker, answered}
use property_platform_backen.Cms.{Posts}
use property_platform_backen.Security.{OriginVerdict, allow, fail, cors_origin_validator}
use property_platform_backen.RateLimiter.{Counters}
use property_platform_backen.App.{Settings, Request, Route, unknown}
use property_platform_backen.App.Site.{handle_request, past_cors, past_json, dispatch, on_world}
use property_platform_backen.App.Timed.{
  Observation, State, pattern, is_routed, route_label, timed_request, timed_requests,
}

abbrev pub labels : List Observation → List Text
labels = map (λ o. o.route)

module _ (counters : Counters) (markers : Redis Marker) (pages : Redis (CacheEnvelope Posts))
    (posts : Redis (CacheEnvelope Json)) (settings : Settings) where
  module _ (req : Request) (s : State counters markers pages posts settings) where
    parsed_answers :
        (r : Result Json)
        → (res : Response) × ((past_json counters markers pages posts settings req unknown r s).0
            ≡ answered res)
    unfolding past_json dispatch on_world
    parsed_answers (ok body) = (_, refl)
    parsed_answers (err e) = (_, refl)

    origin_answers :
        (v : OriginVerdict)
        → (res : Response) × ((past_cors counters markers pages posts settings req unknown v s).0
            ≡ answered res)
    unfolding past_cors
    origin_answers allow = parsed_answers req.parsed
    origin_answers (fail e) = (_, refl)

    unknown_answered :
        (res : Response) × ((handle_request counters markers pages posts settings req unknown s).0
          ≡ answered res)
    unfolding handle_request
    unknown_answered = origin_answers (cors_origin_validator settings.origins req.origin)

    unknown_label :
        route_label counters markers pages posts settings req unknown s ≡ req.path_at_end
    unfolding route_label pattern
    unknown_label =
        elim (Bool-cases (is_routed counters markers pages posts settings req unknown s)) [
          | inl routed ↦ rw routed
          | inr lost ↦ rw lost
        ]

    unknown_observed :
        (seen : List Observation)
        → labels (timed_request counters markers pages posts settings req unknown (s, seen)).1
          ≡ req.path_at_end ∷ labels seen
    unfolding timed_request
    unknown_observed seen = let (res, at) = unknown_answered in rw (at, unknown_label)

  -- Requests like this one, for these paths that belong to no route.
  abbrev pub strays : Request → List Text → List (Request × Route)
  strays req = map (λ path. (record req { path = path; path_at_end = path }, unknown))

  labels-strays :
      (req : Request) (paths : List Text) (s : State counters markers pages posts settings)
      (seen : List Observation)
      → labels (timed_requests counters markers pages posts settings (strays req paths) (s, seen)).1
        ≡ reverse_aux paths (labels seen)
  unfolding timed_requests
  labels-strays req [] s seen = refl
  labels-strays req (path ∷ paths) s seen =
      let stray = record req { path = path; path_at_end = path } in
      let (s', seen') =
        timed_request counters markers pages posts settings stray unknown (s, seen) in
      labels-strays req paths s' seen' ∙ ap (reverse_aux paths) (unknown_observed stray s seen)

  -- Requests for paths that belong to no route are each observed under their own path, so that
  -- there are as many labels as there are such paths.
  pub stray_labels :
      (req : Request) (paths : List Text) (s : State counters markers pages posts settings)
      → labels (timed_requests counters markers pages posts settings (strays req paths) (s, [])).1
        ≡ reverse paths
  stray_labels req paths s = labels-strays req paths s []

-- ===== src/App/Own.antt =====
-- That an enquiry of the client which adds a row uses up one of those that the limit allows.
use property_platform_backen.Prelude.{
  ℕ, ◌+◌, ◌-◌, ◌≤◌, ◌<◌, ◌≡◌, refl, Option, Text, codes, ltb, length, if◌then◌else◌, arith,
}
use property_platform_backen.Json.{Json}
use property_platform_backen.Errors.{Response}
use property_platform_backen.Effects.{Result, ok, err}
use property_platform_backen.Database.{World}
use property_platform_backen.Redis.{Redis}
use property_platform_backen.Cache.{CacheEnvelope}
use property_platform_backen.Idempotency.{
  Marker, Verdict, next_plain, next_claimed, replay, rejected, idempotency_middleware, proceed,
  serve,
}
use property_platform_backen.Cms.{Posts}
use property_platform_backen.Security.{
  OriginVerdict, allow, fail, cors_origin_validator, sanitize_body,
}
use property_platform_backen.Validators.Schemas.{parse_create_enquiry, validate}
use property_platform_backen.RateLimiter.{Counters, Limiting, limit, key_of, general_limiter}
use property_platform_backen.RateLimiter.Counts.{admitted, Counted, own-Counted, own_admitted}
use property_platform_backen.App.{Settings, Request, post_enquiry, handled, validated_enquiry}
use property_platform_backen.App.Site.{
  behind_limit, limited, keyed_enquiry, api, dispatch, past_json, past_cors, handle_request,
}
use property_platform_backen.App.Invariants.{IsIdle}
use property_platform_backen.App.Grown.{Grown, validated_Grown, responded_Grown}
use property_platform_backen.App.Counted.{
  State, tight, client, Stands, foreign-Counted, general_apart,
}

module _ (counters : Counters) (markers : Redis Marker) (pages : Redis (CacheEnvelope Posts))
    (posts : Redis (CacheEnvelope Json)) (settings : Settings) (ip : Option Text)
    (req : Request) where
  abbrev Here : Type 0
  Here = State counters markers pages posts settings ip

  abbrev Counts : ℕ → ℕ → ℕ → Here → Type 0
  Counts = Stands counters markers pages posts settings ip

  proceed-Grown :
      (handler : World → Response × World) (verdict : Verdict) (marks : markers.Store) (w : World)
      → Grown w (handler w).1
      → Grown w (proceed markers handler req.done_at verdict marks w).2
  unfolding proceed
  proceed-Grown handler next_plain marks w h = h
  proceed-Grown handler (next_claimed key) marks w h = h
  proceed-Grown handler (replay res) marks w h = omega arith
  proceed-Grown handler (rejected e) marks w h = omega arith

  keyed_Grown :
      (body : Json) (s : Here)
      → IsIdle s.world
      → Grown s.world (keyed_enquiry counters markers pages posts settings req body s).1.world
  unfolding keyed_enquiry serve handled validated_enquiry
  keyed_Grown body s idle =
      let (verdict, marks) =
        idempotency_middleware markers s.world.now (codes "/enquiry") req.idempotency_key s.marks in
      proceed-Grown (λ w. handled settings req (validated_enquiry settings req body w)) verdict
        marks s.world
        (responded_Grown _ _ s.world (validated_enquiry settings req body s.world) (
          validated_Grown settings _ (validate (parse_create_enquiry settings.zod body)) s.world
            idle))

  module _ (now until h : ℕ) (before : now < until)
      (short : until ≤ now + settings.limits.window_ms)
      (own : key_of settings.normal (tight counters markers pages posts settings ip) req.ip
        ≡ client counters markers pages posts settings ip) where
    -- The count afterwards, and that the rows that were added are paid for.
    pub record Paid (w : World) (t : Here) : Type 0 where
      pub next : ℕ
      pub counted : Counts now until next t
      pub cost :
          (length t.world.enquiries - length w.enquiries) + (settings.limits.enquiry_max - next)
          ≤ settings.limits.enquiry_max - h

    unspent : (s : Here) → Counts now until h s → Paid s.world s
    unspent s c = record { next = h; counted = c; cost = omega arith }

    behind_tight :
        (body : Json) (r : Result (Unit {0}) × Limiting counters) (s : Here)
        → IsIdle s.world
        → Counted counters
            (tight counters markers pages posts settings ip)
            (client counters markers pages posts settings ip)
            now
            until
            (h + 1)
            r.1
        → admitted r.0 ≡ (if ltb settings.limits.enquiry_max (h + 1) then 0 else 1)
        → Paid s.world
            (behind_limit counters markers pages posts settings req
              (keyed_enquiry counters markers pages posts settings req body)
              r
              s).1
    unfolding behind_limit keyed_enquiry
    behind_tight body (ok u, counts) s idle c e =
        let grown = keyed_Grown body (record s { limiting = counts }) idle in
        let room : h + 1 ≤ settings.limits.enquiry_max = ground (arith, e) in
        record { next = h + 1; counted = c; cost = omega (arith, grown, room) }
    behind_tight body (err x, counts) s idle c e = record {
      next = h + 1;
      counted = c;
      cost = omega arith;
    }

    api-Paid :
        (body : Json) (s : Here)
        → IsIdle s.world
        → s.world.now ≡ now
        → Counts now until h s
        → Paid s.world (api counters markers pages posts settings req post_enquiry body s).1
    unfolding api limited
    api-Paid body s idle clock c =
        let limiter = tight counters markers pages posts settings ip in
        let key = client counters markers pages posts settings ip in
        behind_tight body
          (limit counters limiter s.world.now (key_of settings.normal limiter req.ip) s.limiting) s
          idle
          (rw (clock, own)
            (own-Counted counters limiter key now until h now s.limiting (omega arith) before short
              c))
          (rw (clock, own)
            (own_admitted counters limiter key now until h now s.limiting (omega arith) before short
              c))

    behind_general :
        (body : Json) (r : Result (Unit {0}) × Limiting counters) (s : Here)
        → IsIdle s.world
        → s.world.now ≡ now
        → Counted counters
            (tight counters markers pages posts settings ip)
            (client counters markers pages posts settings ip)
            now
            until
            h
            r.1
        → Paid s.world
            (behind_limit counters markers pages posts settings req
              (api counters markers pages posts settings req post_enquiry body)
              r
              s).1
    unfolding behind_limit
    behind_general body (ok u, counts) s idle clock c =
        api-Paid body (record s { limiting = counts }) idle clock c
    behind_general body (err x, counts) s idle clock c = unspent (record s { limiting = counts }) c

    dispatch-Paid :
        (body : Json) (s : Here)
        → IsIdle s.world
        → s.world.now ≡ now
        → Counts now until h s
        → Paid s.world (dispatch counters markers pages posts settings req post_enquiry body s).1
    unfolding dispatch limited
    dispatch-Paid body s idle clock c =
        let limiter = general_limiter settings.limits in
        let key = key_of settings.normal limiter req.ip in
        behind_general body (limit counters limiter s.world.now key s.limiting) s idle clock (
          foreign-Counted counters markers pages posts settings ip req now until h before short
            limiter key s refl (general_apart _ _) clock c)

    past_json-Paid :
        (r : Result Json) (s : Here)
        → IsIdle s.world
        → s.world.now ≡ now
        → Counts now until h s
        → Paid s.world (past_json counters markers pages posts settings req post_enquiry r s).1
    unfolding past_json
    past_json-Paid (ok body) s idle clock c =
        dispatch-Paid (sanitize_body settings.sanitize_html body) s idle clock c
    past_json-Paid (err e) s idle clock c = unspent s c

    past_cors-Paid :
        (v : OriginVerdict) (s : Here)
        → IsIdle s.world
        → s.world.now ≡ now
        → Counts now until h s
        → Paid s.world (past_cors counters markers pages posts settings req post_enquiry v s).1
    unfolding past_cors
    past_cors-Paid allow s idle clock c = past_json-Paid req.parsed s idle clock c
    past_cors-Paid (fail e) s idle clock c = unspent s c

    pub handle_request-Paid :
        (s : Here)
        → IsIdle s.world
        → s.world.now ≡ now
        → Counts now until h s
        → Paid s.world (handle_request counters markers pages posts settings req post_enquiry s).1
    unfolding handle_request
    handle_request-Paid s idle clock c =
        past_cors-Paid (cors_origin_validator settings.origins req.origin) s idle clock c

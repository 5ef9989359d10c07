-- ===== src/App/Counted.antt =====
-- What the requests do to the count of one client's enquiries.
use property_platform_backen.Prelude.{
  ℕ, ◌+◌, ◌≤◌, ◌<◌, ◌≡◌, refl, Text, codes, text_eq, false, Option, ◌++◌, arith,
}
use property_platform_backen.Json.{Json}
use property_platform_backen.Errors.{Response}
use property_platform_backen.Effects.{Result, ok, err}
use property_platform_backen.Database.{World}
use property_platform_backen.Redis.{Redis}
use property_platform_backen.Cache.{CacheEnvelope}
use property_platform_backen.Idempotency.{Marker, Outcome}
use property_platform_backen.Cms.{Posts}
use property_platform_backen.RateLimiter.{
  Counters, Limiter, Limiting, limit, key_of, enquiry_limiter, webhook_limiter, general_limiter,
}
use property_platform_backen.RateLimiter.Counts.{Counted, other-Counted}
use property_platform_backen.App.{
  Settings, Request, Route, post_enquiry, get_enquiry, get_enquiries, crm_webhook, list_properties,
  get_property, post_invalidation,
}
use property_platform_backen.App.Site.{
  Site, behind_limit, limited, on_world, keyed_enquiry, cms_list, cms_property, cms_invalidate, api,
}

pub general_apart :
    (s t : Text) → text_eq (codes "rl:general:" ++ s) (codes "rl:enquiry:" ++ t) ≡ false
unfolding codes text_eq
general_apart s t = refl

webhook_apart : (s t : Text) → text_eq (codes "rl:webhook:" ++ s) (codes "rl:enquiry:" ++ t) ≡ false
unfolding codes text_eq
webhook_apart s t = refl

module _ (counters : Counters) (markers : Redis Marker) (pages : Redis (CacheEnvelope Posts))
    (posts : Redis (CacheEnvelope Json)) (settings : Settings) (ip : Option Text) where
  abbrev pub State : Type 0
  State = Site counters markers pages posts

  -- The limiter of enquiries, and the key of one client there.
  abbrev pub tight : Limiter
  tight = enquiry_limiter settings.limits

  abbrev pub client : Text
  client = key_of settings.normal tight ip

  -- From the time of the clock until `until`, the client's count is `h`.
  abbrev pub Stands : ℕ → ℕ → ℕ → State → Type 0
  Stands now until h s = Counted counters tight client now until h s.limiting

  module _ (req : Request) (now until h : ℕ) (before : now < until)
      (short : until ≤ now + settings.limits.window_ms) where
    -- A part of the chain that leaves the count alone.
    pub record KeepsCount (part : State → Outcome × State) : Type 0 where
      pub holds :
          (s : State) → s.world.now ≡ now → Stands now until h s → Stands now until h (part s).1

    pub foreign-Counted :
        (limiter : Limiter) (key : Text) (s : State)
        → limiter.window ≡ settings.limits.window_ms
        → text_eq key client ≡ false
        → s.world.now ≡ now
        → Stands now until h s
        → Counted counters tight client now until h
            (limit counters limiter s.world.now key s.limiting).1
    foreign-Counted limiter key s same apart clock c =
        let moved : Counted counters limiter client now until h s.limiting = record {
          counted = c.counted;
          lasting = c.lasting;
        } in
        let c' =
          other-Counted counters limiter client now until h now s.limiting (omega arith) before
            (rw same short) moved key apart in
        rw clock (record { counted = c'.counted; lasting = c'.lasting })

    -- A limiter with another key leaves the count alone if what stands behind it does.
    behind-KeepsCount :
        (next : State → Outcome × State) (r : Result (Unit {0}) × Limiting counters) (s : State)
        → KeepsCount next
        → s.world.now ≡ now
        → Counted counters tight client now until h r.1
        → Stands now until h (behind_limit counters markers pages posts settings req next r s).1
    unfolding behind_limit
    behind-KeepsCount next (ok u, counts) s k clock c =
        k.holds (record s { limiting = counts }) clock c
    behind-KeepsCount next (err e, counts) s k clock c = c

    pub limited-KeepsCount :
        (limiter : Limiter) (next : State → Outcome × State)
        → limiter.window ≡ settings.limits.window_ms
        → text_eq (key_of settings.normal limiter req.ip) client ≡ false
        → KeepsCount next
        → KeepsCount (limited counters markers pages posts settings req limiter next)
    unfolding limited
    limited-KeepsCount limiter next same apart k = record {
      holds = λ s clock c.
          behind-KeepsCount next
            (limit counters limiter s.world.now (key_of settings.normal limiter req.ip) s.limiting)
            s k clock
            (foreign-Counted limiter (key_of settings.normal limiter req.ip) s same apart clock c);
    }

    pub on_world-KeepsCount :
        (handler : World → Response × World)
        → KeepsCount (on_world counters markers pages posts settings req handler)
    unfolding on_world
    on_world-KeepsCount handler = record { holds = λ s clock c. c }

    pub keyed-KeepsCount :
        (body : Json) → KeepsCount (keyed_enquiry counters markers pages posts settings req body)
    unfolding keyed_enquiry
    keyed-KeepsCount body = record { holds = λ s clock c. c }

    pub general-KeepsCount :
        (next : State → Outcome × State)
        → KeepsCount next
        → KeepsCount (
            limited counters markers pages posts settings req
              (general_limiter settings.limits)
              next)
    general-KeepsCount next k =
        limited-KeepsCount (general_limiter settings.limits) next refl (general_apart _ _) k

    -- The request is no enquiry of the client.
    abbrev pub IsForeign : Route → Type 0
    IsForeign post_enquiry = text_eq (key_of settings.normal tight req.ip) client ≡ false
    IsForeign _ = Unit

    pub api-KeepsCount :
        (route : Route) (body : Json)
        → IsForeign route
        → KeepsCount (api counters markers pages posts settings req route body)
    unfolding api cms_list cms_property cms_invalidate
    api-KeepsCount post_enquiry body f = limited-KeepsCount tight _ refl f (keyed-KeepsCount body)
    api-KeepsCount (get_enquiry params) body f = on_world-KeepsCount _
    api-KeepsCount (get_enquiries query) body f = on_world-KeepsCount _
    api-KeepsCount crm_webhook body f =
        limited-KeepsCount (webhook_limiter settings.limits) _ refl (webhook_apart _ _)
          (on_world-KeepsCount _)
    api-KeepsCount (list_properties first after) body f =
        general-KeepsCount _ (record { holds = λ s clock c. c })
    api-KeepsCount (get_property slug) body f =
        general-KeepsCount _ (record { holds = λ s clock c. c })
    api-KeepsCount post_invalidation body f = record { holds = λ s clock c. c }
    api-KeepsCount _ body f = on_world-KeepsCount _

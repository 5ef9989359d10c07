-- ===== src/App/Flood.antt =====
-- How many enquiries one client can add.
use property_platform_backen.Prelude.{
  ℕ, ◌+◌, ◌-◌, ◌≤◌, ◌<◌, ◌≡◌, refl, inl, inr, Option, none, Text, text_eq, text_eq_iff, List, [],
  ◌∷◌, length, Bool, true, false, if◌then◌else◌, Bool-cases, arith,
}
use property_platform_backen.Json.{Json}
use property_platform_backen.Redis.{Redis}
use property_platform_backen.Cache.{CacheEnvelope}
use property_platform_backen.Idempotency.{Marker}
use property_platform_backen.Cms.{Posts}
use property_platform_backen.RateLimiter.{Counters, key_of}
use property_platform_backen.App.{Settings, Request, Route, post_enquiry}
use property_platform_backen.App.Site.{handle_request}
use property_platform_backen.App.Kept.{handle_request-Keeps}
use property_platform_backen.App.Invariants.{IsIdle, IsKept-IsIdle}
use property_platform_backen.App.Counted.{State, tight, client, Stands, IsForeign}
use property_platform_backen.App.Foreign.{handle_request-KeepsCount}
use property_platform_backen.App.Own.{handle_request-Paid, Paid}

-- A request with its time and its route.
abbrev pub Visit : Type 0
Visit = ℕ × Request × Route

-- The visits are ordered in time, from `last` on and before `until`.
abbrev pub AreOrdered : ℕ → ℕ → List Visit → Type 0
AreOrdered last until [] = Unit
AreOrdered last until ((now, req, route) ∷ rest) =
    (last ≤ now) × (now < until) × AreOrdered now until rest

module _ (counters : Counters) (markers : Redis Marker) (pages : Redis (CacheEnvelope Posts))
    (posts : Redis (CacheEnvelope Json)) (settings : Settings) (ip : Option Text) where
  abbrev Here : Type 0
  Here = State counters markers pages posts settings ip

  -- Whether a request is an enquiry from the client's address.
  abbrev pub is_own : Request → Route → Bool
  is_own req post_enquiry =
      text_eq (key_of settings.normal (tight counters markers pages posts settings ip) req.ip)
        (client counters markers pages posts settings ip)
  is_own req _ = false

  abbrev at_time : ℕ → Here → Here
  at_time now s = record s { world = record s.world { now = now } }

  -- How many rows the client's enquiries add, among the requests of all clients.
  unfoldable pub added : List Visit → Here → ℕ
  added [] s = 0
  added ((now, req, route) ∷ rest) s =
      let s' = (handle_request counters markers pages posts settings req route (at_time now s)).1 in
      (if is_own req route then length s'.world.enquiries - length s.world.enquiries else 0)
      + added rest s'

  IsForeign-of_is_own :
      (req : Request) (now until h : ℕ) (before : now < until)
      (short : until ≤ now + settings.limits.window_ms) (route : Route)
      → is_own req route ≡ false
      → IsForeign counters markers pages posts settings ip req now until h before short route
  IsForeign-of_is_own req now until h before short post_enquiry f = f
  IsForeign-of_is_own req now until h before short _ f = tt

  own_route :
      (req : Request) (route : Route)
      → is_own req route ≡ true
      → (route ≡ post_enquiry)
        × (key_of settings.normal (tight counters markers pages posts settings ip) req.ip
            ≡ client counters markers pages posts settings ip)
  own_route req post_enquiry h = (refl, (text_eq_iff _ _).0 h)
  own_route req _ h = absurd (ground arith)

  added_from :
      (visits : List Visit) (last until h : ℕ) (s : Here)
      → AreOrdered last until visits
      → until ≤ last + settings.limits.window_ms
      → IsIdle s.world
      → Stands counters markers pages posts settings ip last until h s
      → added visits s ≤ settings.limits.enquiry_max - h
  unfolding added
  added_from [] last until h s order short idle c = omega arith
  added_from ((now, req, route) ∷ rest) last until h s order short idle c =
      let (from, before, more) = order in
      let near : until ≤ now + settings.limits.window_ms = omega arith in
      let here = at_time now s in
      let s' = (handle_request counters markers pages posts settings req route here).1 in
      let c' : Stands counters markers pages posts settings ip now until h here = record {
        counted = λ u later end. c.counted u (omega arith) end;
        lasting = c.lasting;
      } in
      let idle' : IsIdle s'.world =
        handle_request-Keeps IsIdle IsKept-IsIdle counters markers pages posts settings req route
          here idle in
      elim (Bool-cases (is_own req route)) [
        | inl own ↦
            let (route_is, key_is) = own_route req route own in
            let paid : Paid counters markers pages posts settings ip req now until h before near
                key_is here.world s' =
              rw route_is (
                handle_request-Paid counters markers pages posts settings ip req now until h before
                  near key_is here idle refl c') in
            let rest_le = added_from rest now until paid.next s' more near idle' paid.counted in
            rw own (omega (arith, rest_le, paid.cost))
        | inr other ↦
            let kept =
              (handle_request-KeepsCount counters markers pages posts settings ip req now until h
                  before near route
                  (IsForeign-of_is_own req now until h before near route other)).holds
                here refl c' in
            let rest_le = added_from rest now until h s' more near idle' kept in
            rw other (omega (arith, rest_le))
      ]

  -- However requests of all clients follow each other within one window of the limiter, and
  -- whichever calls fail, the enquiries that come from one address add at most as many rows as the
  -- limit of enquiries says, if none from it was counted before and no transaction is open.
  pub added_le :
      (visits : List Visit) (start until : ℕ) (s : Here)
      → AreOrdered start until visits
      → until ≤ start + settings.limits.window_ms
      → s.world.saved ≡ none
      → ((u : ℕ)
          → start ≤ u
          → u < until
          → counters.hits u (client counters markers pages posts settings ip) s.limiting.store ≡ 0)
      → added visits s ≤ settings.limits.enquiry_max
  added_le visits start until s order short idle fresh = omega (
    arith,
    added_from visits start until 0 s order short idle
        (record { counted = fresh; lasting = inl refl }),
  )

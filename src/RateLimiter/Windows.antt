-- ===== src/RateLimiter/Windows.antt =====
-- How many requests of a client a limiter lets through.
use Prim.Native.Nat.{min}
use property_platform_backen.Prelude.{
  ℕ, ◌+◌, ◌-◌, ◌≤◌, ◌<◌, ◌≡◌, inl, inr, refl, ◌∙◌, Text, text_eq, text_eq_iff, List, [], ◌∷◌, ltb,
  if◌then◌else◌, Bool-cases, arith,
}
use property_platform_backen.RateLimiter.{Counters, Limiter, Limiting, limit}
use property_platform_backen.RateLimiter.Counts.{
  admitted, Counted, own_admitted, own-Counted, other-Counted,
}

-- Requests of any clients, each with its time and the key of its client.
abbrev pub Arrivals : Type 0
Arrivals = List (ℕ × Text)

-- The arrivals are ordered in time, from `last` on and before `until`.
abbrev pub AreOrdered : ℕ → ℕ → Arrivals → Type 0
AreOrdered last until [] = Unit
AreOrdered last until ((now, j) ∷ rest) = (last ≤ now) × (now < until) × AreOrdered now until rest

-- How many of the requests are the client's.
abbrev pub arrived : Text → Arrivals → ℕ
arrived k [] = 0
arrived k ((now, j) ∷ rest) = (if text_eq j k then 1 else 0) + arrived k rest

module _ (counters : Counters) (limiter : Limiter) where
  -- How many of the client's requests are let through.
  unfoldable pub passed : Text → Arrivals → Limiting counters → ℕ
  passed k [] s = 0
  passed k ((now, j) ∷ rest) s =
      let (reply, s') = limit counters limiter now j s in
      (if text_eq j k then admitted reply else 0) + passed k rest s'

  passed_from :
      (k : Text) (last until h : ℕ) (arrivals : Arrivals) (s : Limiting counters)
      → AreOrdered last until arrivals
      → until ≤ last + limiter.window
      → Counted counters limiter k last until h s
      → passed k arrivals s ≡ min (arrived k arrivals) (limiter.max - h)
  unfolding passed
  passed_from k last until h [] s order short c = omega arith
  passed_from k last until h ((now, j) ∷ rest) s order short c =
      let (from, before, more) = order in
      let s' = (limit counters limiter now j s).1 in
      elim (Bool-cases (text_eq j k)) [
        | inl own ↦
            let same : j ≡ k = (text_eq_iff j k).0 own in
            let next =
              passed_from k now until (h + 1) rest s' more (omega arith)
                (rw same (own-Counted counters limiter k last until h now s from before short c)) in
            let here : admitted (limit counters limiter now j s).0
                ≡ (if ltb limiter.max (h + 1) then 0 else 1) =
              rw same (own_admitted counters limiter k last until h now s from before short c) in
            rw (own, here, next) (ground arith)
        | inr foreign ↦
            let next =
              passed_from k now until h rest s' more (omega arith) (
                other-Counted counters limiter k last until h now s from before short c j
                  foreign) in
            rw (foreign, next) (ground arith)
      ]

  -- However the requests of the other clients lie between them, of the requests that a client
  -- sends within one window, if none of its requests was counted before, exactly `max` are
  -- let through, or all of them if there are no more.
  pub passed-eq-min :
      (k : Text) (start until : ℕ) (arrivals : Arrivals) (s : Limiting counters)
      → AreOrdered start until arrivals
      → until ≤ start + limiter.window
      → ((u : ℕ) → start ≤ u → u < until → counters.hits u k s.store ≡ 0)
      → passed k arrivals s ≡ min (arrived k arrivals) limiter.max
  passed-eq-min k start until arrivals s order short fresh =
      passed_from k start until 0 arrivals s order short
        (record { counted = fresh; lasting = inl refl })
      ∙ omega arith

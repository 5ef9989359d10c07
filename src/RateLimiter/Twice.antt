-- ===== src/RateLimiter/Twice.antt =====
-- The routes of src/routes/property.routes.ts that name `generalRateLimiter`, behind `app.use` of
-- the same limiter in src/app.ts: a request for /api/properties passes it twice.
use Prim.Native.Nat.{min}
use property_platform_backen.Prelude.{
  ℕ, ◌+◌, ◌-◌, ◌/◌, ◌≤◌, ◌<◌, ◌≡◌, inl, inr, refl, ◌∙◌, Text, List, [], ◌∷◌, length, ltb,
  Bool-cases, arith,
}
use property_platform_backen.Effects.{Result, ok, err, Exec, continue, ◌>>◌}
use property_platform_backen.RateLimiter.{Counters, Limiter, Limiting, limit}
use property_platform_backen.RateLimiter.Counts.{admitted, Counted, own_admitted, own-Counted}

-- The times of a client's requests, ordered, from `last` on and before `until`.
abbrev pub AreTimes : ℕ → ℕ → List ℕ → Type 0
AreTimes last until [] = Unit
AreTimes last until (now ∷ rest) = (last ≤ now) × (now < until) × AreTimes now until rest

module _ (counters : Counters) (limiter : Limiter) where
  unfoldable pub limit_properties : ℕ → Text → Exec (Limiting counters) Unit
  unfolding continue
  limit_properties now k = limit counters limiter now k >> limit counters limiter now k

  -- How many of the client's requests for properties are let through.
  unfoldable pub passed_properties : Text → List ℕ → Limiting counters → ℕ
  passed_properties k [] s = 0
  passed_properties k (now ∷ rest) s =
      let (reply, s') = limit_properties now k s in admitted reply + passed_properties k rest s'

  -- A first limiter that lets the request through leads to the second, and one that does not ends
  -- it.
  stopped :
      (f : Exec (Limiting counters) (Unit {0})) (r : Result (Unit {0}) × Limiting counters)
      → admitted r.0 ≡ 0
      → (admitted (continue (λ _. f) r).0 ≡ 0) × ((continue (λ _. f) r).1 ≡ r.1)
  unfolding continue
  stopped f (ok u, s) h = absurd (omega arith)
  stopped f (err e, s) h = (refl, refl)

  let_through :
      (f : Exec (Limiting counters) (Unit {0})) (r : Result (Unit {0}) × Limiting counters)
      → admitted r.0 ≡ 1
      → continue (λ _. f) r ≡ f r.1
  unfolding continue
  let_through f (ok u, s) h = refl
  let_through f (err e, s) h = absurd (omega arith)

  passed_from :
      (k : Text) (last until h : ℕ) (times : List ℕ) (s : Limiting counters)
      → AreTimes last until times
      → until ≤ last + limiter.window
      → Counted counters limiter k last until h s
      → passed_properties k times s ≡ min (length times) ((limiter.max - h) / 2)
  unfolding passed_properties limit_properties
  passed_from k last until h [] s order short c = omega arith
  passed_from k last until h (now ∷ rest) s order short c =
      let (from, before, more) = order in
      let once = limit counters limiter now k in
      let r = once s in
      let first = own_admitted counters limiter k last until h now s from before short c in
      let one = own-Counted counters limiter k last until h now s from before short c in
      elim (Bool-cases (ltb limiter.max (h + 1))) [
        | inl full ↦
            let (none_in, same) = stopped once r (first ∙ rw full) in
            let next = passed_from k now until (h + 1) rest r.1 more (omega arith) one in
            rw (none_in, same, next) (ground arith)
        | inr room ↦
            let again = let_through once r (first ∙ rw room) in
            let second =
              own_admitted counters limiter k now until (h + 1) now r.1 (omega arith) before
                (omega arith) one in
            let two =
              own-Counted counters limiter k now until (h + 1) now r.1 (omega arith) before
                (omega arith) one in
            let next =
              passed_from k now until (h + 1 + 1) rest (once r.1).1 more (omega arith) two in
            rw (again, second, next) (ground arith)
      ]

  -- Of the requests for properties that a client sends within one window, if none of its requests
  -- was counted before, half of `max` are let through, or all of them if there are no more: each
  -- counts twice.
  pub passed_properties-eq-min :
      (k : Text) (start until : ℕ) (times : List ℕ) (s : Limiting counters)
      → AreTimes start until times
      → until ≤ start + limiter.window
      → ((u : ℕ) → start ≤ u → u < until → counters.hits u k s.store ≡ 0)
      → passed_properties k times s ≡ min (length times) (limiter.max / 2)
  passed_properties-eq-min k start until times s order short fresh =
      passed_from k start until 0 times s order short
        (record { counted = fresh; lasting = inl refl })
      ∙ omega arith

-- ===== src/RateLimiter/Counts.antt =====
-- What one request does to the counts.
use property_platform_backen.Prelude.{
  ℕ, ◌+◌, ◌≤◌, ◌<◌, ◌≡◌, ◌⊎◌, inl, inr, refl, ◌∙◌, Text, text_eq, Bool, true, false, ltb,
  if◌then◌else◌, arith,
}
use property_platform_backen.Effects.{Result, ok, err, continue}
use property_platform_backen.RateLimiter.{
  Counters, Limiter, Limiting, counted, reject, decide, limit,
}

-- 1 if the request was let through.
abbrev pub admitted : Result (Unit {0}) → ℕ
admitted (ok u) = 1
admitted (err e) = 0

module _ (counters : Counters) (limiter : Limiter) where
  open counters use {
    Store, hits, ends, count, hits-count_self, hits-count_other, ends-count_self, ends-count_other,
  }

  store-decide :
      (over : Bool) (s : Limiting counters) → (decide counters limiter over s).1.store ≡ s.store
  unfolding decide reject continue
  store-decide true s = refl
  store-decide false s = refl

  admitted-decide :
      (over : Bool) (s : Limiting counters)
      → admitted (decide counters limiter over s).0 ≡ (if over then 0 else 1)
  unfolding decide reject continue
  admitted-decide true s = refl
  admitted-decide false s = refl

  pub store-limit :
      (now : ℕ) (k : Text) (s : Limiting counters)
      → (limit counters limiter now k s).1.store ≡ count now limiter.window k s.store
  unfolding limit counted
  store-limit now k s = store-decide _ (counted counters limiter now k s)

  pub admitted-limit :
      (now : ℕ) (k : Text) (s : Limiting counters)
      → admitted (limit counters limiter now k s).0
        ≡ (if ltb limiter.max (hits now k (count now limiter.window k s.store)) then 0 else 1)
  unfolding limit counted
  admitted-limit now k s = admitted-decide _ (counted counters limiter now k s)

  -- From `last` until `until`, the count of the key is `h`; and if it is not 0, its window lasts
  -- at least until then.
  pub record Counted (k : Text) (last until h : ℕ) (s : Limiting counters) : Type 0 where
    pub counted : (u : ℕ) → last ≤ u → u < until → hits u k s.store ≡ h
    pub lasting : (h ≡ 0) ⊎ (until ≤ ends k s.store)

  module _ (k : Text) (last until h now : ℕ) (s : Limiting counters) (from : last ≤ now)
      (before : now < until) (short : until ≤ last + limiter.window)
      (before_it : Counted k last until h s) where
    open_until : until ≤ ends k (count now limiter.window k s.store)
    open_until =
        let here = before_it.counted now from before in
        let opened = ends-count_self now limiter.window k s.store in
        elim before_it.lasting [
          | inl none_yet ↦ rw (opened, here, none_yet) (omega arith)
          | inr lasts ↦ rw (opened, here) (ground arith)
        ]

    pub hits-own :
        (u : ℕ) → now ≤ u → u < until → hits u k (count now limiter.window k s.store) ≡ h + 1
    hits-own u later end =
        let here = before_it.counted now from before in
        let grown =
          hits-count_self now u limiter.window k s.store later (omega (arith, open_until)) in
        grown ∙ rw here

    pub own_admitted :
        admitted (limit counters limiter now k s).0 ≡ (if ltb limiter.max (h + 1) then 0 else 1)
    own_admitted = admitted-limit now k s ∙ rw (hits-own now (omega arith) before)

    pub own-Counted : Counted k now until (h + 1) (limit counters limiter now k s).1
    own-Counted = record {
      counted = rw (store-limit now k s) hits-own;
      lasting = inr (rw (store-limit now k s) open_until);
    }

    pub other-Counted :
        (j : Text) → text_eq j k ≡ false → Counted k now until h (limit counters limiter now j s).1
    other-Counted j apart = record {
      counted = rw (store-limit now j s) (λ u later end.
          hits-count_other now u limiter.window j k s.store apart
          ∙ before_it.counted u (omega arith) end);
      lasting =
          rw (store-limit now j s, ends-count_other now limiter.window j k s.store apart)
            before_it.lasting;
    }

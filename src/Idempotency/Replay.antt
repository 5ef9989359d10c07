-- ===== src/Idempotency/Replay.antt =====
-- A key runs its handler once.
use property_platform_backen.Prelude.{
  ℕ, ◌+◌, ◌≤◌, ◌<◌, ◌≡◌, refl, codes, Text, text_eq_iff, lt→ltb, none, some, ◌∷◌,
}
use property_platform_backen.Errors.{Response, conflict_error}
use property_platform_backen.Redis.{Redis}
use property_platform_backen.Idempotency.{
  Marker, processing, completed, idempotency_life, redis_key, not_claimed, after_claim,
  idempotency_middleware, record_response, proceed, serve, next_claimed, answered, failed,
}

module _ (redis : Redis Marker) (path : Text) (c : ℕ) (cs : Text) where
  open redis use {Store, get, set_ex, set_nx, get-set_ex, set_nx_taken, set_nx_free}

  abbrev key : Text
  key = redis_key path (c ∷ cs)

  pub held :
      (t now life : ℕ) (m : Marker) (s : Store)
      → t ≤ now
      → now < t + life
      → get now key (set_ex t key m life s) ≡ some m
  held t now life m s h k =
      rw
        (get-set_ex t now key key m life s h, (text_eq_iff key key).1 refl, lt→ltb now (t + life) k)

  pub taken :
      (now : ℕ) (m : Marker) (s : Store)
      → get now key s ≡ some m
      → idempotency_middleware redis now path (some (c ∷ cs)) s ≡ (not_claimed (some m), s)
  unfolding idempotency_middleware after_claim
  taken now m s h = rw (set_nx_taken now key processing m idempotency_life s h, h)

  pub free :
      (now : ℕ) (s : Store)
      → get now key s ≡ none
      → idempotency_middleware redis now path (some (c ∷ cs)) s
        ≡ (next_claimed key, set_ex now key processing idempotency_life s)
  unfolding idempotency_middleware after_claim
  free now s h = rw (set_nx_free now key processing idempotency_life s h)

  module _ {S : Type 0} (handler : S → Response × S) where
    -- A request with a key that the store does not hold runs the handler and is answered by it. If
    -- 24 hours have not passed since it arrived, a second request with the key that comes before
    -- its response is rejected as a conflict; if 24 hours have not passed since its response, a
    -- later one is answered with the same response, whatever its status. Neither runs the handler
    -- or changes the store.
    pub serve_once :
        (t₀ t₁ early late done : ℕ) (s : Store) (a b : S)
        → get t₀ key s ≡ none
        → t₀ ≤ early
        → early < t₀ + idempotency_life
        → t₁ ≤ late
        → late < t₁ + idempotency_life
        → let claimed = (idempotency_middleware redis t₀ path (some (c ∷ cs)) s).1 in
          let (reply, s', a') = serve redis handler t₀ t₁ path (some (c ∷ cs)) s a in
          (reply ≡ answered (handler a).0)
          × (a' ≡ (handler a).1)
          × (serve redis handler early done path (some (c ∷ cs)) claimed b ≡ (
            failed (
                conflict_error
                  (codes "A request with this Idempotency-Key is already being processed.")),
            claimed,
            b,
          ))
          × (serve redis handler late done path (some (c ∷ cs)) s' b
              ≡ (answered (handler a).0, s', b))
    unfolding serve proceed record_response not_claimed
    serve_once t₀ t₁ early late done s a b h p q p' q' =
        let claimed = set_ex t₀ key processing idempotency_life s in
        let marker = completed (handler a).0.status (handler a).0.body in
        rw (free t₀ s h) (
          refl,
          refl,
          rw (taken early processing claimed (held t₀ early idempotency_life processing s p q)),
          rw (
              taken late marker (set_ex t₁ key marker idempotency_life claimed)
                (held t₁ late idempotency_life marker claimed p' q')),
        )

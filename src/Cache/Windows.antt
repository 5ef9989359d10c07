-- ===== src/Cache/Windows.antt =====
-- How old a served value can be, and what a read after a write, a failed fetch or an invalidation
-- returns.
use property_platform_backen.Prelude.{
  ℕ, ◌+◌, ◌*◌, ◌≤◌, ◌<◌, ◌≡◌, ◌⊎◌, inl, inr, refl, Text, text_eq_iff, Bool, true, false, Option,
  none, some, ltb, Bool-cases, not, lt→ltb, arith,
}
use property_platform_backen.Effects.{Result, ok}
use property_platform_backen.Redis.{Redis}
use property_platform_backen.Cache.{
  CacheEnvelope, Fetch, redis_life, write_cache, refresh_in_background, get_or_set_with_swr,
  invalidate_cache, serve_found, missed,
}

module _ {T : Type 0} (redis : Redis (CacheEnvelope T)) where
  open redis use {Store, get, get-set_ex, get-del}

  -- Where a returned value can come from, if `found` is what the store holds for the key.
  abbrev pub IsRecent : ℕ → ℕ → ℕ → Fetch T → Option (CacheEnvelope T) → T → Bool → Type 0
  IsRecent ttl stale now fetch found value refreshing =
      (fetch.outcome ≡ ok value)
      ⊎ ((e : CacheEnvelope T) × (found ≡ some e)
          × (e.data_of ≡ value)
          × (now < e.cached_at + (ttl + stale) * 1000)
          × ((now < e.cached_at + ttl * 1000) ⊎ (refreshing ≡ true)))

  found-IsRecent :
      (key : Text) (ttl stale now : ℕ) (fetch : Fetch T) (found : Option (CacheEnvelope T))
      (s : Store) (value : T)
      → (serve_found redis key ttl stale now fetch found s).reply ≡ ok value
      → IsRecent ttl stale now fetch found value
          (serve_found redis key ttl stale now fetch found s).refreshing
  unfolding serve_found
  found-IsRecent key ttl stale now fetch none s value h = inl h
  found-IsRecent key ttl stale now fetch (some e) s value h =
      elim (Bool-cases (ltb now (e.cached_at + ttl * 1000))) [
        | inl fresh ↦
            let same : ◌≡◌ {A = Result T} (ok e.data_of) (ok value) = rw fresh at h in
            rw fresh (inr (e, refl, (cc), ground arith, inl (ground arith)))
        | inr old ↦ elim (Bool-cases (ltb now (e.cached_at + (ttl + stale) * 1000))) [
          | inl usable ↦
              let same : ◌≡◌ {A = Result T} (ok e.data_of) (ok value) = rw (old, usable) at h in
              rw (old, usable) (inr (e, refl, (cc), ground arith, inr refl))
          | inr gone ↦ inl (rw (old, gone) at h)
        ]
      ]

  -- Whatever the store holds, a returned value comes from this call's fetch, or from an envelope
  -- of its key that is younger than both lifetimes together; and if that one is older than the
  -- first lifetime, a refresh has been started.
  pub served-IsRecent :
      (key : Text) (ttl stale now : ℕ) (fetch : Fetch T) (s : Store) (value : T)
      → let served = get_or_set_with_swr redis key ttl stale now fetch s in
        served.reply ≡ ok value
        → IsRecent ttl stale now fetch (get now key s) value served.refreshing
  unfolding get_or_set_with_swr
  served-IsRecent key ttl stale now fetch s value h =
      found-IsRecent key ttl stale now fetch (get now key s) s value h

  -- After a fetch of `value` that ended at `t`, by a waiting call or in the background, a read
  -- within both lifetimes, and within the six hours of the store, returns `value` without waiting
  -- for a fetch, even if its own fetch would fail, and leaves the store alone; within the first
  -- lifetime it starts no refresh.
  pub read_after_refresh :
      (key : Text) (ttl stale t now : ℕ) (value : T) (fetch : Fetch T) (s : Store)
      → t ≤ now
      → now < t + (ttl + stale) * 1000
      → now < t + redis_life
      → let refreshed =
          refresh_in_background redis key (record { outcome = ok value; done_at = t }) s in
        let served = get_or_set_with_swr redis key ttl stale now fetch refreshed in
        (served.reply ≡ ok value)
        × (served.waited ≡ false)
        × (served.store ≡ refreshed)
        × (served.refreshing ≡ not (ltb now (t + ttl * 1000)))
  unfolding get_or_set_with_swr refresh_in_background write_cache serve_found
  read_after_refresh key ttl stale t now value fetch s h k l =
      rw
        (
          get-set_ex t now key key (record { data_of = value; cached_at = t }) redis_life s h,
          (text_eq_iff key key).1 refl,
          lt→ltb now (t + redis_life) l,
        )
        (ground arith, ground arith, ground arith, ground arith)

  -- After an invalidation of its key, a read waits for its own fetch and returns or throws what
  -- that does.
  pub read_after_invalidate :
      (key : Text) (ttl stale now : ℕ) (fetch : Fetch T) (s : Store)
      → let served =
          get_or_set_with_swr redis key ttl stale now fetch (invalidate_cache redis key s) in
        (served.reply ≡ fetch.outcome) × (served.waited ≡ true)
  unfolding get_or_set_with_swr invalidate_cache serve_found missed
  read_after_invalidate key ttl stale now fetch s =
      rw (get-del now key key s, (text_eq_iff key key).1 refl) (refl, refl)

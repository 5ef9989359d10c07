-- ===== src/Cache.antt =====
-- src/services/cache.service.ts: reading through the cache with stale-while-revalidate. A fetch is
-- an argument: what the fetcher returns or throws, and when it is done.
pub mod Windows
pub mod Prefixes
pub mod Failing
mod Tests
use property_platform_backen.Prelude.{
  ℕ, ◌+◌, ◌*◌, Text, codes, List, [], ◌∷◌, ◌++◌, Bool, true, false, Option, none, some, ltb,
  if◌then◌else◌,
}
use property_platform_backen.Effects.{Result, ok, err}
use property_platform_backen.Redis.{Redis}

pub record CacheEnvelope (T : Type 0) : Type 0 where
  pub data_of : T
  pub cached_at : ℕ

pub record Fetch (T : Type 0) : Type 0 where
  pub outcome : Result T
  pub done_at : ℕ

-- 60 * 60 * 6 seconds
abbrev pub redis_life : ℕ
redis_life = 21600 * 1000

-- `!keys.length`
abbrev pub is_nil : List Text → Bool
is_nil [] = true
is_nil (k ∷ ks) = false

module _ {T : Type 0} (redis : Redis (CacheEnvelope T)) where
  open redis use {Store, get, set_ex, del, scan}

  unfoldable pub write_cache : ℕ → Text → T → Store → Store
  write_cache now key value s =
      set_ex now key (record { data_of = value; cached_at = now }) redis_life s

  unfoldable pub write_fetched : Text → ℕ → Result T → Store → Store
  unfolding write_cache
  write_fetched key done_at (ok value) s = write_cache done_at key value s
  write_fetched key done_at (err e) s = s

  -- A refresh that fails is logged, and leaves the store alone.
  unfoldable pub refresh_in_background : Text → Fetch T → Store → Store
  unfolding write_fetched
  refresh_in_background key fetch s = write_fetched key fetch.done_at fetch.outcome s

  -- A reply, the store, and whether the call waited for a fetch or started one in the background.
  pub record Served : Type 0 where
    pub reply : Result T
    pub store : Store
    pub waited : Bool
    pub refreshing : Bool

  unfoldable pub missed : Text → Fetch T → Store → Served
  unfolding write_fetched
  missed key fetch s = record {
    reply = fetch.outcome;
    store = write_fetched key fetch.done_at fetch.outcome s;
    waited = true;
    refreshing = false;
  }

  unfoldable pub serve_found :
      Text → ℕ → ℕ → ℕ → Fetch T → Option (CacheEnvelope T) → Store → Served
  unfolding missed
  serve_found key ttl stale now fetch none s = missed key fetch s
  serve_found key ttl stale now fetch (some e) s =
      if ltb now (e.cached_at + ttl * 1000)
      then record { reply = ok e.data_of; store = s; waited = false; refreshing = false }
      else if ltb now (e.cached_at + (ttl + stale) * 1000)
      then record { reply = ok e.data_of; store = s; waited = false; refreshing = true }
      else missed key fetch s

  -- `getOrSetWithSWR` at the time `now`, with both lifetimes in seconds. An age is below a bound
  -- when the time is below the time of caching plus that bound.
  unfoldable pub get_or_set_with_swr : Text → ℕ → ℕ → ℕ → Fetch T → Store → Served
  unfolding serve_found
  get_or_set_with_swr key ttl stale now fetch s =
      serve_found key ttl stale now fetch (get now key s) s

  unfoldable pub invalidate_cache : Text → Store → Store
  invalidate_cache key s = del key s

  -- DEL with several keys.
  unfoldable pub del_all : List Text → Store → Store
  del_all [] s = s
  del_all (k ∷ ks) s = del_all ks (del k s)

  -- `invalidateCacheByPrefix` at a time.
  unfoldable pub invalidate_cache_by_prefix : ℕ → Text → Store → Store
  invalidate_cache_by_prefix now prefix s =
      let keys = scan now (prefix ++ codes "*") s in if is_nil keys then s else del_all keys s

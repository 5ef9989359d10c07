-- ===== src/Cache/Failing.antt =====
-- `getOrSetWithSWR` of src/services/cache.service.ts where the commands of Redis may fail: the
-- errors of GET and of `writeCache` pass to the caller, but for those of a background refresh.
use property_platform_backen.Prelude.{
  ℕ, ◌+◌, ◌*◌, ◌≡◌, refl, Text, true, false, Option, none, some, ltb, if◌then◌else◌,
}
use property_platform_backen.Effects.{Result, ok, err}
use property_platform_backen.Redis.{Redis}
use property_platform_backen.Database.{Fault, answered, refused, unacked, lost_connection}
use property_platform_backen.Cache.{
  CacheEnvelope, Fetch, Served, get_or_set_with_swr, serve_found, missed, write_cache,
  write_fetched,
}

module _ {T : Type 0} (redis : Redis (CacheEnvelope T)) where
  open redis use {Store, get}

  -- SET under a fault: whether it is answered, and the store.
  unfoldable pub try_write_cache : Fault → ℕ → Text → T → Store → Result (Unit {0}) × Store
  unfolding write_cache
  try_write_cache answered now key value s = (ok tt, write_cache redis now key value s)
  try_write_cache refused now key value s = (err lost_connection, s)
  try_write_cache unacked now key value s = (err lost_connection, write_cache redis now key value s)

  abbrev pub after_write : T → Result (Unit {0}) × Store → Served redis
  after_write value (ok u, s) = record {
    reply = ok value;
    store = s;
    waited = true;
    refreshing = false;
  }
  after_write value (err e, s) = record {
    reply = err e;
    store = s;
    waited = true;
    refreshing = false;
  }

  -- `const fresh = await fetcher(); await writeCache(key, fresh); return fresh;`
  unfoldable pub try_missed : Fault → Text → ℕ → Result T → Store → Served redis
  unfolding try_write_cache
  try_missed write key done_at (ok value) s =
      after_write value (try_write_cache write done_at key value s)
  try_missed write key done_at (err e) s = record {
    reply = err e;
    store = s;
    waited = true;
    refreshing = false;
  }

  unfoldable pub try_serve_found :
      Fault → Text → ℕ → ℕ → ℕ → Fetch T → Option (CacheEnvelope T) → Store → Served redis
  unfolding try_missed
  try_serve_found write key ttl stale now fetch none s =
      try_missed write key fetch.done_at fetch.outcome s
  try_serve_found write key ttl stale now fetch (some e) s =
      if ltb now (e.cached_at + ttl * 1000)
      then record { reply = ok e.data_of; store = s; waited = false; refreshing = false }
      else if ltb now (e.cached_at + (ttl + stale) * 1000)
      then record { reply = ok e.data_of; store = s; waited = false; refreshing = true }
      else try_missed write key fetch.done_at fetch.outcome s

  -- `getOrSetWithSWR`, with the faults of its GET and of the SET behind a fetch.
  unfoldable pub try_get_or_set_with_swr :
      Fault → Fault → Text → ℕ → ℕ → ℕ → Fetch T → Store → Served redis
  unfolding try_serve_found
  try_get_or_set_with_swr answered write key ttl stale now fetch s =
      try_serve_found write key ttl stale now fetch (get now key s) s
  try_get_or_set_with_swr _ write key ttl stale now fetch s = record {
    reply = err lost_connection;
    store = s;
    waited = false;
    refreshing = false;
  }

  missed_answered :
      (key : Text) (done_at : ℕ) (outcome : Result T) (s : Store)
      → try_missed answered key done_at outcome s
        ≡ missed redis key (record { outcome = outcome; done_at = done_at }) s
  unfolding try_missed missed write_fetched
  missed_answered key done_at (ok value) s = refl
  missed_answered key done_at (err e) s = refl

  found_answered :
      (key : Text) (ttl stale now : ℕ) (fetch : Fetch T) (found : Option (CacheEnvelope T))
      (s : Store)
      → try_serve_found answered key ttl stale now fetch found s
        ≡ serve_found redis key ttl stale now fetch found s
  unfolding try_serve_found serve_found
  found_answered key ttl stale now fetch none s = missed_answered key fetch.done_at fetch.outcome s
  found_answered key ttl stale now fetch (some e) s =
      rw (missed_answered key fetch.done_at fetch.outcome s)

  -- Where both commands are answered, this is `get_or_set_with_swr`.
  pub try_answered :
      (key : Text) (ttl stale now : ℕ) (fetch : Fetch T) (s : Store)
      → try_get_or_set_with_swr answered answered key ttl stale now fetch s
        ≡ get_or_set_with_swr redis key ttl stale now fetch s
  unfolding try_get_or_set_with_swr get_or_set_with_swr
  try_answered key ttl stale now fetch s = found_answered key ttl stale now fetch (get now key s) s

-- ===== src/Cache/Tests.antt =====
-- Instances of the theorems on the cache, over the store in memory, for a cached number.
use property_platform_backen.Prelude.{
  ℕ, ◌+◌, ◌*◌, ◌≡◌, refl, codes, false, none, List, [], not, ltb, arith,
}
use property_platform_backen.Effects.{ok}
use property_platform_backen.Redis.Memory.{Cell, memory, look_up}
use property_platform_backen.Cache.{
  CacheEnvelope, Fetch, refresh_in_background, get_or_set_with_swr, missed, serve_found,
}
use property_platform_backen.Cache.Windows.{IsRecent, served-IsRecent, read_after_refresh}

abbrev fetched : Fetch ℕ
fetched = record { outcome = ok 5; done_at = 20 }

abbrev empty : List (Cell (CacheEnvelope ℕ))
empty = []

five :
    (get_or_set_with_swr (memory (CacheEnvelope ℕ)) (codes "k") 1 2 10 fetched empty).reply ≡ ok 5
unfolding get_or_set_with_swr serve_found missed look_up
five = refl

served-IsRecent_example :
    IsRecent
      (memory (CacheEnvelope ℕ))
      1
      2
      10
      fetched
      none
      5
      (get_or_set_with_swr (memory (CacheEnvelope ℕ)) (codes "k") 1 2 10 fetched empty).refreshing
unfolding look_up
served-IsRecent_example =
    served-IsRecent (memory (CacheEnvelope ℕ)) (codes "k") 1 2 10 fetched empty 5 five

read_after_refresh_example :
    let refreshed = refresh_in_background (memory (CacheEnvelope ℕ)) (codes "k") fetched empty in
    let served =
      get_or_set_with_swr (memory (CacheEnvelope ℕ)) (codes "k") 1 2 1500 fetched refreshed in
    (served.reply ≡ ok 5)
    × (served.waited ≡ false)
    × (served.store ≡ refreshed)
    × (served.refreshing ≡ not (ltb 1500 (20 + 1 * 1000)))
read_after_refresh_example =
    read_after_refresh (memory (CacheEnvelope ℕ)) (codes "k") 1 2 20 1500 5 fetched empty
      (omega arith) (omega arith) (omega arith)

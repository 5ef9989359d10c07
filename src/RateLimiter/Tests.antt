-- ===== src/RateLimiter/Tests.antt =====
-- Instances of the theorems on the limiters, over counters in memory, and a run of them.
use Prim.Native.Nat.{min}
use property_platform_backen.Prelude.{◌≡◌, refl, text_eq, [], ◌∷◌, arith}
use property_platform_backen.RateLimiter.{Limiter, Limiting, limit}
use property_platform_backen.RateLimiter.Windows.{Arrivals, arrived, passed, passed-eq-min}
use property_platform_backen.RateLimiter.Memory.{in_memory}

abbrev strict : Limiter
strict = record { window = 60000; max = 3; prefix = [] }

abbrev unused : Limiting in_memory
unused = record { store = λ k. (0, 0); exceeded = [] }

-- Two clients, one of which sends four requests.
abbrev burst : Arrivals
burst =
    (100, b'a' ∷ [])
    ∷ (150, b'b' ∷ [])
    ∷ (150, b'a' ∷ [])
    ∷ (200, b'a' ∷ [])
    ∷ (300, b'a' ∷ [])
    ∷ []

passed-eq-min_example :
    passed in_memory strict (b'a' ∷ []) burst unused ≡ min (arrived (b'a' ∷ []) burst) 3
passed-eq-min_example =
    passed-eq-min in_memory strict (b'a' ∷ []) 100 60100 burst unused (omega arith) (omega arith)
      (λ u p q. ground arith)

passed_run : passed in_memory strict (b'a' ∷ []) burst unused ≡ 3
unfolding passed limit text_eq
passed_run = refl

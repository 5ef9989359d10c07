-- ===== src/RateLimiter.antt =====
-- src/middleware/rateLimiter.ts: `buildLimiter` and the three limiters. The counting is that of
-- express-rate-limit with its store in Redis, as an interface with the documented behaviour: a
-- key's first request opens a window, which ends after a fixed time.
pub mod Counts
pub mod Windows
pub mod Twice
pub mod Memory
mod Tests
use property_platform_backen.Prelude.{
  ℕ, ◌+◌, ◌≤◌, ◌<◌, ◌≡◌, Text, codes, text_eq, Bool, false, Option, none, some, List, [], ◌∷◌, ◌++◌,
  ltb, ◌==◌, if◌then◌else◌,
}
use property_platform_backen.Errors.{too_many_requests_error}
use property_platform_backen.Effects.{Result, ok, Exec, raise_if, continue, ◌>>=◌, ◌>>◌, modify}

pub record Counters : Type 1 where
  pub Store : Type 0
  -- How many requests of a key are counted in the window that is open at a time.
  pub hits : ℕ → Text → Store → ℕ
  -- When the window of a key ends.
  pub ends : Text → Store → ℕ
  -- `increment`: the time, the length of a window, and the key.
  pub count : ℕ → ℕ → Text → Store → Store
  pub hits-count_self :
      (now later window : ℕ) (k : Text) (s : Store)
      → now ≤ later
      → later < ends k (count now window k s)
      → hits later k (count now window k s) ≡ hits now k s + 1
  pub hits-count_other :
      (now later window : ℕ) (k j : Text) (s : Store)
      → text_eq k j ≡ false
      → hits later j (count now window k s) ≡ hits later j s
  pub ends-count_self :
      (now window : ℕ) (k : Text) (s : Store)
      → ends k (count now window k s) ≡ (if hits now k s == 0 then now + window else ends k s)
  pub ends-count_other :
      (now window : ℕ) (k j : Text) (s : Store)
      → text_eq k j ≡ false
      → ends j (count now window k s) ≡ ends j s

-- What `buildLimiter` is given. Times are in milliseconds.
pub record Limiter : Type 0 where
  pub window : ℕ
  pub max : ℕ
  pub prefix : Text

-- The part of the environment that sets the limits.
pub record Limits : Type 0 where
  pub window_ms : ℕ
  pub rate_max : ℕ
  pub enquiry_max : ℕ

abbrev pub general_limiter : Limits → Limiter
general_limiter env = record {
  window = env.window_ms;
  max = env.rate_max;
  prefix = codes "rl:general:";
}

abbrev pub enquiry_limiter : Limits → Limiter
enquiry_limiter env = record {
  window = env.window_ms;
  max = env.enquiry_max;
  prefix = codes "rl:enquiry:";
}

abbrev pub webhook_limiter : Limits → Limiter
webhook_limiter env = record { window = env.window_ms; max = 30; prefix = codes "rl:webhook:" }

-- `req.ip || 'unknown'`
abbrev pub or_unknown : Option Text → Text
or_unknown none = codes "unknown"
or_unknown (some []) = codes "unknown"
or_unknown (some (c ∷ ip)) = c ∷ ip

-- `keyGenerator`, behind the prefix of the store, where `normal` is `ipKeyGenerator`.
abbrev pub key_of : (Text → Text) → Limiter → Option Text → Text
key_of normal limiter ip = limiter.prefix ++ normal (or_unknown ip)

module _ (counters : Counters) where
  open counters use {Store, hits, count}

  -- The counts, and the labels under which a rejected request was counted, the last first.
  pub record Limiting : Type 0 where
    pub store : Store
    pub exceeded : List Text

  counted : Limiter → ℕ → Text → Limiting → Limiting
  counted limiter now key s = record s { store = count now limiter.window key s.store }

  -- `handler`, which throws.
  reject : Limiter → Exec Limiting Unit
  unfolding continue
  reject limiter = do
    modify (λ s. record s { exceeded = limiter.prefix ∷ s.exceeded })
    raise_if Bool.true
        (too_many_requests_error (codes "Too many requests. Please slow down and try again later."))

  decide : Limiter → Bool → Exec Limiting Unit
  unfolding reject
  decide limiter over s = if over then reject limiter s else (ok tt, s)

  -- The middleware of a limiter, for a key at a time.
  unfoldable pub limit : Limiter → ℕ → Text → Exec Limiting Unit
  unfolding counted decide
  limit limiter now key s =
      let s' = counted limiter now key s in
      decide limiter (ltb limiter.max (hits now key s'.store)) s'

-- ===== src/Idempotency/Faulty.antt =====
-- One key under failing commands of Redis, with its requests and responses in any order.
use property_platform_backen.Prelude.{
  ℕ, ◌+◌, ◌≡◌, refl, Text, Bool, true, false, some, List, [], ◌∷◌,
}
use property_platform_backen.Errors.{Response}
use property_platform_backen.Database.{Fault, answered, refused, unacked, lost_connection}
use property_platform_backen.Redis.{Redis}
use property_platform_backen.Idempotency.{
  Marker, processing, idempotency_life, Verdict, next_claimed, rejected, redis_key, not_claimed,
  record_response, after_claim, idempotency_middleware,
}

module _ (redis : Redis Marker) where
  open redis use {Store, get, set_ex, set_nx}

  -- The GET of a key that is taken, under a fault.
  unfoldable pub try_read : Fault → ℕ → Text → Store → Verdict
  try_read answered now key s = not_claimed (get now key s)
  try_read _ now key s = rejected lost_connection

  unfoldable pub try_after_claim : Fault → ℕ → Text → Bool × Store → Verdict × Store
  unfolding try_read
  try_after_claim read now key (true, s) = (next_claimed key, s)
  try_after_claim read now key (false, s) = (try_read read now key s, s)

  -- The middleware for a request with a key, with the faults of its SET and its GET.
  unfoldable pub try_claim : Fault → Fault → ℕ → Text → Store → Verdict × Store
  unfolding try_after_claim
  try_claim answered read now key s =
      try_after_claim read now key (set_nx now key processing idempotency_life s)
  try_claim refused read now key s = (rejected lost_connection, s)
  try_claim unacked read now key s =
      (rejected lost_connection, (set_nx now key processing idempotency_life s).1)

  -- `res.json`, with the fault of its SET, whose error is dropped.
  unfoldable pub try_record : Fault → ℕ → Text → Response → Store → Store
  unfolding record_response
  try_record refused now key res s = s
  try_record _ now key res s = record_response redis now key res s

  -- What happens to a key: a request arrives with it, or a handler that it has run responds.
  pub data KeyEvent : Type 0 where
    arrived : ℕ → Fault → Fault → KeyEvent
    responded : ℕ → Response → Fault → KeyEvent

  abbrev pub time_of : KeyEvent → ℕ
  time_of (arrived t claim read) = t
  time_of (responded t res write) = t

  -- The store, and how often the handler was run.
  pub record History : Type 0 where
    pub store : Store
    pub runs : ℕ

  abbrev pub counted_run : ℕ → Verdict × Store → History
  counted_run n (next_claimed key, s) = record { store = s; runs = n + 1 }
  counted_run n (_, s) = record { store = s; runs = n }

  unfoldable pub happens : Text → KeyEvent → History → History
  unfolding try_claim try_record
  happens key (arrived t claim read) h = counted_run h.runs (try_claim claim read t key h.store)
  happens key (responded t res write) h = record {
    store = try_record write t key res h.store;
    runs = h.runs;
  }

  unfoldable pub all_happen : Text → List KeyEvent → History → History
  all_happen key [] h = h
  all_happen key (e ∷ es) h = all_happen key es (happens key e h)

  claim_answered :
      (now : ℕ) (key : Text) (r : Bool × Store)
      → try_after_claim answered now key r ≡ after_claim redis now key r
  unfolding try_after_claim try_read after_claim
  claim_answered now key (true, s) = refl
  claim_answered now key (false, s) = refl

  -- Where both commands are answered, this is the middleware.
  pub try_claim_answered :
      (now : ℕ) (path : Text) (c : ℕ) (cs : Text) (s : Store)
      → try_claim answered answered now (redis_key path (c ∷ cs)) s
        ≡ idempotency_middleware redis now path (some (c ∷ cs)) s
  unfolding try_claim idempotency_middleware
  try_claim_answered now path c cs s =
      claim_answered now (redis_key path (c ∷ cs))
        (set_nx now (redis_key path (c ∷ cs)) processing idempotency_life s)

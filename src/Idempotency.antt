-- ===== src/Idempotency.antt =====
-- src/middleware/idempotency.ts: the middleware before the handler of POST /api/enquiry, and the
-- `res.json` that it puts in place. The handler and the error handler behind it are an argument.
pub mod Replay
pub mod Faulty
pub mod AtMostOnce
mod Tests
use property_platform_backen.Prelude.{
  ℕ, ◌*◌, Text, codes, Bool, true, false, Option, none, some, List, [], ◌∷◌, ◌++◌,
}
use property_platform_backen.Json.{Json}
use property_platform_backen.Errors.{Thrown, Response, conflict_error, other_error}
use property_platform_backen.Redis.{Redis}

-- The JSON that a key holds.
pub data Marker : Type 0 where
  processing : Marker
  completed : ℕ → Json → Marker

-- 24 * 60 * 60 seconds
abbrev pub idempotency_life : ℕ
idempotency_life = 86400 * 1000

-- How the middleware ends: it calls `next`, with or without a key to record the response under, it
-- replays a response, or its promise is rejected.
pub data Verdict : Type 0 where
  next_plain : Verdict
  next_claimed : Text → Verdict
  replay : Response → Verdict
  rejected : Thrown → Verdict

unfoldable pub redis_key : Text → Text → Text
redis_key path key = codes "idempotency:" ++ path ++ codes ":" ++ key

-- What a key that could not be claimed leads to. A key that has expired since reads as null, of
-- which `statusCode` is then read.
unfoldable pub not_claimed : Option Marker → Verdict
not_claimed none = rejected (other_error none none (codes "Cannot read properties of null"))
not_claimed (some processing) =
    rejected
      (conflict_error (codes "A request with this Idempotency-Key is already being processed."))
not_claimed (some (completed status body)) = replay (record { status = status; body = body })

-- What the client gets: a response, or nothing if the promise is rejected.
pub data Outcome : Type 0 where
  answered : Response → Outcome
  failed : Thrown → Outcome

module _ (redis : Redis Marker) where
  open redis use {Store, get, set_ex, set_nx}

  unfoldable pub after_claim : ℕ → Text → Bool × Store → Verdict × Store
  after_claim now key (true, s) = (next_claimed key, s)
  after_claim now key (false, s) = (not_claimed (get now key s), s)

  -- The middleware at the time `now`. An empty header counts as none.
  unfoldable pub idempotency_middleware : ℕ → Text → Option Text → Store → Verdict × Store
  unfolding after_claim
  idempotency_middleware now path none s = (next_plain, s)
  idempotency_middleware now path (some []) s = (next_plain, s)
  idempotency_middleware now path (some (c ∷ cs)) s =
      after_claim now (redis_key path (c ∷ cs))
        (set_nx now (redis_key path (c ∷ cs)) processing idempotency_life s)

  -- `res.json(body)` of a claimed request, at the time `now`.
  unfoldable pub record_response : ℕ → Text → Response → Store → Store
  record_response now key res s = set_ex now key (completed res.status res.body) idempotency_life s

  module _ {S : Type 0} (handler : S → Response × S) where
    -- What follows the middleware; the handler responds at the time `done`.
    unfoldable pub proceed : ℕ → Verdict → Store → S → Outcome × Store × S
    proceed done next_plain s a = let (res, a') = handler a in (answered res, s, a')
    proceed done (next_claimed key) s a =
        let (res, a') = handler a in (answered res, record_response done key res s, a')
    proceed done (replay res) s a = (answered res, s, a)
    proceed done (rejected e) s a = (failed e, s, a)

    -- One request, from its arrival at `now` to the response at `done`.
    unfoldable pub serve : ℕ → ℕ → Text → Option Text → Store → S → Outcome × Store × S
    serve now done path key s a =
        let (verdict, s') = idempotency_middleware now path key s in proceed done verdict s' a

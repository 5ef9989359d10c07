-- ===== src/Idempotency/Tests.antt =====
-- Instances of the theorems on idempotency keys, over the store in memory.
use property_platform_backen.Prelude.{ℕ, ◌+◌, ◌≤◌, ◌≡◌, refl, codes, some, List, [], ◌∷◌, arith}
use property_platform_backen.Json.{num}
use property_platform_backen.Errors.{Response, conflict_error}
use property_platform_backen.Redis.Memory.{Cell, memory, look_up}
use property_platform_backen.Idempotency.{Marker, idempotency_middleware, serve, failed}
use property_platform_backen.Idempotency
use property_platform_backen.Database.{answered, refused, unacked}
use property_platform_backen.Idempotency.Faulty.{KeyEvent, arrived, responded, all_happen}
use property_platform_backen.Idempotency.AtMostOnce.{at_most_once}
use property_platform_backen.Idempotency.Replay.{serve_once}

abbrev empty : List (Cell Marker)
empty = []

-- It responds with the number of its runs.
abbrev counting : ℕ → Response × ℕ
counting n = (record { status = 201; body = num n }, n + 1)

serve_once_example :
    let claimed =
      (idempotency_middleware
        (memory Marker)
        0
        (codes "/api/enquiry")
        (some (b'k' ∷ []))
        empty).1 in
    let (reply, s', a') =
      serve (memory Marker) counting 0 10 (codes "/api/enquiry") (some (b'k' ∷ [])) empty 0 in
    (reply ≡ Idempotency.answered (counting 0).0)
    × (a' ≡ (counting 0).1)
    × (serve (memory Marker) counting 5 40 (codes "/api/enquiry") (some (b'k' ∷ [])) claimed 1 ≡ (
      failed (
          conflict_error (codes "A request with this Idempotency-Key is already being processed.")),
      claimed,
      1,
    ))
    × (serve (memory Marker) counting 30 40 (codes "/api/enquiry") (some (b'k' ∷ [])) s' 1
        ≡ (Idempotency.answered (counting 0).0, s', 1))
unfolding look_up
serve_once_example =
    serve_once (memory Marker) (codes "/api/enquiry") b'k' [] counting 0 10 5 30 40 empty 0 1 refl
      (omega arith) (omega arith) (omega arith) (omega arith)

-- The first claim fails, and so does the recording of the response to the next request.
abbrev mishaps : List (KeyEvent (memory Marker))
mishaps =
    arrived 5 refused answered
    ∷ arrived 10 answered answered
    ∷ responded 20 (counting 0).0 refused
    ∷ arrived 30 answered unacked
    ∷ []

at_most_once_example :
    (all_happen (memory Marker) (b'k' ∷ []) mishaps (record { store = empty; runs = 0 })).runs ≤ 1
at_most_once_example = at_most_once (memory Marker) (b'k' ∷ []) 0 mishaps empty (
    (
      omega arith,
      omega arith,
      (omega arith, omega arith, (omega arith, omega arith, (omega arith, omega arith, tt))),
    ))

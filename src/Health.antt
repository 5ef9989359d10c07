-- ===== src/Health.antt =====
-- The readiness check of src/routes/health.routes.ts, and `verifyDbConnection` of src/config/db.ts.
pub mod Ready
mod Tests
use property_platform_backen.Prelude.{codes, Bool, true, false, ◌&&◌, if◌then◌else◌, Text}
use property_platform_backen.Json.{Json, str, obj, end, field}
use property_platform_backen.Errors.{Response}
use property_platform_backen.Effects.{Result, ok, err, Exec, pure, continue, ◌>>◌}
use property_platform_backen.Database.{World, call}
use property_platform_backen.Transaction.{get_connection, release}

-- Whether a call was answered: the `try` around it.
abbrev pub is_ok : Result (Unit {0}) → Bool
is_ok (ok u) = true
is_ok (err e) = false

abbrev pub check_word : Bool → Text
check_word healthy = if healthy then codes "ok" else codes "error"

-- Both checks as `database` and `redis`.
unfoldable pub ready_response : Bool → Bool → Response
ready_response database redis =
    let healthy = database && redis in
    record {
      status = if healthy then 200 else 503;
      body = obj (
          field (codes "status") (str (if healthy then codes "ready" else codes "not_ready")) (
            field (codes "checks")
              (obj (
                field (codes "database") (str (check_word database))
                  (field (codes "redis") (str (check_word redis)) end)))
              end));
    }

-- GET /health/ready: `SELECT 1`, then PING.
unfoldable pub readiness : World → Response × World
readiness w =
    let (database, w') = call (pure tt) w in
    let (redis, w'') = call (pure tt) w' in (ready_response (is_ok database) (is_ok redis), w'')

-- The `finally` of `verifyDbConnection`.
abbrev pub let_go : Result (Unit {0}) × World → Result (Unit {0}) × World
let_go (r, w) = (r, release w)

unfoldable pub verify_db_connection : Exec World Unit
unfolding continue get_connection
verify_db_connection = do get_connection; λ w. let_go (call (pure tt) w)

-- ===== src/Transaction.antt =====
-- `withTransaction` of src/config/db.ts, over the calls of a MySQL connection. A session that
-- ends with its transaction open has it rolled back by the server, so a ROLLBACK restores the
-- tables also where its answer is lost.
pub mod Atomic
pub mod Calm
pub mod Sound
mod Tests
use property_platform_backen.Prelude.{◌+◌, ◌-◌, Option, none, some}
use property_platform_backen.Errors.{Thrown}
use property_platform_backen.Effects.{
  Result, Exec, pure, raise, catch, continue, ◌>>=◌, ◌>>◌, modify,
}
use property_platform_backen.Database.{World, Tables, call}

-- `pool.getConnection()`: a connection is on loan only if the call is answered.
unfoldable pub get_connection : Exec World Unit
unfolding continue
get_connection = do call (pure tt); modify (λ w. record w { leased = w.leased + 1 })

abbrev pub snapshot : World → World
snapshot w = record w { saved = some w.tables }

unfoldable pub begin_transaction : Exec World Unit
begin_transaction = call (modify snapshot)

unfoldable pub commit : Exec World Unit
commit = call (modify (λ w. record w { saved = none }))

restore_to : Option Tables → World → World
restore_to none w = w
restore_to (some t) w = record w { tables = t; saved = none }

unfoldable pub rollback : Exec World Unit
unfolding restore_to
rollback w = call (pure tt) (restore_to w.saved w)

abbrev pub release : World → World
release w = record w { leased = w.leased - 1 }

-- `catch (err) { await conn.rollback(); throw err; }`
unfoldable pub abort : {A : Type 0} → Thrown → Exec World A
unfolding continue rollback
abort e = do rollback; raise e

module _ {A : Type 0} where
  attempt : Exec World A → Exec World A
  unfolding continue
  attempt fn = do begin_transaction; result ← fn; commit; pure result

  -- The `catch` and the `finally`.
  finish : Result A × World → Result A × World
  unfolding catch abort
  finish r = let (result, w) = catch abort r in (result, release w)

  unfoldable pub with_transaction : Exec World A → Exec World A
  unfolding continue attempt finish get_connection begin_transaction commit
  with_transaction fn = do get_connection; λ w. finish (attempt fn w)

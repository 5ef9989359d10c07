-- ===== src/Server.antt =====
-- src/server.ts: the start of the process, and how it ends on a signal. The HTTP server calls the
-- callback of `close` when it accepts no connection any more and none is left, as Node documents.
-- Times are in milliseconds; a second signal sets a second timer, which is later than the first.
pub mod Shutdown
mod Tests
use property_platform_backen.Prelude.{
  ℕ, ◌+◌, ◌-◌, Bool, true, false, not, ◌&&◌, Option, none, some, List, [], ◌∷◌, leb, ◌==◌,
  if◌then◌else◌,
}
use property_platform_backen.Effects.{Result, ok, err}
use property_platform_backen.Database.{World}
use property_platform_backen.Health.{verify_db_connection}

-- Whether connections are accepted and how many there are, when the first timer ends, whether
-- `pool.end()` has been called, whether Redis is connected, and the code of `process.exit`.
pub record Server : Type 0 where
  pub accepting : Bool
  pub connections : ℕ
  pub deadline : Option ℕ
  pub ending : Bool
  pub redis_open : Bool
  pub exit : Option ℕ
  pub time : ℕ

-- What happens to a process: a connection comes or ends, a signal arrives, `pool.end()` returns or
-- throws, an exception is not caught, or time passes.
pub data Event : Type 0 where
  connected disconnected signalled uncaught : Event
  pool_ended : Bool → Event
  ticked : ℕ → Event

-- The callback of `server.close`, where it is due.
unfoldable pub close_if_drained : Server → Server
close_if_drained s = if not s.accepting && s.connections == 0 then record s { ending = true } else s

-- The first of the timers is the one that counts.
abbrev pub first_timer : Option ℕ → ℕ → Option ℕ
first_timer none t = some t
first_timer (some u) t = some u

-- `shutdown`
unfoldable pub shutdown : Server → Server
shutdown s =
    close_if_drained
      (record s { accepting = false; deadline = first_timer s.deadline (s.time + 10000) })

-- What follows `await pool.end()`: Redis is disconnected only if it returned, and the process ends.
unfoldable pub after_pool : Bool → Server → Server
after_pool returned s =
    if s.ending then record s { redis_open = s.redis_open && not returned; exit = some 0 } else s

-- The timer, if it is over.
fire : Option ℕ → Server → Server
fire none s = s
fire (some t) s = if leb t s.time then record s { exit = some 1 } else s

handle : Event → Server → Server
unfolding fire
handle connected s = if s.accepting then record s { connections = s.connections + 1 } else s
handle disconnected s = close_if_drained (record s { connections = s.connections - 1 })
handle signalled s = shutdown s
handle uncaught s = record s { exit = some 1 }
handle (pool_ended returned) s = after_pool returned s
handle (ticked t) s = fire s.deadline (record s { time = t })

-- A process that has ended does nothing.
unless_ended : Option ℕ → Event → Server → Server
unfolding handle
unless_ended none event s = handle event s
unless_ended (some code) event s = s

unfoldable pub step : Event → Server → Server
unfolding unless_ended
step event s = unless_ended s.exit event s

unfoldable pub run : List Event → Server → Server
run [] s = s
run (event ∷ rest) s = run rest (step event s)

abbrev pub started : ℕ → Option ℕ → Server
started now exit = record {
  accepting = true;
  connections = 0;
  deadline = none;
  ending = false;
  redis_open = true;
  exit = exit;
  time = now;
}

-- How `bootstrap` ends: the server listens, or the process exits with 1.
listen_or_exit : Result (Unit {0}) × World → Server × World
listen_or_exit (ok u, w) = (started w.now none, w)
listen_or_exit (err e, w) = (record (started w.now (some 1)) { accepting = false }, w)

unfoldable pub bootstrap : World → Server × World
unfolding listen_or_exit
bootstrap w = listen_or_exit (verify_db_connection w)

-- ===== src/Server/Tests.antt =====
-- An instance of the theorem on the end of a process, and runs of it.
use property_platform_backen.Prelude.{◌≡◌, refl, true, false, none, some, [], ◌∷◌, arith}
use property_platform_backen.Server.{
  Server, disconnected, signalled, pool_ended, ticked, started, run,
}
use property_platform_backen.Server.Shutdown.{has_ended, shutdown_ends}

-- One connection is open.
abbrev busy : Server
busy = record (started 100 none) { connections = 1 }

shutdown_ends_example :
    let final = run (signalled ∷ disconnected ∷ pool_ended true ∷ ticked 20000 ∷ []) busy in
    (has_ended final.exit ≡ true)
    × (final.exit ≡ some 0 → (final.accepting ≡ false) × (final.connections ≡ 0))
shutdown_ends_example =
    shutdown_ends (disconnected ∷ pool_ended true ∷ []) [] 20000 busy refl refl refl (omega arith)

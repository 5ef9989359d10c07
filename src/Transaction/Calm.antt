-- ===== src/Transaction/Calm.antt =====
-- A transaction whose calls are all answered.
use property_platform_backen.Prelude.{◌+◌, ◌≡◌, ap, some, none, [], arith}
use property_platform_backen.Errors.{Thrown}
use property_platform_backen.Effects.{ok, err, Exec}
use property_platform_backen.Database.{World, call}
use property_platform_backen.Transaction.{rollback, abort, with_transaction}
use property_platform_backen.Transaction.Atomic.{prepared}

-- A state between requests, in which every coming call is answered.
abbrev pub calm : World → World
calm w = record w { saved = none; faults = [] }

module _ {A : Type 0} (fn : Exec World A) (w : World) where
  pub with_transaction_returns :
      (a : A) (u : World)
      → u.leased ≡ w.leased + 1
      → fn (prepared [] w) ≡ (ok a, record u { faults = [] })
      → with_transaction fn (calm w)
        ≡ (ok a, record u { saved = none; leased = w.leased; faults = [] })
  unfolding with_transaction call
  with_transaction_returns a u loan h =
      rw h (ap (λ l. (ok a, record u { saved = none; leased = l; faults = [] })) (omega arith))

  pub with_transaction_throws :
      (e : Thrown) (u : World)
      → u.leased ≡ w.leased + 1
      → fn (prepared [] w) ≡ (err e, record u { saved = some w.tables; faults = [] })
      → with_transaction fn (calm w)
        ≡ (err e, record u { tables = w.tables; saved = none; leased = w.leased; faults = [] })
  unfolding with_transaction call abort rollback
  with_transaction_throws e u loan h = rw h (
      ap (λ l. (err e, record u { tables = w.tables; saved = none; leased = l; faults = [] }))
        (omega arith))

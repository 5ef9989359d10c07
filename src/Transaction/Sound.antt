-- ===== src/Transaction/Sound.antt =====
-- A transaction keeps the database sound.
use property_platform_backen.Prelude.{Option, none, some}
use property_platform_backen.Errors.{Thrown}
use property_platform_backen.Effects.{Result, Exec, pure, modify}
use property_platform_backen.Effects.Keeps.{Keeps, Keeps-pure, Keeps-raise, Keeps-bind, catch_inv}
use property_platform_backen.Database.{World, Tables, call}
use property_platform_backen.Database.Invariant.{IsSound, SavedIsWellFormed, call-IsSound}
use property_platform_backen.Transaction.{
  get_connection, begin_transaction, commit, rollback, abort, attempt, finish, with_transaction,
  restore_to, snapshot,
}

get_connection-IsSound : Keeps IsSound get_connection
unfolding get_connection
get_connection-IsSound =
    Keeps-bind (call (pure tt)) _ (call-IsSound (pure tt) (Keeps-pure tt))
      (λ _. record { at = λ w h. record { now_sound = h.now_sound; saved_sound = h.saved_sound } })

begin_transaction-IsSound : Keeps IsSound begin_transaction
unfolding begin_transaction
begin_transaction-IsSound =
    call-IsSound (modify snapshot)
      (record { at = λ w h. record { now_sound = h.now_sound; saved_sound = h.now_sound } })

commit-IsSound : Keeps IsSound commit
unfolding commit
commit-IsSound =
    call-IsSound (modify (λ w. record w { saved = none }))
      (record { at = λ w h. record { now_sound = h.now_sound; saved_sound = tt } })

restored-IsSound :
    (s : Option Tables) (w : World)
    → SavedIsWellFormed s w.next_enquiry_id
    → IsSound w
    → IsSound (restore_to s w)
unfolding restore_to
restored-IsSound none w k h = h
restored-IsSound (some t) w k h = record { now_sound = k; saved_sound = tt }

rollback-IsSound : Keeps IsSound rollback
unfolding rollback
rollback-IsSound = record {
  at = λ w h.
      (call-IsSound (pure tt) (Keeps-pure tt)).at (restore_to w.saved w)
        (restored-IsSound w.saved w h.saved_sound h);
}

module _ {A : Type 0} (fn : Exec World A) (k : Keeps IsSound fn) where
  abort-IsSound : (e : Thrown) → Keeps IsSound (abort {A = A} e)
  unfolding abort
  abort-IsSound e = Keeps-bind rollback _ rollback-IsSound (λ _. Keeps-raise e)

  attempt-IsSound : Keeps IsSound (attempt fn)
  unfolding attempt
  attempt-IsSound =
      Keeps-bind begin_transaction _ begin_transaction-IsSound
        (λ _. Keeps-bind fn _ k (λ a. Keeps-bind commit _ commit-IsSound (λ _. Keeps-pure a)))

  finish-IsSound : (r : Result A × World) → IsSound r.1 → IsSound (finish r).1
  unfolding finish
  finish-IsSound r h =
      let s = catch_inv {Inv = IsSound} abort r h abort-IsSound in
      record { now_sound = s.now_sound; saved_sound = s.saved_sound }

  -- A transaction keeps the database sound under any faults, if its function does.
  pub with_transaction-IsSound : Keeps IsSound (with_transaction fn)
  unfolding with_transaction
  with_transaction-IsSound =
      Keeps-bind get_connection _ get_connection-IsSound
        (λ _. record { at = λ w h. finish-IsSound (attempt fn w) (attempt-IsSound.at w h) })

-- ===== src/Transaction/Atomic.antt =====
-- A transaction is all or nothing, and its connection goes back to the pool.
use property_platform_backen.Prelude.{
  ◌+◌, ◌-◌, ◌≡◌, refl, ◌∙◌, ap, ◌⊎◌, inl, inr, none, some, List, arith,
}
use property_platform_backen.Errors.{Thrown}
use property_platform_backen.Effects.{Result, ok, err, Exec, pure, catch, continue, ◌>>=◌, ◌>>◌}
use property_platform_backen.Database.{World, Tables, Fault, lost_connection}
use property_platform_backen.Database.Faults.{at, call_cases}
use property_platform_backen.Transaction.{
  get_connection, begin_transaction, commit, rollback, abort, attempt, finish, with_transaction,
  snapshot, restore_to,
}

-- The tables that a rollback would leave.
abbrev base : World → Tables
base w = elim w.saved [ none ↦ w.tables | some t ↦ t ]

-- After `abort` there is an error, and the tables are those of the last snapshot.
abbrev Aborted : {A : Type 0} → World → Result A × World → Type 0
Aborted w (r, w') =
    ((e : Thrown) × (r ≡ err e)) × (w'.tables ≡ base w) × (w'.saved ≡ none) × (w'.leased ≡ w.leased)

-- The state that the function of a transaction starts from.
abbrev pub prepared : List Fault → World → World
prepared fs w = record w { saved = some w.tables; leased = w.leased + 1; faults = fs }

restored :
    (w : World)
    → ((restore_to w.saved w).tables ≡ base w)
      × ((restore_to w.saved w).saved ≡ none)
      × ((restore_to w.saved w).leased ≡ w.leased)
unfolding restore_to
restored w = ground arith

module _ {A : Type 0} where
  abort-Aborted : (e : Thrown) (w : World) → Aborted {A = A} w (abort e w)
  unfolding abort rollback
  abort-Aborted e w =
      let (t, s, l) = restored w in
      call_cases (λ r. Aborted {A = A} w (continue (λ _ v. (err e, v)) r)) (pure tt)
        (restore_to w.saved w) (λ gs. ((e, refl), t, s, l))
        (λ gs. ((lost_connection, refl), t, s, l)) (λ gs. ((lost_connection, refl), t, s, l))

module _ {A : Type 0} where
  -- How a transaction of `fn` from `w` can end: with an error and the tables as they were, or with
  -- the tables, the counters and the jobs that `fn` left when it returned `a`. Then the result is
  -- `a`, or an error because the answer to COMMIT was lost.
  pub record Committed (fn : Exec World A) (w : World) (end : Result A × World) : Type 0 where
    pub before : List Fault
    pub after : List Fault
    pub result : A
    pub returned : (fn (prepared before w)).0 ≡ ok result
    pub final : end.1 ≡ record (fn (prepared before w)).1 {
      saved = none;
      leased = (fn (prepared before w)).1.leased - 1;
      faults = after;
    }
    pub lease : end.1.leased ≡ w.leased
    pub reply : (end.0 ≡ ok result) ⊎ (end.0 ≡ err lost_connection)

  -- `fn` opens or ends no transaction and borrows no connection.
  pub record IsLocal (fn : Exec World A) : Type 0 where
    pub saved : (w : World) → (fn w).1.saved ≡ w.saved
    pub leased : (w : World) → (fn w).1.leased ≡ w.leased

  pub record RolledBack (w : World) (end : Result A × World) : Type 0 where
    pub failure : Thrown
    pub failed : end.0 ≡ err failure
    pub closed : end.1.saved ≡ none
    pub same : end.1.tables ≡ w.tables
    pub lease : end.1.leased ≡ w.leased

  abort-closed :
      (u : World)
      → (gs : List Fault) × (abort {A = A} lost_connection (record u { saved = none })
          ≡ (err lost_connection, record u { saved = none; faults = gs }))
  unfolding abort rollback restore_to continue
  abort-closed u =
      call_cases
        (λ r.
          (gs : List Fault) × (continue {B = A} (λ _ v. (err lost_connection, v)) r
            ≡ (err lost_connection, record u { saved = none; faults = gs })))
        (pure tt) (record u { saved = none }) (λ gs. (gs, refl)) (λ gs. (gs, refl))
        (λ gs. (gs, refl))

  abbrev pub Settled : (Exec World A) → World → Result A × World → Type 0
  Settled fn w end = RolledBack w end ⊎ Committed fn w end

  finish-err :
      (w : World) (e : Thrown) (u : World)
      → (base u ≡ w.tables) × (u.leased ≡ w.leased + 1)
      → RolledBack w (finish (err e, u))
  unfolding finish catch
  finish-err w e u h =
      let ((failure, failed), tables, saved, leased) = abort-Aborted {A = A} e u in
      record {
        failure = failure;
        failed = failed;
        closed = saved;
        same = tables ∙ h.0;
        lease = omega arith;
      }

  module _ (fn : Exec World A) (w : World) (keeps : IsLocal fn) where
    saved_by :
        (fs : List Fault) {r : Result A} (u : World)
        → fn (prepared fs w) ≡ (r, u)
        → (base u ≡ w.tables) × (u.leased ≡ w.leased + 1)
    saved_by fs u e =
        let same : u.saved ≡ some w.tables = rw e at (keeps.saved (prepared fs w)) in
        let loan : u.leased ≡ w.leased + 1 = rw e at (keeps.leased (prepared fs w)) in
        (ground arith, loan)

    -- `COMMIT` after `fn` returned `a` in the state `u`.
    committed :
        (fs : List Fault) (a : A) (u : World)
        → fn (prepared fs w) ≡ (ok a, u)
        → Settled fn w (finish ((commit >> pure a) u))
    unfolding commit continue finish catch
    committed fs a u e =
        call_cases (λ r. Settled fn w (finish (continue (λ _ v. (ok a, v)) r)))
          (λ v. (ok tt, record v { saved = none })) u
          (λ gs. inr (record {
            before = fs;
            after = gs;
            result = a;
            returned = ap (λ r. r.0) e;
            final = rw e;
            lease = omega (arith, (saved_by fs u e).1);
            reply = inl refl;
          }))
          (λ gs. inl (finish-err w lost_connection (at gs u) (saved_by fs u e)))
          (λ gs.
            let (hs, same) = abort-closed (at gs u) in
            inr (record {
              before = fs;
              after = hs;
              result = a;
              returned = ap (λ r. r.0) e;
              final = rw (e, same);
              lease = rw same (omega (arith, (saved_by fs u e).1));
              reply = inr (ap (λ r. r.0) same);
            }))

    -- `fn` and `COMMIT`, where `fn` ends with `r`.
    worked :
        (fs : List Fault) (r : Result A × World)
        → fn (prepared fs w) ≡ r
        → Settled fn w (finish (continue (λ a. commit >> pure a) r))
    unfolding continue
    worked fs (ok a, u) e = committed fs a u e
    worked fs (err x, u) e = inl (finish-err w x u (saved_by fs u e))

    -- The whole of the `try`, on a connection that is on loan.
    tried :
        (fs : List Fault)
        → w.saved ≡ none
        → Settled fn w (finish (attempt fn (record w { leased = w.leased + 1; faults = fs })))
    unfolding attempt begin_transaction continue
    tried fs n =
        call_cases (λ r. Settled fn w (finish (continue (λ _. fn >>= λ a. commit >> pure a) r)))
          (λ v. (ok tt, snapshot v)) (record w { leased = w.leased + 1; faults = fs })
          (λ gs. worked gs (fn (prepared gs w)) refl)
          (λ gs. inl (
            finish-err w lost_connection (record w { leased = w.leased + 1; faults = gs })
              (ground arith, refl)))
          (λ gs. inl (finish-err w lost_connection (prepared gs w) (refl, refl)))

    -- Under any faults, a transaction is rolled back or committed as a whole, and its end leaves
    -- no transaction open.
    pub with_transaction-Settled : w.saved ≡ none → Settled fn w (with_transaction fn w)
    unfolding with_transaction get_connection continue
    with_transaction-Settled n =
        call_cases
          (λ r. Settled fn w (
            continue (λ _ v. finish (attempt fn v))
              (continue (λ _ v. (ok tt, record v { leased = v.leased + 1 })) r)))
          (pure tt) w (λ gs. tried gs n)
          (λ gs. inl (record {
            failure = lost_connection;
            failed = refl;
            closed = n;
            same = refl;
            lease = refl;
          }))
          (λ gs. inl (record {
            failure = lost_connection;
            failed = refl;
            closed = n;
            same = refl;
            lease = refl;
          }))

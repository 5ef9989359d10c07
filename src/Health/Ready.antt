-- ===== src/Health/Ready.antt =====
-- What the checks find, and what they leave alone.
use property_platform_backen.Prelude.{
  ◌+◌, ◌≡◌, refl, ◌&&◌, if◌then◌else◌, arith, inl, inr, Bool-cases,
}
use property_platform_backen.Effects.{continue}
use property_platform_backen.Database.{World}
use property_platform_backen.Database.Faults.{at, is_up, later, call-pure}
use property_platform_backen.Transaction.{get_connection}
use property_platform_backen.Health.{is_ok, readiness, ready_response, verify_db_connection}

-- The check of readiness never throws. It reports MySQL by the next call and Redis by the one
-- after it, responds with 200 if both are answered and else with 503, and changes nothing.
pub readiness_cases :
    (w : World)
    → (readiness w
        ≡ (ready_response (is_up w.faults) (is_up (later w.faults)), at (later (later w.faults)) w))
      × ((readiness w).0.status ≡ (if is_up w.faults && is_up (later w.faults) then 200 else 503))
unfolding readiness ready_response
readiness_cases w =
    rw (call-pure w.faults w, call-pure (later w.faults) w)
      (elim (Bool-cases (is_up w.faults)) [
        | inl up ↦ elim (Bool-cases (is_up (later w.faults))) [
          | inl up' ↦ rw (up, up') (refl, refl)
          | inr down' ↦ rw (up, down') (refl, refl)
        ]
        | inr down ↦ elim (Bool-cases (is_up (later w.faults))) [
          | inl up' ↦ rw (down, up') (refl, refl)
          | inr down' ↦ rw (down, down') (refl, refl)
        ]
      ])

-- The check of the connection at the start returns just if both of its calls are answered, and
-- whichever fails, its connection goes back to the pool and the tables stay as they are.
pub verify_cases :
    (w : World)
    → let (r, u) = verify_db_connection w in
      (is_ok r ≡ (is_up w.faults && is_up (later w.faults)))
      × ((u.leased ≡ w.leased) × (u.tables ≡ w.tables))
unfolding verify_db_connection continue get_connection
verify_cases w = rw (call-pure w.faults w) (elim (Bool-cases (is_up w.faults)) [
  | inl up ↦ rw up (
      rw (call-pure (later w.faults) (record w { leased = w.leased + 1 }))
        (elim (Bool-cases (is_up (later w.faults))) [
          | inl up' ↦ rw up' (refl, (omega arith, refl))
          | inr down' ↦ rw down' (refl, (omega arith, refl))
        ]))
  | inr down ↦ rw down (refl, (refl, refl))
])

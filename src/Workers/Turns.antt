-- ===== src/Workers/Turns.antt =====
-- How long a job can go on.
use property_platform_backen.Prelude.{
  ℕ, ◌+◌, ◌-◌, ◌*◌, ◌≤◌, ◌<◌, ◌≡◌, refl, Text, Bool, true, false, List, [], ◌∷◌, leb, ltb,
  if◌then◌else◌, Bool-cases, inl, inr, arith,
}
use property_platform_backen.Effects.{Result, ok, err, Exec}
use property_platform_backen.Database.{World}
use property_platform_backen.Workers.{
  JobState, waiting, delayed, done, spent, buried, dropped, max_attempts, after_attempt,
  after_letter, send_to_dead_letter, turn,
}

module _ {A : Type 0} where
  -- The turns that are left at most.
  abbrev pub rank : JobState A → ℕ
  rank (waiting made) = 2 * (max_attempts - made)
  rank (delayed made due) = 2 * (max_attempts - made) + 1
  rank (spent reason) = 1
  rank (done a) = 0
  rank buried = 0
  rank dropped = 0

  -- The job is done, or is in the dead-letter queue, or has failed to get there.
  abbrev pub IsOver : JobState A → Type 0
  IsOver (done a) = Unit
  IsOver buried = Unit
  IsOver dropped = Unit
  IsOver _ = ⊥

  -- An attempt is left.
  abbrev pub HasTries : JobState A → Type 0
  HasTries (waiting made) = made < max_attempts
  HasTries (delayed made due) = made < max_attempts
  HasTries _ = Unit

  -- A turn would do something.
  abbrev pub is_ready : JobState A → World → Bool
  is_ready (waiting made) w = true
  is_ready (delayed made due) w = leb due w.now
  is_ready (spent reason) w = true
  is_ready _ w = false

module _ {A : Type 0} (process : ℕ → Exec World A) (queue job_id : Text) where
  -- The turns of the job, before each of which the rest of the system changes the state.
  unfoldable pub run : List (World → World) → JobState A × World → JobState A × World
  run [] (j, w) = (j, w)
  run (elsewhere ∷ rest) (j, w) = run rest (turn process queue job_id j (elsewhere w))

  -- How many of these turns do something.
  unfoldable pub effective : List (World → World) → JobState A × World → ℕ
  effective [] (j, w) = 0
  effective (elsewhere ∷ rest) (j, w) =
      (if is_ready j (elsewhere w) then 1 else 0)
      + effective rest (turn process queue job_id j (elsewhere w))

  after_attempt_falls :
      (made : ℕ) (r : Result A × World)
      → made < max_attempts
      → HasTries (after_attempt process queue job_id made r).0
        × (rank (after_attempt process queue job_id made r).0 + 1 ≤ 2 * (max_attempts - made))
  unfolding after_attempt
  after_attempt_falls made (ok a, w) h = (tt, omega arith)
  after_attempt_falls made (err e, w) h = elim (Bool-cases (ltb (made + 1) max_attempts)) [
    | inl more ↦ rw more (ground arith, ground arith)
    | inr last ↦ rw last (tt, omega arith)
  ]

  after_letter_falls :
      (r : Result (Unit {0}) × World)
      → HasTries (after_letter process queue job_id r).0
        × (rank (after_letter process queue job_id r).0 ≡ 0)
  unfolding after_letter
  after_letter_falls (ok u, w) = (tt, refl)
  after_letter_falls (err e, w) = (tt, refl)

  -- A turn that does something uses up one of those that are left.
  turn_falls :
      (j : JobState A) (w : World)
      → HasTries j
      → HasTries (turn process queue job_id j w).0
        × ((if is_ready j w then 1 else 0) + rank (turn process queue job_id j w).0 ≤ rank j)
  unfolding turn
  turn_falls (waiting made) w h =
      let (tries, falls) = after_attempt_falls made (process made w) h in (tries, omega arith)
  turn_falls (delayed made due) w h = elim (Bool-cases (leb due w.now)) [
    | inl due_now ↦ rw due_now (h, omega arith)
    | inr early ↦ rw early (h, omega arith)
  ]
  turn_falls (spent reason) w h =
      let (tries, falls) = after_letter_falls (send_to_dead_letter queue job_id reason w) in
      (tries, omega arith)
  turn_falls (done a) w h = (tt, omega arith)
  turn_falls buried w h = (tt, omega arith)
  turn_falls dropped w h = (tt, omega arith)

  run_falls :
      (turns : List (World → World)) (j : JobState A) (w : World)
      → HasTries j
      → HasTries (run turns (j, w)).0
        × (effective turns (j, w) + rank (run turns (j, w)).0 ≤ rank j)
  unfolding run effective
  run_falls [] j w h = (h, omega arith)
  run_falls (elsewhere ∷ rest) j w h =
      let (tries, falls) = turn_falls j (elsewhere w) h in
      let next = turn process queue job_id j (elsewhere w) in
      let (kept, bound) = run_falls rest next.0 next.1 tries in (kept, omega arith)

-- No more than six turns of a new job do something.
pub effective_le :
    {A : Type 0} (process : ℕ → Exec World A) (queue job_id : Text) (turns : List (World → World))
    (w : World)
    → effective process queue job_id turns (waiting 0, w) ≤ 6
effective_le process queue job_id turns w =
    let (tries, bound) = run_falls process queue job_id turns (waiting 0) w (omega arith) in
    omega arith

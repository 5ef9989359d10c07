-- ===== src/Concurrent/Unique.antt =====
-- What holds of the requests in every state that they reach, in whatever order their calls come.
use property_platform_backen.Prelude.{
  ℕ, ◌+◌, ◌≤◌, ◌≡◌, ◌≢◌, some, arith, inl, inr, if◌then◌else◌, ◌==◌, Bool-cases,
}
use property_platform_backen.Database.{World, Enquiry, lost_connection}
use property_platform_backen.Database.Invariant.{HasDistinctFingerprints}
use property_platform_backen.Concurrent.{
  Requests, Pc, ready, checked, inserted, stored, queued, done, failed, System, update, wanted,
  Move, find, miss, insert, repeat, overflow, commit, enqueue, finish, Loss, lost_ready,
  lost_insert, lost_before_insert, lost_before_commit, lost_commit, lost_before_enqueue,
  lost_enqueue, lost_before_email, lost_email, moved, lost, waited, Reaches, here, next, begun,
}
use property_platform_backen.Concurrent.Invariant.{row_held}
use property_platform_backen.Concurrent.Steps.{Reaches-IsExclusive, begun-IsExclusive}

-- The number of calls that a request has made.
abbrev pub rank : Pc → ℕ
rank ready = 0
rank checked = 1
rank (inserted e) = 2
rank (stored e) = 3
rank (queued e) = 4
rank (done e) = 5
rank (failed t) = 5

module _ (r : Requests) where
  -- The steps of a run that the request `i` makes.
  abbrev pub steps_of : {s t : System} → ℕ → Reaches r s t → ℕ
  steps_of i here = 0
  steps_of i (next run (moved j m)) = (if j == i then 1 else 0) + steps_of i run
  steps_of i (next run (lost j l)) = (if j == i then 1 else 0) + steps_of i run
  steps_of i (next run (waited t)) = steps_of i run

  module _ (s : System) (i : ℕ) where
    rank-Move : {w : World} {p : Pc} → Move r s i w p → rank (s.pc i) + 1 ≤ rank p
    rank-Move (find at f) = rw at (omega arith)
    rank-Move (miss at f) = rw at (omega arith)
    rank-Move (insert at fit free idle) = rw at (omega arith)
    rank-Move (repeat at fit taken) = rw at (omega arith)
    rank-Move (overflow at long) = rw at (omega arith)
    rank-Move (commit e at) = rw at (omega arith)
    rank-Move (enqueue e at) = rw at (omega arith)
    rank-Move (finish e at) = rw at (omega arith)

    rank-Loss : {w : World} → Loss r s i w → rank (s.pc i) + 1 ≤ 5
    rank-Loss (lost_commit e at) = rw at (omega arith)
    rank-Loss (lost_ready at) = rw at (omega arith)
    rank-Loss (lost_insert at) = rw at (omega arith)
    rank-Loss (lost_before_insert at) = rw at (omega arith)
    rank-Loss (lost_before_commit e at) = rw at (omega arith)
    rank-Loss (lost_before_enqueue e at) = rw at (omega arith)
    rank-Loss (lost_enqueue e at) = rw at (omega arith)
    rank-Loss (lost_before_email e at) = rw at (omega arith)
    rank-Loss (lost_email e at) = rw at (omega arith)

    rank-update :
        (p : Pc) (j : ℕ)
        → rank (s.pc i) + 1 ≤ rank p
        → (if i == j then 1 else 0) + rank (s.pc j) ≤ rank (update s.pc i p j)
    unfolding update
    rank-update p j h = elim (Bool-cases (i == j)) [
      | inl same ↦ rw same (let e : i ≡ j = ground arith in rw (← e) (omega (arith, h)))
      | inr other ↦ rw other (omega arith)
    ]

  steps-le-rank :
      (s t : System) (i : ℕ) (run : Reaches r s t) → steps_of i run + rank (s.pc i) ≤ rank (t.pc i)
  steps-le-rank s _ i here = omega arith
  steps-le-rank s _ i (next {t = m} run (moved j {p} move)) =
      omega (arith, steps-le-rank s m i run, rank-update m j p i (rank-Move m j move))
  steps-le-rank s _ i (next {t = m} run (lost j l)) =
      omega (
        arith,
        steps-le-rank s m i run,
        rank-update m j (failed lost_connection) i (rank-Loss m j l),
      )
  steps-le-rank s _ i (next {t = m} run (waited time)) = steps-le-rank s m i run

  rank_bounds : (p : Pc) → rank p ≤ 5
  rank_bounds ready = omega arith
  rank_bounds checked = omega arith
  rank_bounds (inserted e) = omega arith
  rank_bounds (stored e) = omega arith
  rank_bounds (queued e) = omega arith
  rank_bounds (done e) = omega arith
  rank_bounds (failed t) = omega arith

  -- A request makes at most five steps, whatever the others do and whatever is lost.
  pub steps-le-five :
      (w : World) (t : System) (i : ℕ) (run : Reaches r (begun r w) t) → steps_of i run ≤ 5
  steps-le-five w t i run = omega (arith, steps-le-rank (begun r w) t i run, rank_bounds (t.pc i))

  -- However the calls of the requests follow each other, and whichever of them are lost: the rows
  -- in the table have different fingerprints, and two requests that are past their INSERT want
  -- different ones.
  pub reached_unique :
      (w : World)
      → HasDistinctFingerprints w.enquiries
      → (t : System) → Reaches r (begun r w) t
      → HasDistinctFingerprints t.world.enquiries
        × ((i j : ℕ) (e d : Enquiry)
            → i ≢ j
            → row_held (t.pc i) ≡ some e
            → row_held (t.pc j) ≡ some d
            → (wanted r i).fingerprint ≢ (wanted r j).fingerprint)
  reached_unique w start t run =
      let x = Reaches-IsExclusive r (begun r w) t run (begun-IsExclusive r w start) in
      (x.distinct, λ i j e d ne h g same. x.apart i j e d ne h g (cc (x.own i e h, x.own j d g)))

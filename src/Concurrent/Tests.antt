-- ===== src/Concurrent/Tests.antt =====
-- A run of two equal requests: both have found the property when the first row is stored.
use property_platform_backen.Prelude.{
  arith, All, ℕ, ◌≤◌, ◌≡◌, ◌≢◌, refl, Text, true, some, [], ◌∷◌, inl, inr,
}
use property_platform_backen.Database.{World, Enquiry, row_of, used_id, has_fingerprint}
use property_platform_backen.Database.Invariant.{HasDistinctFingerprints}
use property_platform_backen.Transaction.Calm.{calm}
use property_platform_backen.Enquiries.{create_enquiry}
use property_platform_backen.Samples.{
  question_fits, question_is_new, plain, question, browser, town, town-IsSound,
}
use property_platform_backen.Concurrent.{
  Requests, Pc, ready, checked, inserted, stored, failed, System, update, IsPending, commit_row,
  counted_duplicate, identical, wanted, find, insert, commit, repeat, moved, Reaches, here, next,
  begun,
}
use property_platform_backen.Concurrent.Invariant.{row_held, update_cases}
use property_platform_backen.Concurrent.Unique.{steps_of, steps-le-five, reached_unique}
use property_platform_backen.Concurrent.Steps.{has_fingerprint_self}
use property_platform_backen.Concurrent.Fresh.{job_id}
use property_platform_backen.Concurrent.Progress.{Finishes, can_always_finish}
use property_platform_backen.Concurrent.Queue.{add_once, add_once-new}
use property_platform_backen.Concurrent.Backed.{sync_job, IsBacked, reached-IsBacked}
use property_platform_backen.Concurrent.Alone.{Ends, final_pc, alone-create_enquiry}

abbrev equal : Requests
equal = record { platform = plain; input = λ i. question; ctx = λ i. browser }

abbrev row : Enquiry
row = row_of (wanted equal 0) (town [])

abbrev both_checked : ℕ → Pc
both_checked = update (update (λ i. ready) 0 checked) 1 checked

idle_of_both : (key : Text) (j : ℕ) → ¬ IsPending key (both_checked j)
idle_of_both key j = elim (update_cases (update (λ i. ready) 0 checked) 1 checked j) [
  | inl (same, place) ↦ rw place (λ h. h)
  | inr (other, place) ↦ rw place (elim (update_cases (λ i. ready) 0 checked j) [
    | inl (same', place') ↦ rw place' (λ h. h)
    | inr (other', place') ↦ rw place' (λ h. h)
  ])
]

taken_here : has_fingerprint (wanted equal 1).fingerprint (row ∷ (town []).enquiries) ≡ true
taken_here = has_fingerprint_self row (town []).enquiries

abbrev after_commit : World
after_commit = commit_row row (used_id (town []))

abbrev last_state : System
last_state = record {
  world = counted_duplicate (used_id after_commit);
  pc = update (update (update both_checked 0 (inserted row)) 0 (stored row)) 1 (failed identical);
}

abbrev first_run : Reaches equal (begun equal (town [])) last_state
unfolding update
first_run =
    next
      (next
        (next (next (next here (moved 0 (find refl refl))) (moved 1 (find refl refl))) (
          moved 0 (
            insert refl question_fits question_is_new (idle_of_both (wanted equal 0).fingerprint))))
        (moved 0 (commit row refl)))
      (moved 1 (repeat refl question_fits taken_here))

steps-le-five_example : steps_of equal 0 first_run ≤ 5
steps-le-five_example = steps-le-five equal (town []) last_state 0 first_run

reached_unique_example :
    HasDistinctFingerprints last_state.world.enquiries
    × ((i j : ℕ) (e d : Enquiry)
        → i ≢ j
        → row_held (last_state.pc i) ≡ some e
        → row_held (last_state.pc j) ≡ some d
        → (wanted equal i).fingerprint ≢ (wanted equal j).fingerprint)
reached_unique_example =
    reached_unique equal (town []) (town-IsSound []).now_sound.distinct last_state first_run

reached-IsBacked_example : IsBacked equal last_state.world 0 (last_state.pc 0)
reached-IsBacked_example = reached-IsBacked equal (town []) last_state first_run 0

alone-create_enquiry_example :
    Ends equal 0
      (record { world = calm (town []); pc = λ i. ready })
      (create_enquiry plain question browser (calm (town []))).1
      (final_pc (create_enquiry plain question browser (calm (town []))).0)
alone-create_enquiry_example = alone-create_enquiry equal 0 (town []) (λ i. ready) refl (λ j h. h)

add_once-new_example :
    (add_once (sync_job row) last_state.world.jobs ≡ sync_job row ∷ last_state.world.jobs)
    × All (λ c. c ≢ b':') (job_id row.id)
unfolding update
add_once-new_example = add_once-new equal (town []) last_state 0 row tt first_run refl

-- The first row is stored and not committed, and the second request waits for it.
abbrev waiting_state : System
waiting_state = record { world = used_id (town []); pc = update both_checked 0 (inserted row) }

abbrev waiting_run : Reaches equal (begun equal (town [])) waiting_state
unfolding update
waiting_run = next (next (next here (moved 0 (find refl refl))) (moved 1 (find refl refl))) (
    moved 0 (insert refl question_fits question_is_new (idle_of_both (wanted equal 0).fingerprint)))

can_always_finish_example : Finishes equal 1 waiting_state
unfolding update
can_always_finish_example =
    can_always_finish equal (town []) (town-IsSound []).now_sound.distinct waiting_state waiting_run
      1 (inr (0, (λ h. omega (arith, h)), refl))

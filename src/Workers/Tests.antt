-- ===== src/Workers/Tests.antt =====
-- Instances of the theorems on the workers: an email that is never sent, and an enquiry whose first
-- sync fails.
use property_platform_backen.Prelude.{
  characters, characters_from, ℕ, ◌+◌, ◌≡◌, refl, codes, Bool, true, some, List, [], ◌∷◌, ◌==◌,
  decimal, decimal_from,
}
use property_platform_backen.Database.{World, call, fits}
use property_platform_backen.Workers.{
  EmailJob, waiting, buried, enquiry_confirmation, backoff, turn, after_attempt, after_letter,
  send_to_dead_letter, email_process,
}
use property_platform_backen.Workers.Turns.{run, effective}
use property_platform_backen.Workers.Retries.{record_id, numbered}
use property_platform_backen.Workers.Journey.{
  at_success, row, run_newest, letter_after, created_then_synced,
}
use property_platform_backen.Transaction.Calm.{calm}
use property_platform_backen.Enquiries.{create_enquiry}
use property_platform_backen.Samples.{
  plain, question, browser, town, town-IsSound, question_fits, question_is_new,
}

abbrev letter : EmailJob
letter = enquiry_confirmation (codes "Ann") 1

-- Four seconds pass.
abbrev wait : World → World
wait w = record w { now = w.now + 4000 }

abbrev waits : List (World → World)
waits = wait ∷ wait ∷ wait ∷ wait ∷ wait ∷ wait ∷ []

abbrev lost : ℕ → Bool
lost made = true

six_turns :
    effective (email_process lost letter) (codes "email") (codes "7") waits (waiting 0, town []) ≡ 6
unfolding effective turn after_attempt email_process backoff
six_turns = refl

ends_buried :
    (run (email_process lost letter) (codes "email") (codes "7") waits (waiting 0, town [])).0
    ≡ buried
unfolding run turn after_attempt after_letter send_to_dead_letter call email_process backoff
ends_buried = refl

-- The first attempt fails.
abbrev shaky : ℕ → Bool
shaky made = made == 0

room_0 : fits 100 (some (record_id 3 350)) ≡ true
unfolding codes decimal decimal_from characters characters_from
room_0 = refl

room_1 : fits 100 (some (record_id 3 1500)) ≡ true
unfolding codes decimal decimal_from characters characters_from
room_1 = refl

room_2 : fits 100 (some (record_id 3 3650)) ≡ true
unfolding codes decimal decimal_from characters characters_from
room_2 = refl

created_then_synced_example :
    let u = (create_enquiry plain question browser (calm (town []))).1 in
    ((run_newest shaky u).enquiries
      ≡ at_success shaky 200
          (λ t. numbered 3 t (row plain question browser (town [])))
          (row plain question browser (town []))
        ∷ (town []).enquiries)
    × ((run_newest shaky u).jobs
        ≡ at_success shaky 200
            (λ t. u.jobs)
            (letter_after plain question browser (town []) ∷ u.jobs))
created_then_synced_example =
    created_then_synced plain question browser (town []) refl question_fits question_is_new
      (town-IsSound []) shaky room_0 room_1 room_2

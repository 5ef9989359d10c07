-- ===== src/Workers/Retries.antt =====
-- What becomes of a CRM job that is left to itself.
use property_platform_backen.Prelude.{
  ℕ, zero, suc, ◌+◌, ◌≡◌, refl, ap, ◌∙◌, Text, codes, decimal, Bool, true, false, not, ◌&&◌, none,
  some, [], ◌∷◌, ◌++◌, map, leb, ltb, ◌==◌, if◌then◌else◌, Bool-cases, inl, inr, arith,
}
use property_platform_backen.Errors.{other_error}
use property_platform_backen.Effects.{ok, err, Exec, continue}
use property_platform_backen.Database.{
  World, Enquiry, failed_job, call, fits, has_enquiry, update_synced,
}
use property_platform_backen.Enquiries.{mark_crm_synced}
use property_platform_backen.Crm.{push_enquiry_to_crm}
use property_platform_backen.Crm.Unknown.{map_rows-eq-map}
use property_platform_backen.Workers.{
  JobState, waiting, delayed, done, buried, max_attempts, backoff, turn, after_attempt,
  after_letter, send_to_dead_letter, sync_process,
}

-- The id that the CRM gives at a time.
abbrev pub record_id : ℕ → ℕ → Text
record_id id t = codes "crm_" ++ decimal id ++ codes "_" ++ decimal t

-- Time passes until a delay is over.
abbrev pub wake : {A : Type 0} → JobState A → World → World
wake (delayed made due) w = record w { now = due }
wake _ w = w

-- So many turns of the job, with nothing between them but the time that it waits.
unfoldable pub settle :
    {A : Type 0} → (ℕ → Exec World A) → Text → Text → ℕ → JobState A × World → JobState A × World
settle process queue job_id zero s = s
settle process queue job_id (suc n) (j, w) =
    settle process queue job_id n (turn process queue job_id j (wake j w))

-- A row with the id of the job has the CRM's id.
abbrev pub numbered : ℕ → ℕ → Enquiry → Enquiry
numbered id t e =
    if e.id == id
    then record e { crm_record_id = some (record_id id t); crm_synced_at = some t }
    else e

-- Redis and MySQL answer every call, and it is a given time.
abbrev pub calm_at : World → ℕ → World
calm_at w t = record w { now = t; faults = [] }

-- The enquiry is synced at a time, and the job is done.
abbrev pub synced_at : ℕ → World → ℕ → JobState Text × World
synced_at id w t = (
  done (record_id id t),
  record w {
    now = t;
    faults = [];
    tables = record w.tables { enquiries = map (numbered id t) w.enquiries };
  },
)

-- The job is in the dead-letter queue at a time.
abbrev pub buried_at : Text → World → ℕ → JobState Text × World
buried_at job_id w t = (
  buried,
  record w {
    now = t;
    faults = [];
    jobs = failed_job (codes "crm-sync") job_id (codes "Simulated CRM upstream timeout") t ∷ w.jobs;
  },
)

and_false : (b : Bool) → (b && false) ≡ false
and_false true = refl
and_false false = refl

leb_refl : (n : ℕ) → leb n n ≡ true
leb_refl n = ground arith

module _ (fails : ℕ → Bool) (id : ℕ) (w : World) where
  refused_by_crm :
      (made t : ℕ)
      → fails made ≡ true
      → sync_process fails id made (calm_at w t) ≡ (
        err (other_error none none (codes "Simulated CRM upstream timeout")),
        calm_at w (t + 150),
      )
  unfolding sync_process push_enquiry_to_crm
  refused_by_crm made t f = rw f refl

  accepted_by_crm :
      (made t : ℕ)
      → fails made ≡ false
      → fits 100 (some (record_id id (t + 150))) ≡ true
      → sync_process fails id made (calm_at w t)
        ≡ (ok (record_id id (t + 150)), (synced_at id w (t + 150)).1)
  unfolding sync_process push_enquiry_to_crm mark_crm_synced call update_synced continue
  accepted_by_crm made t f fit =
      rw (f, fit, and_false (has_enquiry id w.enquiries))
        (ap
          (λ es. (
            ok (record_id id (t + 150)),
            record w { now = t + 150; faults = []; tables = record w.tables { enquiries = es } },
          ))
          (map_rows-eq-map (numbered id (t + 150)) w.enquiries))

  module _ (job_id : Text) where
    -- The turns that are left to the job.
    left : ℕ → JobState Text × World → JobState Text × World
    left = settle (sync_process fails id) (codes "crm-sync") job_id

    left_done : (n t : ℕ) → left n (synced_at id w t) ≡ synced_at id w t
    unfolding left settle turn
    left_done zero t = refl
    left_done (suc n) t = left_done n t

    -- The attempt succeeds.
    attempt_synced :
        (n made t : ℕ)
        → fails made ≡ false
        → fits 100 (some (record_id id (t + 150))) ≡ true
        → left (suc n) (waiting made, calm_at w t) ≡ synced_at id w (t + 150)
    unfolding left settle turn after_attempt
    attempt_synced n made t f fit = rw (accepted_by_crm made t f fit) (left_done n (t + 150))

    -- The attempt fails and another is left: it is made when the delay is over.
    attempt_delayed :
        (n made t : ℕ)
        → fails made ≡ true
        → ltb (made + 1) max_attempts ≡ true
        → left (suc (suc n)) (waiting made, calm_at w t)
          ≡ left n (waiting (made + 1), calm_at w (t + 150 + backoff (made + 1)))
    unfolding left settle turn after_attempt
    attempt_delayed n made t f more =
        rw (refused_by_crm made t f, more, leb_refl (t + 150 + backoff (made + 1))) refl

    -- The last attempt fails.
    attempt_buried :
        (t : ℕ) → fails 2 ≡ true → left 2 (waiting 2, calm_at w t) ≡ buried_at job_id w (t + 150)
    unfolding left settle turn after_attempt after_letter send_to_dead_letter call
    attempt_buried t f = rw (refused_by_crm 2 t f) refl

-- The times at which the attempts of a job that starts at `t` are answered.
abbrev pub first_answer : ℕ → ℕ
first_answer t = t + 150

abbrev pub second_answer : ℕ → ℕ
second_answer t = t + 150 + 1000 + 150

abbrev pub third_answer : ℕ → ℕ
third_answer t = t + 150 + 1000 + 150 + 2000 + 150

-- While Redis and MySQL answer, the job of an enquiry, left to itself for six turns, writes the
-- CRM's id at its first attempt that succeeds: 150 ms, 1300 ms or 3450 ms after its start. If all
-- three attempts fail it is in the dead-letter queue after 3450 ms. The ids must fit their column.
pub sync_job_cases :
    (fails : ℕ → Bool) (id : ℕ) (w : World) (job_id : Text)
    → fits 100 (some (record_id id (first_answer w.now))) ≡ true
    → fits 100 (some (record_id id (second_answer w.now))) ≡ true
    → fits 100 (some (record_id id (third_answer w.now))) ≡ true
    → settle (sync_process fails id) (codes "crm-sync") job_id 6 (waiting 0, calm_at w w.now) ≡ (
        if not (fails 0)
        then synced_at id w (first_answer w.now)
        else (if not (fails 1)
            then synced_at id w (second_answer w.now)
            else (if not (fails 2)
                then synced_at id w (third_answer w.now)
                else buried_at job_id w (third_answer w.now))))
unfolding left backoff
sync_job_cases fails id w job_id fit_0 fit_1 fit_2 =
    let t₁ = w.now + 150 + 1000 in
    let t₂ = w.now + 150 + 1000 + 150 + 2000 in
    elim (Bool-cases (fails 0)) [
      | inr f0 ↦ rw f0 (attempt_synced fails id w job_id 5 0 w.now f0 fit_0)
      | inl f0 ↦ rw f0 (
          attempt_delayed fails id w job_id 4 0 w.now f0 refl ∙ elim (Bool-cases (fails 1)) [
            | inr f1 ↦ rw f1 (attempt_synced fails id w job_id 3 1 t₁ f1 fit_1)
            | inl f1 ↦ rw f1 (
                attempt_delayed fails id w job_id 2 1 t₁ f1 refl ∙ elim (Bool-cases (fails 2)) [
                  | inr f2 ↦ rw f2 (attempt_synced fails id w job_id 1 2 t₂ f2 fit_2)
                  | inl f2 ↦ rw f2 (attempt_buried fails id w job_id t₂ f2)
                ])
          ])
    ]

-- ===== src/Workers/Journey.antt =====
-- An enquiry from its creation to the end of its CRM job.
use property_platform_backen.Prelude.{
  ℕ, ◌+◌, ◌<◌, ◌≡◌, ◌∙◌, refl, ap, Text, codes, Bool, true, false, not, some, List, [], ◌∷◌, All,
  map, ◌==◌, ◌++◌, decimal, if◌then◌else◌, Bool-cases, inl, inr, arith,
}
use property_platform_backen.Hash.{Platform}
use property_platform_backen.Database.{
  World, Enquiry, Job, sync_enquiry, send_email, failed_job, fits, columns_fit, has_fingerprint,
  row_of,
}
use property_platform_backen.Database.Invariant.{IsSound}
use property_platform_backen.Transaction.Calm.{calm}
use property_platform_backen.Enquiries.{
  CreateEnquiryInput, CreateEnquiryContext, values, create_enquiry,
}
use property_platform_backen.Enquiries.Create.{is_missing, created}
use property_platform_backen.EnquiryApi.ReadBack.{accepted}
use property_platform_backen.Workers.{waiting, sync_process}
use property_platform_backen.Workers.Retries.{record_id, settle, numbered, calm_at, sync_job_cases}

numbered_same :
    (id t : ℕ) (es : List Enquiry) → All (λ e. e.id < id) es → map (numbered id t) es ≡ es
numbered_same id t [] h = refl
numbered_same id t (e ∷ es) h = elim (Bool-cases (e.id == id)) [
  | inl same ↦ absurd (ground arith)
  | inr other ↦ rw (other, numbered_same id t es h.1)
]

-- By the time at which the first of three attempts that succeeds is answered, where the first one
-- starts at `t`.
abbrev pub at_success {ℓ} : {A : Type ℓ} → (ℕ → Bool) → ℕ → (ℕ → A) → A → A
at_success fails t at_time spent =
    if not (fails 0)
    then at_time (t + 150)
    else (if not (fails 1)
        then at_time (t + 150 + 1000 + 150)
        else (if not (fails 2) then at_time (t + 150 + 1000 + 150 + 2000 + 150) else spent))

-- The CRM jobs of a queue, the newest first: their data and their ids.
unfoldable pub sync_jobs : List Job → List (ℕ × Text)
sync_jobs [] = []
sync_jobs (sync_enquiry id job_id ∷ js) = (id, job_id) ∷ sync_jobs js
sync_jobs (send_email to name id ∷ js) = sync_jobs js
sync_jobs (failed_job queue job_id reason at ∷ js) = sync_jobs js

-- The worker's run of the newest CRM job of a state, from its first attempt on.
unfoldable pub run_newest : (ℕ → Bool) → World → World
run_newest fails u = newest (sync_jobs u.jobs)
  where
    newest : List (ℕ × Text) → World
    newest [] = u
    newest ((id, job_id) ∷ js) =
        (settle (sync_process fails id) (codes "crm-sync") job_id 6 (waiting 0, calm_at u u.now)).1

module _ (platform : Platform) (input : CreateEnquiryInput) (ctx : CreateEnquiryContext)
    (w : World) where
  abbrev pub row : Enquiry
  row = row_of (values platform input ctx) w

  -- What the dead-letter queue is given when all attempts have failed.
  abbrev pub letter_after : Job
  letter_after =
      failed_job (codes "crm-sync") (codes "crm-sync-" ++ decimal row.id)
        (codes "Simulated CRM upstream timeout") (w.now + 150 + 1000 + 150 + 2000 + 150)

  module _ (found : is_missing platform input ctx w ≡ false)
      (fit : columns_fit (values platform input ctx) ≡ true)
      (free : has_fingerprint (values platform input ctx).fingerprint w.enquiries ≡ false)
      (sound : IsSound w) where
    synced_rows :
        (t : ℕ) → map (numbered row.id t) (row ∷ w.enquiries) ≡ numbered row.id t row ∷ w.enquiries
    synced_rows t =
        ap (λ es. numbered row.id t row ∷ es)
          (numbered_same row.id t w.enquiries sound.now_sound.fresh)

    -- The newest CRM job is the one that the creation has queued.
    newest_queued :
        (fails : ℕ → Bool)
        → run_newest fails (created platform input ctx w)
          ≡ (settle
              (sync_process fails row.id)
              (codes "crm-sync")
              (codes "crm-sync-" ++ decimal row.id)
              6
              (
                waiting 0,
                calm_at (created platform input ctx w) (created platform input ctx w).now,
              )).1
    unfolding run_newest sync_jobs
    newest_queued fails = refl

    -- A published property is named, the columns fit, the fingerprint is new, every call is
    -- answered and the ids fit their column. After the creation, the newest CRM job in the queues,
    -- run at once, gives the new row the CRM's id at its first successful attempt, after 150 ms,
    -- 1300 ms or 3450 ms. If all three fail, the row stays as it is, and a letter that names the
    -- job is added to the queues. The rows before it stay as they were.
    pub created_then_synced :
        (fails : ℕ → Bool)
        → fits 100 (some (record_id row.id (w.now + 150))) ≡ true
        → fits 100 (some (record_id row.id (w.now + 150 + 1000 + 150))) ≡ true
        → fits 100 (some (record_id row.id (w.now + 150 + 1000 + 150 + 2000 + 150))) ≡ true
        → let u = (create_enquiry platform input ctx (calm w)).1 in
          ((run_newest fails u).enquiries
            ≡ at_success fails w.now (λ t. numbered row.id t row) row ∷ w.enquiries)
          × ((run_newest fails u).jobs
              ≡ at_success fails w.now (λ t. u.jobs) (letter_after ∷ u.jobs))
    created_then_synced fails fit_0 fit_1 fit_2 =
        let job_id = codes "crm-sync-" ++ decimal row.id in
        let ran =
          newest_queued fails
          ∙ ap (λ r. r.1)
              (sync_job_cases fails row.id (created platform input ctx w) job_id fit_0 fit_1
                fit_2) in
        rw (accepted platform input ctx w found fit free, ran)
          (elim (Bool-cases (fails 0)) [
            | inr f0 ↦ rw f0 (synced_rows (w.now + 150), refl)
            | inl f0 ↦ elim (Bool-cases (fails 1)) [
              | inr f1 ↦ rw (f0, f1) (synced_rows (w.now + 150 + 1000 + 150), refl)
              | inl f1 ↦ elim (Bool-cases (fails 2)) [
                | inr f2 ↦
                    rw (f0, f1, f2) (synced_rows (w.now + 150 + 1000 + 150 + 2000 + 150), refl)
                | inl f2 ↦ rw (f0, f1, f2) (refl, refl)
              ]
            ]
          ])

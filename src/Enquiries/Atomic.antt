-- ===== src/Enquiries/Atomic.antt =====
-- `createEnquiry` adds one row or none, whichever of its calls fail.
use property_platform_backen.Prelude.{
  ◌+◌, ◌≡◌, ◌⊎◌, refl, ap, ◌∙◌, Option, none, some, List, [], ◌∷◌, inl, inr, decimal, codes, ◌++◌,
  Bool-cases,
}
use property_platform_backen.Errors.{Thrown}
use property_platform_backen.Effects.{Result, ok, err, Exec, pure, catch, continue, ◌>>◌, modify}
use property_platform_backen.Hash.{Platform}
use property_platform_backen.Database.{
  World, Fault, Enquiry, row_of, stored, Job, send_email, sync_enquiry,
}
use property_platform_backen.Database.Faults.{call_cases}
use property_platform_backen.Transaction.{with_transaction}
use property_platform_backen.Transaction.Atomic.{
  RolledBack, Committed, prepared, with_transaction-Settled,
}
use property_platform_backen.Enquiries.{
  CreateEnquiryInput, CreateEnquiryContext, values, create_row, hand_over, on_create_error,
  is_duplicate, create_enquiry, enqueue_crm_sync, enqueue_email,
}
use property_platform_backen.Enquiries.Rows.{RowEnds, create_row_ends, create_row-IsLocal}

module _ (platform : Platform) (input : CreateEnquiryInput) (ctx : CreateEnquiryContext) where
  -- The jobs of an enquiry, the last first.
  abbrev pub jobs_of : Enquiry → List Job
  jobs_of e =
      send_email e.email e.full_name e.id
      ∷ sync_enquiry e.id (codes "crm-sync-" ++ decimal e.id)
      ∷ []

  -- Tables, snapshot and pool as in `u`.
  abbrev Same : World → World → Type 0
  Same u v = (v.tables ≡ u.tables) × (v.saved ≡ u.saved) × (v.leased ≡ u.leased)

  abbrev HandedOver : Enquiry → World → Result Enquiry × World → Type 0
  HandedOver e u (ok a, v) = Same u v × (a ≡ e) × (v.jobs ≡ jobs_of e ++ u.jobs)
  HandedOver e u (err x, v) = Same u v

  hand_over_ends :
      (e : Enquiry) (u : World) → HandedOver e u (hand_over platform input ctx (some e) u)
  unfolding hand_over enqueue_crm_sync continue
  hand_over_ends e u =
      call_cases (λ r. HandedOver e u (continue (λ _. rest) r))
        (modify
          (λ w. record w { jobs = sync_enquiry e.id (codes "crm-sync-" ++ decimal e.id) ∷ w.jobs }))
        u (λ gs. emailed gs) (λ gs. (refl, refl, refl)) (λ gs. (refl, refl, refl))
    where
      rest : Exec World Enquiry
      rest =
          enqueue_email e.email e.full_name e.id
          >> (modify (λ w. record w { enquiries_created_total = w.enquiries_created_total + 1 })
              >> pure e)

      emailed :
          (gs : List Fault)
          → HandedOver e u (
              rest (record u {
                jobs = sync_enquiry e.id (codes "crm-sync-" ++ decimal e.id) ∷ u.jobs;
                faults = gs;
              }))
      emailed gs =
          call_cases
            (λ r. HandedOver e u (
              continue
                (λ _.
                  modify (λ w. record w { enquiries_created_total = w.enquiries_created_total + 1 })
                  >> pure e)
                r))
            (modify (λ w. record w { jobs = send_email e.email e.full_name e.id ∷ w.jobs }))
            (record u {
              jobs = sync_enquiry e.id (codes "crm-sync-" ++ decimal e.id) ∷ u.jobs;
              faults = gs;
            })
            (λ hs. ((refl, refl, refl), refl, refl)) (λ hs. (refl, refl, refl))
            (λ hs. (refl, refl, refl))

  -- Nothing is stored, and the client has an error.
  pub record Refused (w : World) (end : Result Enquiry × World) : Type 0 where
    pub failure : Thrown
    pub failed : end.0 ≡ err failure
    pub same : end.1.tables ≡ w.tables

  -- One row is stored. The client has it, and its two jobs were handed over, or has an error.
  pub record Stored (w : World) (end : Result Enquiry × World) : Type 0 where
    pub added : end.1.tables ≡ (stored (values platform input ctx) w).tables
    pub reply :
        ((end.0 ≡ ok (row_of (values platform input ctx) w))
          × (end.1.jobs ≡ jobs_of (row_of (values platform input ctx) w) ++ w.jobs))
        ⊎ ((failure : Thrown) × (end.0 ≡ err failure))

  -- No transaction is open at the end, and every connection is back in the pool.
  abbrev pub Ends : World → Result Enquiry × World → Type 0
  Ends w end = (Refused w end ⊎ Stored w end) × (end.1.saved ≡ none) × (end.1.leased ≡ w.leased)

  on_create_error_ends :
      (e : Thrown) (u : World)
      → ((x : Thrown) × ((on_create_error e u).0 ≡ err x)) × Same u (on_create_error e u).1
  unfolding on_create_error
  on_create_error_ends e u = elim (Bool-cases (is_duplicate e)) [
    | inl dup ↦ rw dup ((_, refl), (refl, refl, refl))
    | inr no_dup ↦ rw no_dup ((e, refl), (refl, refl, refl))
  ]

  -- What is known of the state once the transaction is committed.
  record Added (w u : World) : Type 0 where
    tables : u.tables ≡ (stored (values platform input ctx) w).tables
    closed : u.saved ≡ none
    lease : u.leased ≡ w.leased
    jobs : u.jobs ≡ w.jobs

  returned_row :
      (v : World) (r : Result (Option Enquiry) × World)
      → RowEnds platform input ctx v r
      → (o : Option Enquiry) → r.0 ≡ ok o
      → (o ≡ some (row_of (values platform input ctx) v))
        × (r.1.tables ≡ (stored (values platform input ctx) v).tables)
        × (r.1.jobs ≡ v.jobs)
  returned_row v (ok o', u) (frame, row, tables) o e = (cc, tables, ap (λ x. x.jobs) frame)
  returned_row v (err x, u) h o e = cc

  Committed-result :
      (w : World) (o : Option Enquiry) (u : World)
      → Committed (create_row platform input ctx) w (ok o, u)
      → o ≡ some (row_of (values platform input ctx) w)
  Committed-result w o u done =
      let v = prepared done.before w in
      let (row, _, _) =
        returned_row v (create_row platform input ctx v) (create_row_ends platform input ctx v)
          done.result done.returned in
      elim done.reply [ inl e ↦ cc | inr e ↦ cc ]

  module _ (w : World) where
    -- A state whose tables are those of `w`, or hold the new row too.
    caught_refused :
        (e : Thrown) (u : World)
        → u.tables ≡ w.tables
        → u.saved ≡ none
        → u.leased ≡ w.leased
        → Ends w (catch on_create_error (err e, u))
    unfolding catch
    caught_refused e u t s l =
        let ((x, failed), (tables, saved, leased)) = on_create_error_ends e u in
        (inl (record { failure = x; failed = failed; same = tables ∙ t }), saved ∙ s, leased ∙ l)

    caught_stored :
        (e : Thrown) (u : World)
        → u.tables ≡ (stored (values platform input ctx) w).tables
        → u.saved ≡ none
        → u.leased ≡ w.leased
        → Ends w (catch on_create_error (err e, u))
    unfolding catch
    caught_stored e u t s l =
        let ((x, failed), (tables, saved, leased)) = on_create_error_ends e u in
        (inr (record { added = tables ∙ t; reply = inr (x, failed) }), saved ∙ s, leased ∙ l)

    handed-Ends :
        (u : World) (r : Result Enquiry × World)
        → HandedOver (row_of (values platform input ctx) w) u r
        → u.tables ≡ (stored (values platform input ctx) w).tables
        → u.saved ≡ none
        → u.leased ≡ w.leased
        → u.jobs ≡ w.jobs
        → Ends w (catch on_create_error r)
    unfolding catch
    handed-Ends u (ok a, v) ((tables, saved, leased), same, jobs) t s l j = (
      inr (record { added = tables ∙ t; reply = inl (ap ok same, rw j at jobs) }),
      saved ∙ s,
      leased ∙ l,
    )
    handed-Ends u (err x, v) (tables, saved, leased) t s l j =
        caught_stored x v (tables ∙ t) (saved ∙ s) (leased ∙ l)

    Committed-row :
        (end : Result (Option Enquiry) × World)
        → Committed (create_row platform input ctx) w end
        → Added w end.1
    Committed-row end done =
        let v = prepared done.before w in
        let (row, tables, jobs) =
          returned_row v (create_row platform input ctx v) (create_row_ends platform input ctx v)
            done.result done.returned in
        record {
          tables = ap (λ x. x.tables) done.final ∙ tables;
          closed = ap (λ x. x.saved) done.final;
          lease = done.lease;
          jobs = ap (λ x. x.jobs) done.final ∙ jobs;
        }

    settled-Ends :
        (end : Result (Option Enquiry) × World)
        → RolledBack w end ⊎ Committed (create_row platform input ctx) w end
        → Ends w (catch on_create_error (continue (hand_over platform input ctx) end))
    unfolding continue
    settled-Ends (ok o, u) (inl back) = cc (back.failed)
    settled-Ends (err e, u) (inl back) = caught_refused e u back.same back.closed back.lease
    settled-Ends (ok o, u) (inr done) =
        let a = Committed-row (ok o, u) done in
        let row : o ≡ some (row_of (values platform input ctx) w) = Committed-result w o u done in
        rw row (
          handed-Ends u _ (hand_over_ends (row_of (values platform input ctx) w) u) a.tables
            a.closed a.lease a.jobs)
    settled-Ends (err e, u) (inr done) =
        let a = Committed-row (err e, u) done in caught_stored e u a.tables a.closed a.lease

    -- Whichever calls to MySQL and Redis fail, a `createEnquiry` that starts with no transaction
    -- open ends with none open and its connection returned, and either with an error and the tables
    -- as they were, or with exactly its own row added. In that case it returns the row, with the
    -- two jobs handed over, or throws.
    pub create_enquiry_atomic : w.saved ≡ none → Ends w (create_enquiry platform input ctx w)
    unfolding create_enquiry
    create_enquiry_atomic closed =
        settled-Ends (with_transaction (create_row platform input ctx) w) (
          with_transaction-Settled (create_row platform input ctx) w
            (create_row-IsLocal platform input ctx) closed)

-- ===== src/Enquiries/Create.antt =====
-- What `createEnquiry` does where every call is answered.
use property_platform_backen.Prelude.{
  ℕ, ◌+◌, ◌≡◌, refl, codes, text_eq, Bool, true, false, not, none, some, List, [], ◌∷◌, ◌++◌,
  select, take, decimal, if◌then◌else◌, Bool-cases, arith, inl, inr, ◌==◌, ◌&&◌,
}
use property_platform_backen.Errors.{Thrown, conflict_error, not_found_error}
use property_platform_backen.Effects.{Result, ok, err, catch, continue}
use property_platform_backen.Hash.{Platform}
use property_platform_backen.Database.{
  World, Enquiry, Property, call, select_published, insert_enquiry, select_enquiry, is_published,
  columns_fit, has_fingerprint, has_property, mysql_error, row_of, stored, used_id, sync_enquiry,
  send_email,
}
use property_platform_backen.Transaction.Atomic.{prepared}
use property_platform_backen.Transaction.Calm.{
  calm, with_transaction_returns, with_transaction_throws,
}
use property_platform_backen.Enquiries.{
  CreateEnquiryInput, CreateEnquiryContext, is_empty, values, create_enquiry, property_missing,
  create_row, hand_over, on_create_error, is_duplicate, enqueue_crm_sync, enqueue_email,
}

pub has_property_of_select :
    (id : ℕ) (ps : List Property)
    → is_empty (take 1 (select (λ p. p.id == id && is_published p.status) ps)) ≡ false
    → has_property id ps ≡ true
unfolding has_property
has_property_of_select id [] h = cc
has_property_of_select id (p ∷ ps) h = ground (arith, has_property_of_select id ps)

module _ (platform : Platform) (input : CreateEnquiryInput) (ctx : CreateEnquiryContext) where
  -- No property of the given id is published.
  abbrev pub is_missing : World → Bool
  is_missing w = is_empty (
      take 1 (
        select (λ (p : Property). p.id == input.property_id && is_published p.status) w.properties))

  -- The state with the new row, the two jobs and the count.
  abbrev pub created : World → World
  created w =
      let row = row_of (values platform input ctx) w in
      record w {
        tables = record w.tables { enquiries = row ∷ w.enquiries };
        saved = none;
        next_enquiry_id = w.next_enquiry_id + 1;
        jobs =
            send_email row.email row.full_name row.id
            ∷ sync_enquiry row.id (codes "crm-sync-" ++ decimal row.id)
            ∷ w.jobs;
        enquiries_created_total = w.enquiries_created_total + 1;
        faults = [];
      }

  -- The cases, in the order in which they are told apart.
  abbrev pub expected : World → Result Enquiry × World
  expected w =
      if is_missing w
      then (err (property_missing input.property_id), calm w)
      else if not (columns_fit (values platform input ctx))
      then (err (mysql_error 1406 (codes "ER_DATA_TOO_LONG")), calm w)
      else if has_fingerprint (values platform input ctx).fingerprint w.enquiries
      then (
        err (conflict_error (codes "An identical enquiry has already been submitted recently.")),
        record (calm w) {
          next_enquiry_id = w.next_enquiry_id + 1;
          enquiries_duplicate_total = w.enquiries_duplicate_total + 1;
        },
      )
      else (ok (row_of (values platform input ctx) w), created w)

  module _ (w : World) (found : is_missing w ≡ false) where
    insert_thrown :
        (e : Thrown) (u : World)
        → u.leased ≡ w.leased + 1
        → insert_enquiry (values platform input ctx) (prepared [] w)
          ≡ (err e, record u { saved = some w.tables; faults = [] })
        → create_enquiry platform input ctx (calm w)
          ≡ on_create_error e
              (record u { tables = w.tables; saved = none; leased = w.leased; faults = [] })
    insert_thrown e u loan h =
        let thrown =
          with_transaction_throws (create_row platform input ctx) w e u loan
            (unfold create_row call select_published continue in rw (found, h)) in
        unfold create_enquiry catch continue in rw thrown

    too_long :
        columns_fit (values platform input ctx) ≡ false
        → create_enquiry platform input ctx (calm w)
          ≡ (err (mysql_error 1406 (codes "ER_DATA_TOO_LONG")), calm w)
    unfolding insert_enquiry on_create_error is_duplicate mysql_error text_eq codes
    too_long h =
        insert_thrown (mysql_error 1406 (codes "ER_DATA_TOO_LONG")) (prepared [] w) refl (rw h)

    module _ (fit : columns_fit (values platform input ctx) ≡ true) where
      repeated :
          has_fingerprint (values platform input ctx).fingerprint w.enquiries ≡ true
          → create_enquiry platform input ctx (calm w) ≡ (
            err (
                conflict_error (codes "An identical enquiry has already been submitted recently.")),
            record (calm w) {
              next_enquiry_id = w.next_enquiry_id + 1;
              enquiries_duplicate_total = w.enquiries_duplicate_total + 1;
            },
          )
      unfolding insert_enquiry on_create_error is_duplicate mysql_error
      repeated h =
          insert_thrown (mysql_error 1062 (codes "ER_DUP_ENTRY")) (used_id (prepared [] w)) refl
            (rw (fit, h))

      inserted :
          has_fingerprint (values platform input ctx).fingerprint w.enquiries ≡ false
          → insert_enquiry (values platform input ctx) (prepared [] w)
            ≡ (ok w.next_enquiry_id, stored (values platform input ctx) (prepared [] w))
      unfolding insert_enquiry
      inserted h = rw (fit, h, has_property_of_select input.property_id w.properties found)

      accepted :
          has_fingerprint (values platform input ctx).fingerprint w.enquiries ≡ false
          → create_enquiry platform input ctx (calm w)
            ≡ (ok (row_of (values platform input ctx) w), created w)
      unfolding create_enquiry catch continue
      accepted h =
          let returned =
            with_transaction_returns (create_row platform input ctx) w
              (some (row_of (values platform input ctx) w))
              (stored (values platform input ctx) (prepared [] w)) refl
              (unfold create_row call select_published select_enquiry continue in
                rw (found, inserted h) (ground arith)) in
          rw returned (unfold hand_over call enqueue_crm_sync enqueue_email in refl)

  missing_thrown :
      (w : World)
      → is_missing w ≡ true
      → create_enquiry platform input ctx (calm w)
        ≡ (err (property_missing input.property_id), calm w)
  unfolding create_enquiry catch continue
  missing_thrown w h =
      let thrown =
        with_transaction_throws (create_row platform input ctx) w
          (property_missing input.property_id) (prepared [] w) refl
          (unfold create_row call select_published continue in rw h) in
      rw thrown
        (unfold on_create_error is_duplicate property_missing not_found_error text_eq codes in refl)

  -- Where every call is answered, `createEnquiry` throws NotFoundError if no property of that id is
  -- published, a driver error if a column is too long, and ConflictError, counted, if the
  -- fingerprint is taken, and then no row and no job is added. Otherwise it adds one row, one
  -- CRM job and one email for it, and returns the row.
  pub create_enquiry_cases : (w : World) → create_enquiry platform input ctx (calm w) ≡ expected w
  create_enquiry_cases w = elim (Bool-cases (is_missing w)) [
    | inl missing ↦ rw missing (missing_thrown w missing)
    | inr found ↦ elim (Bool-cases (columns_fit (values platform input ctx))) [
      | inr long ↦ rw (found, long) (too_long w found long)
      | inl fit ↦
          elim (Bool-cases (has_fingerprint (values platform input ctx).fingerprint w.enquiries)) [
            | inl taken ↦ rw (found, fit, taken) (repeated w found fit taken)
            | inr free ↦ rw (found, fit, free) (accepted w found fit free)
          ]
    ]
  ]

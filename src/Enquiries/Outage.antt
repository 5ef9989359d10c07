-- ===== src/Enquiries/Outage.antt =====
-- An enquiry whose job could not be queued.
use property_platform_backen.Prelude.{
  ℕ, ap, ◌+◌, ◌≡◌, refl, codes, text_eq_iff, ==_refl, Text, true, false, none, [], ◌∷◌, arith,
}
use property_platform_backen.Errors.{conflict_error}
use property_platform_backen.Effects.{Result, err, catch, continue}
use property_platform_backen.Hash.{Platform}
use property_platform_backen.Database.{
  World, Enquiry, answered, refused, call, select_published, select_enquiry, insert_enquiry,
  columns_fit, has_fingerprint, stored, row_of, lost_connection,
}
use property_platform_backen.Enquiries.{
  CreateEnquiryInput, CreateEnquiryContext, values, create_enquiry, hand_over, on_create_error,
  is_duplicate, enqueue_crm_sync,
}
use property_platform_backen.Enquiries.Create.{
  is_missing, has_property_of_select, create_enquiry_cases,
}

-- The six calls of the transaction are answered, and the call to the queue is refused.
abbrev pub queue_down : World → World
queue_down w = record w {
  saved = none;
  faults = answered ∷ answered ∷ answered ∷ answered ∷ answered ∷ answered ∷ refused ∷ [];
}

module _ (platform : Platform) (input : CreateEnquiryInput) (ctx : CreateEnquiryContext) (w : World)
    (found : is_missing platform input ctx w ≡ false)
    (fit : columns_fit (values platform input ctx) ≡ true)
    (free : has_fingerprint (values platform input ctx).fingerprint w.enquiries ≡ false) where
  -- The row is stored, and nothing else has changed.
  abbrev pub stranded : World
  stranded = record w {
    tables = (stored (values platform input ctx) w).tables;
    saved = none;
    next_enquiry_id = w.next_enquiry_id + 1;
    faults = [];
  }

  with_lease :
      {l : ℕ}
      → l ≡ w.leased
      → ◌≡◌ {A = Result Enquiry × World}
          (err lost_connection, record stranded { leased = l })
          (err lost_connection, stranded)
  with_lease h = ap (λ l. (err lost_connection, record stranded { leased = l })) h

  first : create_enquiry platform input ctx (queue_down w) ≡ (err lost_connection, stranded)
  unfolding create_enquiry call select_published insert_enquiry select_enquiry catch continue
  first =
      rw
        (
          found,
          fit,
          free,
          has_property_of_select input.property_id w.properties found,
          ==_refl w.next_enquiry_id,
        )
        (unfold hand_over enqueue_crm_sync on_create_error is_duplicate lost_connection in
          with_lease (omega arith))

  second :
      (create_enquiry platform input ctx stranded).0
      ≡ err (conflict_error (codes "An identical enquiry has already been submitted recently."))
  unfolding has_fingerprint
  second =
      rw (create_enquiry_cases platform input ctx stranded, found, fit, (text_eq_iff fp fp).1 refl)
    where
      fp : Text
      fp = (values platform input ctx).fingerprint

  -- If a published property is named, the columns fit and the fingerprint is new, but the queue is
  -- down once the transaction is committed, the client has an error, the row is stored and no job
  -- is queued; and when the same enquiry is sent again with everything up, it is refused as a
  -- duplicate.
  pub create_enquiry_strands :
      let (reply, u) = create_enquiry platform input ctx (queue_down w) in
      (reply ≡ err lost_connection)
      × (u.enquiries ≡ row_of (values platform input ctx) w ∷ w.enquiries)
      × (u.jobs ≡ w.jobs)
      × ((create_enquiry platform input ctx u).0
          ≡ err
              (conflict_error (codes "An identical enquiry has already been submitted recently.")))
  create_enquiry_strands = rw first (refl, refl, refl, second)

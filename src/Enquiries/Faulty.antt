-- ===== src/Enquiries/Faulty.antt =====
-- What the enquiry service guarantees whichever of its calls to MySQL and Redis fail.
use property_platform_backen.Prelude.{ℕ, ◌+◌, Text, Option, head?}
use property_platform_backen.Errors.{Thrown}
use property_platform_backen.Effects.{err, or_raise, ◌>>=◌, raise_if}
use property_platform_backen.Effects.Keeps.{
  Keeps, Keeps-pure, Keeps-or_raise, Keeps-bind, Keeps-raise_if, catch_inv, if_inv,
}
use property_platform_backen.Hash.{Platform}
use property_platform_backen.Database.{World, Status, Enquiry}
use property_platform_backen.Database.Invariant.{
  IsSound, call-IsSound, insert_enquiry-IsSound, select_published-IsSound, select_enquiry-IsSound,
  update_synced-IsSound,
}
use property_platform_backen.Transaction.{with_transaction}
use property_platform_backen.Transaction.Sound.{with_transaction-IsSound}
use property_platform_backen.Enquiries.{
  CreateEnquiryInput, CreateEnquiryContext, is_empty, values, create_row, hand_over,
  on_create_error, is_duplicate, create_enquiry, enqueue_crm_sync, enqueue_email, mark_crm_synced,
}

enqueue_crm_sync-IsSound : (id : ℕ) → Keeps IsSound (enqueue_crm_sync id)
unfolding enqueue_crm_sync
enqueue_crm_sync-IsSound id =
    call-IsSound _
      (record { at = λ w h. record { now_sound = h.now_sound; saved_sound = h.saved_sound } })

enqueue_email-IsSound :
    (to full_name : Text) (id : ℕ) → Keeps IsSound (enqueue_email to full_name id)
unfolding enqueue_email
enqueue_email-IsSound to full_name id =
    call-IsSound _
      (record { at = λ w h. record { now_sound = h.now_sound; saved_sound = h.saved_sound } })

on_create_error-IsSound : (e : Thrown) → Keeps IsSound (on_create_error e)
unfolding on_create_error
on_create_error-IsSound e = record {
  at = λ w h.
      if_inv IsSound (is_duplicate e)
        (_, record w { enquiries_duplicate_total = w.enquiries_duplicate_total + 1 }) (err e, w)
        (record { now_sound = h.now_sound; saved_sound = h.saved_sound }) h;
}

module _ (platform : Platform) (input : CreateEnquiryInput) (ctx : CreateEnquiryContext) where
  pub create_row-IsSound : Keeps IsSound (create_row platform input ctx)
  unfolding create_row
  create_row-IsSound =
      Keeps-bind _ _ (call-IsSound _ (select_published-IsSound input.property_id)) (λ found.
        Keeps-bind (raise_if (is_empty found) _) _ (Keeps-raise_if (is_empty found) _) (λ _.
          Keeps-bind _ _ (call-IsSound _ (insert_enquiry-IsSound (values platform input ctx)))
            (λ id.
              Keeps-bind _ _ (call-IsSound _ (select_enquiry-IsSound id))
                (λ rows. Keeps-pure (head? rows)))))

  hand_over-IsSound :
      (created : Option Enquiry) → Keeps IsSound (hand_over platform input ctx created)
  unfolding hand_over
  hand_over-IsSound created = Keeps-bind (or_raise created _) _ (Keeps-or_raise created _) (λ e.
      Keeps-bind _ _ (enqueue_crm_sync-IsSound e.id) (λ _.
        Keeps-bind _ _ (enqueue_email-IsSound e.email e.full_name e.id) (λ _. record {
          at = λ w h. record { now_sound = h.now_sound; saved_sound = h.saved_sound };
        })))

  -- Under any faults, `createEnquiry` keeps the ids and the fingerprints distinct, the ids below
  -- the next one, and each enquiry's property in its table.
  pub create_enquiry-IsSound :
      (w : World) → IsSound w → IsSound (create_enquiry platform input ctx w).1
  unfolding create_enquiry
  create_enquiry-IsSound w h =
      catch_inv {Inv = IsSound} on_create_error
        ((with_transaction (create_row platform input ctx) >>= hand_over platform input ctx) w)
        ((Keeps-bind (with_transaction (create_row platform input ctx))
            (hand_over platform input ctx)
            (with_transaction-IsSound (create_row platform input ctx) create_row-IsSound)
            hand_over-IsSound).at
          w h)
        on_create_error-IsSound

-- Under any faults, `markCrmSynced` keeps the ids and the fingerprints distinct, the ids below the
-- next one, and each enquiry's property in its table.
pub mark_crm_synced-IsSound :
    (id : ℕ) (record_id : Text) (status : Option Status) (w : World)
    → IsSound w
    → IsSound (mark_crm_synced id record_id status w).1
unfolding mark_crm_synced
mark_crm_synced-IsSound id record_id status w h =
    (call-IsSound _ (update_synced-IsSound id record_id status)).at w h

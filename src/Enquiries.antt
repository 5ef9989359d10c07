-- ===== src/Enquiries.antt =====
-- src/services/enquiry.service.ts, but for the list of enquiries, with the two queue functions that
-- it calls: src/queues/crmSync.queue.ts and src/queues/email.queue.ts.
pub mod Create
pub mod Faulty
pub mod Rows
pub mod Atomic
pub mod Outage
mod Tests
use property_platform_backen.Prelude.{
  ℕ, ◌+◌, Text, codes, text_eq, decimal, Bool, true, false, ◌||◌, Option, none, some, List, [], ◌∷◌,
  ◌++◌, head?, ◌==◌, if◌then◌else◌,
}
use property_platform_backen.Errors.{
  Thrown, app_error, validation_error, other_error, not_found_error, conflict_error,
}
use property_platform_backen.Effects.{
  Result, Exec, pure, raise, or_raise, catch, continue, ◌>>=◌, ◌>>◌, raise_if, modify,
}
use property_platform_backen.Hash.{Platform, fingerprint_enquiry}
use property_platform_backen.Database.{
  World, Source, Status, NewEnquiry, Enquiry, Joined, Job, sync_enquiry, send_email, call,
  select_published, insert_enquiry, select_enquiry, select_joined, update_synced,
}
use property_platform_backen.Transaction.{with_transaction}

pub record CreateEnquiryInput : Type 0 where
  pub full_name : Text
  pub email : Text
  pub phone : Option Text
  pub property_id : ℕ
  pub message : Text
  pub source : Source

pub record CreateEnquiryContext : Type 0 where
  pub ip_address : Option Text
  pub user_agent : Option Text

abbrev pub is_empty {ℓ} : {A : Type ℓ} → List A → Bool
is_empty [] = true
is_empty (x ∷ xs) = false

abbrev add_job : Job → Exec World Unit
add_job job = modify (λ w. record w { jobs = job ∷ w.jobs })

-- `enqueueCrmSync`
unfoldable pub enqueue_crm_sync : ℕ → Exec World Unit
enqueue_crm_sync id = call (add_job (sync_enquiry id (codes "crm-sync-" ++ decimal id)))

-- `enqueueEmail`, with the template 'enquiry_confirmation' and its data
unfoldable pub enqueue_email : Text → Text → ℕ → Exec World Unit
enqueue_email to full_name id = call (add_job (send_email to full_name id))

-- `err?.errno === 1062 || err?.code === 'ER_DUP_ENTRY'`
unfoldable pub is_duplicate : Thrown → Bool
is_duplicate (app_error e) = text_eq e.code (codes "ER_DUP_ENTRY")
is_duplicate (validation_error e details) = text_eq e.code (codes "ER_DUP_ENTRY")
is_duplicate (other_error errno code message) =
    elim errno [ none ↦ false | some n ↦ n == 1062 ]
    || elim code [ none ↦ false | some c ↦ text_eq c (codes "ER_DUP_ENTRY") ]

unfoldable pub on_create_error : Thrown → Exec World Enquiry
on_create_error e w =
    if is_duplicate e
    then (raise (conflict_error (codes "An identical enquiry has already been submitted recently."))
        (record w { enquiries_duplicate_total = w.enquiries_duplicate_total + 1 }))
    else raise e w

-- `enquiry.id` where `rows[0]` is undefined
abbrev type_error : Thrown
type_error = other_error none none (codes "Cannot read properties of undefined")

unfoldable pub property_missing : ℕ → Thrown
property_missing id =
    not_found_error (codes "Property " ++ decimal id ++ codes " not found or not published")

module _ (platform : Platform) (input : CreateEnquiryInput) (ctx : CreateEnquiryContext) where
  abbrev pub fingerprint : Text
  fingerprint = fingerprint_enquiry platform (record {
    email = input.email;
    phone = input.phone;
    property_id = input.property_id;
    message = input.message;
  })

  -- The values of the INSERT.
  abbrev pub values : NewEnquiry
  values = record {
    property_id = input.property_id;
    full_name = input.full_name;
    email = input.email;
    phone = input.phone;
    message = input.message;
    source = input.source;
    fingerprint = fingerprint;
    ip_address = ctx.ip_address;
    user_agent = ctx.user_agent;
  }

  -- The function that runs inside the transaction.
  unfoldable pub create_row : Exec World (Option Enquiry)
  unfolding continue
  create_row = do
    found ← call (select_published input.property_id)
    raise_if (is_empty found) (property_missing input.property_id)
    id ← call (insert_enquiry values)
    rows ← call (select_enquiry id)
    pure (head? rows)

  -- What follows the transaction.
  unfoldable pub hand_over : Option Enquiry → Exec World Enquiry
  unfolding continue enqueue_crm_sync enqueue_email
  hand_over created = do
    enquiry ← or_raise created type_error
    enqueue_crm_sync enquiry.id
    enqueue_email enquiry.email enquiry.full_name enquiry.id
    modify (λ w. record w { enquiries_created_total = w.enquiries_created_total + 1 })
    pure enquiry

  unfoldable pub create_enquiry : Exec World Enquiry
  unfolding continue catch create_row with_transaction hand_over on_create_error
  create_enquiry w = catch on_create_error ((with_transaction create_row >>= hand_over) w)

unfoldable pub get_enquiry_by_id : ℕ → Exec World Joined
unfolding continue
get_enquiry_by_id id = do
  rows ← call (select_joined id)
  or_raise (head? rows) (not_found_error (codes "Enquiry " ++ decimal id ++ codes " not found"))

unfoldable pub mark_crm_synced : ℕ → Text → Option Status → Exec World Unit
mark_crm_synced id record_id status = call (update_synced id record_id status)

-- ===== src/App/Handlers.antt =====
-- What every handler keeps, whichever of its calls fail.
use property_platform_backen.Prelude.{ℕ, Text, Bool, not, Option, head?, List}
use property_platform_backen.Json.{Json, Fields}
use property_platform_backen.Effects.{Result, Exec, raise_if, modify}
use property_platform_backen.Effects.Keeps.{
  Keeps, Keeps-pure, Keeps-or_raise, Keeps-bind, Keeps-raise_if,
}
use property_platform_backen.Hash.{Platform}
use property_platform_backen.Database.{
  World, Status, Fault, call, select_enquiry, NewEvent, insert_event, select_joined,
}
use property_platform_backen.Database.Faults.{at, Keeps-call}
use property_platform_backen.Enquiries.{
  CreateEnquiryInput, CreateEnquiryContext, is_empty, create_enquiry, get_enquiry_by_id,
  mark_crm_synced,
}
use property_platform_backen.Listing.{ListEnquiriesParams, list_enquiries, select_page}
use property_platform_backen.EnquiryApi.{
  create_enquiry_handler, get_enquiry_handler, list_enquiries_handler,
}
use property_platform_backen.Crm.{
  Setup, WebhookRequest, crm_webhook_handler, handle_verified, log_webhook_event, apply_webhook,
  process_crm_webhook, event_row, is_signed, counted,
}
use property_platform_backen.App.{
  Settings, Request, validated_enquiry, validated_get, validated_list, validated_webhook,
}

-- What a property of the state has to survive: another list of failures, and the operations that
-- change the state.
pub record IsKept (Inv : World → Type 0) : Type 0 where
  pub failing : (fs : List Fault) (w : World) → Inv w → Inv (at fs w)
  pub creation :
      (platform : Platform) (input : CreateEnquiryInput) (ctx : CreateEnquiryContext)
      → Keeps Inv (create_enquiry platform input ctx)
  pub sync :
      (id : ℕ) (record_id : Text) (status : Option Status)
      → Keeps Inv (mark_crm_synced id record_id status)
  pub event : (is_json : Text → Bool) (r : NewEvent) → Keeps Inv (insert_event is_json r)
  pub count : (setup : Setup) (valid : Bool) → Keeps Inv (modify (counted setup valid))

module _ (Inv : World → Type 0) (kept : IsKept Inv) where
  pub called : {A : Type 0} {op : Exec World A} → Keeps Inv op → Keeps Inv (call op)
  called {A} {op} k = Keeps-call op kept.failing k

  create_enquiry_handler-Keeps :
      (platform : Platform) (input : CreateEnquiryInput) (ctx : CreateEnquiryContext)
      → Keeps Inv (create_enquiry_handler platform input ctx)
  unfolding create_enquiry_handler
  create_enquiry_handler-Keeps platform input ctx =
      Keeps-bind _ _ (kept.creation platform input ctx) (λ e. Keeps-pure _)

  get_enquiry_handler-Keeps : (id : ℕ) → Keeps Inv (get_enquiry_handler id)
  unfolding get_enquiry_handler get_enquiry_by_id select_joined
  get_enquiry_handler-Keeps id =
      Keeps-bind _ _
        (Keeps-bind _ _ (called (record { at = λ w h. h })) (λ rows. Keeps-or_raise (head? rows) _))
        (λ e. Keeps-pure _)

  list_enquiries_handler-Keeps :
      (query : ListEnquiriesParams) → Keeps Inv (list_enquiries_handler query)
  unfolding list_enquiries_handler list_enquiries select_page
  list_enquiries_handler-Keeps query =
      Keeps-bind _ _ (Keeps-bind _ _ (called (record { at = λ w h. h })) (λ rows. Keeps-pure _))
        (λ l. Keeps-pure _)

  process_crm_webhook-Keeps :
      (setup : Setup) (req : WebhookRequest) → Keeps Inv (process_crm_webhook setup req)
  unfolding process_crm_webhook select_enquiry
  process_crm_webhook-Keeps setup req = Keeps-bind _ _ (called (record { at = λ w h. h })) (λ rows.
      Keeps-bind (raise_if (is_empty rows) _) _ (Keeps-raise_if (is_empty rows) _)
        (λ _. kept.sync req.enquiry_id req.crm_record_id req.status))

  apply_webhook-Keeps :
      (setup : Setup) (req : WebhookRequest) (valid : Bool)
      → Keeps Inv (apply_webhook setup req valid)
  unfolding apply_webhook
  apply_webhook-Keeps setup req valid =
      Keeps-bind (raise_if (not valid) _) _ (Keeps-raise_if (not valid) _)
        (λ _. Keeps-bind _ _ (process_crm_webhook-Keeps setup req) (λ _. Keeps-pure _))

  log_webhook_event-Keeps :
      (setup : Setup) (req : WebhookRequest) (valid : Bool)
      → Keeps Inv (log_webhook_event setup req valid)
  unfolding log_webhook_event
  log_webhook_event-Keeps setup req valid =
      called (kept.event setup.is_json (event_row setup req valid))

  crm_webhook_handler-Keeps :
      (setup : Setup) (req : WebhookRequest) → Keeps Inv (crm_webhook_handler setup req)
  unfolding crm_webhook_handler handle_verified
  crm_webhook_handler-Keeps setup req =
      let valid = is_signed setup req in
      Keeps-bind _ _ (kept.count setup valid) (λ _.
        Keeps-bind _ _ (log_webhook_event-Keeps setup req valid)
          (λ _. apply_webhook-Keeps setup req valid))

  -- What is read of a request changes nothing.
  passed_on-Keeps : {A : Type 0} (r : Result A) → Keeps Inv (λ w. (r, w))
  passed_on-Keeps r = record { at = λ w h. h }

  module _ (settings : Settings) where
    pub validated_enquiry-Keeps :
        (req : Request) (body : Json) → Keeps Inv (validated_enquiry settings req body)
    unfolding validated_enquiry
    validated_enquiry-Keeps req body =
        Keeps-bind _ _ (passed_on-Keeps _) (λ input. create_enquiry_handler-Keeps _ input _)

    pub validated_get-Keeps : (params : Fields) → Keeps Inv (validated_get settings params)
    unfolding validated_get
    validated_get-Keeps params =
        Keeps-bind _ _ (passed_on-Keeps _) (λ id. get_enquiry_handler-Keeps id)

    pub validated_list-Keeps : (query : Fields) → Keeps Inv (validated_list settings query)
    unfolding validated_list
    validated_list-Keeps query =
        Keeps-bind _ _ (passed_on-Keeps _) (λ params. list_enquiries_handler-Keeps params)

    pub validated_webhook-Keeps :
        (req : Request) (body : Json) → Keeps Inv (validated_webhook settings req body)
    unfolding validated_webhook
    validated_webhook-Keeps req body =
        Keeps-bind _ _ (passed_on-Keeps _) (λ input. crm_webhook_handler-Keeps _ _)

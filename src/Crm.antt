-- ===== src/Crm.antt =====
-- The inbound CRM webhook: `verifyWebhookSignature`, `logWebhookEvent` and `processCrmWebhook` of
-- src/services/crm.service.ts, `pushEnquiryToCrm` of the same file, and `crmWebhookHandler` of
-- src/controllers/webhook.controller.ts. The handler runs behind the validation of its body.
pub mod Forged
pub mod Unknown
mod Tests
use property_platform_backen.Prelude.{
  ℕ, ◌+◌, Text, codes, decimal, Bool, true, false, not, Option, none, some, List, [], ◌∷◌, ◌++◌,
  take, if◌then◌else◌,
}
use property_platform_backen.Json.{Json, bool, str, obj, end, field}
use property_platform_backen.Errors.{Response, other_error, not_found_error, unauthorized_error}
use property_platform_backen.Effects.{
  Result, Exec, pure, raise, continue, ◌>>=◌, ◌>>◌, raise_if, modify,
}
use property_platform_backen.Hash.{Platform, verify_hmac_signature}
use property_platform_backen.Database.{
  World, Status, NewEvent, ProcessingStatus, received, rejected, call, insert_event, select_enquiry,
}
use property_platform_backen.Enquiries.{is_empty, mark_crm_synced}

-- What the webhook needs beside the hash functions: `env.CRM_WEBHOOK_SECRET`, `JSON.stringify` and
-- MySQL's test of a JSON text.
pub record Setup : Type 0 where
  pub platform : Platform
  pub secret : Text
  pub stringify : Json → Text
  pub is_json : Text → Bool

-- A request whose body has passed `crmWebhookSchema`.
pub record WebhookRequest : Type 0 where
  pub raw_body : Text
  pub signature : Option Text
  pub body : Json
  pub event : Text
  pub enquiry_id : ℕ
  pub crm_record_id : Text
  pub status : Option Status
  pub ip : Option Text

module _ (setup : Setup) where
  unfoldable pub verify_webhook_signature : Text → Option Text → Bool
  verify_webhook_signature raw_body none = false
  verify_webhook_signature raw_body (some []) = false
  verify_webhook_signature raw_body (some (c ∷ s)) =
      verify_hmac_signature setup.platform raw_body setup.secret (c ∷ s)

  -- `rawBody || JSON.stringify(body)`
  abbrev pub signed_text : Text → Json → Text
  signed_text [] body = setup.stringify body
  signed_text (c ∷ s) body = c ∷ s

  unfoldable pub is_signed : WebhookRequest → Bool
  is_signed req = verify_webhook_signature (signed_text req.raw_body req.body) req.signature

  -- The row that `logWebhookEvent` inserts; the payload is cut at 60000 units.
  abbrev pub event_row : WebhookRequest → Bool → NewEvent
  event_row req valid = record {
    enquiry_id = some req.enquiry_id;
    event_type = req.event;
    signature_valid = valid;
    raw_payload = take 60000 (setup.stringify req.body);
    processing_status = if valid then received else rejected;
    error_message = if valid then none else some (codes "Invalid or missing HMAC signature");
    ip_address = req.ip;
  }

  unfoldable pub log_webhook_event : WebhookRequest → Bool → Exec World Unit
  log_webhook_event req valid = call (insert_event setup.is_json (event_row req valid))

  abbrev pub counted : Bool → World → World
  counted true w = record w { webhook_valid_total = w.webhook_valid_total + 1 }
  counted false w = record w { webhook_invalid_total = w.webhook_invalid_total + 1 }

  unfoldable pub process_crm_webhook : WebhookRequest → Exec World Unit
  unfolding continue mark_crm_synced
  process_crm_webhook req = do
    rows ← call (select_enquiry req.enquiry_id)
    raise_if (is_empty rows) (
        not_found_error (
          codes "Enquiry "
          ++ decimal req.enquiry_id
          ++ codes " not found - cannot apply CRM update"))
    mark_crm_synced req.enquiry_id req.crm_record_id req.status

  abbrev pub processed_response : Response
  processed_response = record {
    status = 200;
    body = obj (
        field (codes "success") (bool true)
          (field (codes "message") (str (codes "Webhook processed")) end));
  }

  -- What follows the audit log.
  unfoldable pub apply_webhook : WebhookRequest → Bool → Exec World Response
  unfolding continue
  apply_webhook req valid = do
    raise_if (not valid) (unauthorized_error (codes "Invalid webhook signature"))
    process_crm_webhook req
    pure processed_response

  -- The handler, given whether the signature is valid.
  unfoldable pub handle_verified : WebhookRequest → Bool → Exec World Response
  unfolding continue
  handle_verified req valid = do
    modify (counted valid)
    log_webhook_event req valid
    apply_webhook req valid

  unfoldable pub crm_webhook_handler : WebhookRequest → Exec World Response
  crm_webhook_handler req = handle_verified req (is_signed req)

-- `pushEnquiryToCrm` of the worker: after 150 ms the simulated CRM fails or not, and the id holds
-- the time.
unfoldable pub push_enquiry_to_crm : Bool → ℕ → Exec World Text
unfolding continue mark_crm_synced
push_enquiry_to_crm fails id w =
    let answered = record w { now = w.now + 150 } in
    let record_id = codes "crm_" ++ decimal id ++ codes "_" ++ decimal answered.now in
    if fails
    then raise (other_error none none (codes "Simulated CRM upstream timeout")) answered
    else (mark_crm_synced id record_id none >> pure record_id) answered

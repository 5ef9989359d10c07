-- ===== src/Validators/Schemas.antt =====
-- The four schemas, and the middleware `validate`.
use property_platform_backen.Prelude.{
  ℕ, Text, codes, text_eq, length, Bool, not, all, Option, none, some, List, [], ◌∷◌, ◌++◌, ◌&&◌,
  ◌||◌, leb, ltb, ◌==◌, if◌then◌else◌,
}
use property_platform_backen.Json.{Json, obj, Fields, end}
use property_platform_backen.Errors.{new_validation_error}
use property_platform_backen.Effects.{Result, ok, err}
use property_platform_backen.Hash.{is_space, is_digit}
use property_platform_backen.Database.{
  Source, website, mobile_app, partner_portal, other, Status, new, contacted, converted, closed,
}
use property_platform_backen.Enquiries.{CreateEnquiryInput}
use property_platform_backen.Listing.{ListEnquiriesParams}
use property_platform_backen.Validators.{
  Zod, Issue, too_small, too_big, bad_email, bad_format, wrong_type, Parsed, good, bad, ◌<*>◌, when,
  get_field, conclude, check_text, check_nullable, check_number, check_optional_number,
  check_default_number, check_choice, not_positive, below_one, above, unbounded,
}

-- `[0-9+()\-\s]`
unfoldable pub is_phone_unit : ℕ → Bool
is_phone_unit c = is_digit c || c == b'+' || c == b'(' || c == b')' || c == b'-' || is_space c

-- `/^[0-9+()\-\s]{6,20}$/`
unfoldable pub is_phone : Text → Bool
is_phone t = leb 6 (length t) && leb (length t) 20 && all is_phone_unit t

unfoldable pub source_of : Text → Option Source
source_of t =
    if text_eq t (codes "website")
    then some website
    else if text_eq t (codes "mobile_app")
    then some mobile_app
    else if text_eq t (codes "partner_portal")
    then some partner_portal
    else if text_eq t (codes "other")
    then some other
    else none

unfoldable pub status_of_text : Text → Option Status
status_of_text t =
    if text_eq t (codes "new")
    then some new
    else if text_eq t (codes "contacted")
    then some contacted
    else if text_eq t (codes "converted")
    then some converted
    else if text_eq t (codes "closed")
    then some closed
    else none

unfoldable pub event_of : Text → Option Text
event_of t =
    if text_eq t (codes "lead.updated")
      || text_eq t (codes "lead.status_changed")
      || text_eq t (codes "contact.synced")
    then some t
    else none

abbrev pub name_issues : Text → List Issue
name_issues t = when (ltb (length t) 2) too_small ++ when (ltb 120 (length t)) too_big

abbrev pub phone_issues : Text → List Issue
phone_issues t = when (not (is_phone t)) bad_format

abbrev pub message_issues : Text → List Issue
message_issues t = when (ltb (length t) 1) too_small ++ when (ltb 2000 (length t)) too_big

abbrev pub record_id_issues : Text → List Issue
record_id_issues t = when (ltb (length t) 1) too_small ++ when (ltb 100 (length t)) too_big

-- The body of a webhook, without its `payload`, which no handler reads.
pub record WebhookInput : Type 0 where
  pub event : Text
  pub enquiry_id : ℕ
  pub crm_record_id : Text
  pub status : Option Status

module _ (zod : Zod) where
  abbrev pub email_issues : Text → List Issue
  email_issues t = when (not (zod.is_email t)) bad_email ++ when (ltb 254 (length t)) too_big

  -- `source`: an enum with a default.
  unfoldable pub check_source : Option Json → Parsed Source
  check_source none = good website
  check_source (some v) = check_choice zod (codes "source") website source_of (some v)

  -- `status`: an enum that may be missing.
  unfoldable pub check_status : Option Json → Parsed (Option Status)
  check_status none = good none
  check_status (some v) =
      good some <*> check_choice zod (codes "status") new status_of_text (some v)

  -- `payload`: `z.record(z.unknown()).optional()`
  unfoldable pub check_payload : Option Json → Parsed Unit
  check_payload none = good tt
  check_payload (some (obj fields)) = good tt
  check_payload (some v) = conclude zod (codes "payload") tt (wrong_type ∷ [])

  abbrev pub make_enquiry : Text → Text → Option Text → ℕ → Text → Source → CreateEnquiryInput
  make_enquiry full_name email phone property_id message source = record {
    full_name = full_name;
    email = email;
    phone = phone;
    property_id = property_id;
    message = message;
    source = source;
  }

  unfoldable pub parse_fields : Fields → Parsed CreateEnquiryInput
  parse_fields fields =
      good make_enquiry
      <*> check_text zod (codes "fullName") name_issues (get_field (codes "fullName") fields)
      <*> check_text zod (codes "email") email_issues (get_field (codes "email") fields)
      <*> check_nullable zod (codes "phone") phone_issues (get_field (codes "phone") fields)
      <*> check_number zod (codes "propertyId") not_positive unbounded
          (get_field (codes "propertyId") fields)
      <*> check_text zod (codes "message") message_issues (get_field (codes "message") fields)
      <*> check_source (get_field (codes "source") fields)

  -- `createEnquirySchema`: a body that is no object has no errors by field.
  unfoldable pub parse_create_enquiry : Json → Parsed CreateEnquiryInput
  unfolding parse_fields
  parse_create_enquiry (obj fields) = parse_fields fields
  parse_create_enquiry _ = bad end

  -- `enquiryIdParamSchema`, on the parameters of the path.
  unfoldable pub parse_enquiry_id : Fields → Parsed ℕ
  parse_enquiry_id fields =
      check_number zod (codes "id") not_positive unbounded (get_field (codes "id") fields)

  abbrev pub make_params : ℕ → ℕ → Option Status → Option ℕ → ListEnquiriesParams
  make_params page limit status cursor = record {
    page = page;
    limit = limit;
    status = status;
    cursor = cursor;
  }

  -- `listEnquiriesQuerySchema`, on the query.
  unfoldable pub parse_list_query : Fields → Parsed ListEnquiriesParams
  parse_list_query fields =
      good make_params
      <*> check_default_number zod (codes "page") below_one unbounded 1
          (get_field (codes "page") fields)
      <*> check_default_number zod (codes "limit") below_one (above 100) 20
          (get_field (codes "limit") fields)
      <*> check_status (get_field (codes "status") fields)
      <*> check_optional_number zod (codes "cursor") not_positive unbounded
          (get_field (codes "cursor") fields)

  abbrev pub make_webhook : Text → ℕ → Text → Option Status → Unit {0} → WebhookInput
  make_webhook event enquiry_id crm_record_id status payload = record {
    event = event;
    enquiry_id = enquiry_id;
    crm_record_id = crm_record_id;
    status = status;
  }

  -- `crmWebhookSchema`
  unfoldable pub parse_crm_webhook : Json → Parsed WebhookInput
  parse_crm_webhook (obj fields) =
      good make_webhook
      <*> check_choice zod (codes "event") [] event_of (get_field (codes "event") fields)
      <*> check_number zod (codes "enquiryId") not_positive unbounded
          (get_field (codes "enquiryId") fields)
      <*> check_text zod (codes "crmRecordId") record_id_issues
          (get_field (codes "crmRecordId") fields)
      <*> check_status (get_field (codes "status") fields)
      <*> check_payload (get_field (codes "payload") fields)
  parse_crm_webhook _ = bad end

-- `validate`: what the handler is given, or the error that is thrown.
unfoldable pub validate : {A : Type 0} → Parsed A → Result A
validate (good a) = ok a
validate (bad errors) =
    err (new_validation_error (codes "Request validation failed") (some (obj errors)))

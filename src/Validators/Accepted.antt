-- ===== src/Validators/Accepted.antt =====
-- What the validation spares the services.
use property_platform_backen.Prelude.{
  ℕ, ◌≤◌, ◌≡◌, refl, Text, length, characters-le-length, utf8_length, utf8_length_le, leb, Bool,
  true, Option, none, some, if◌then◌else◌, arith,
}
use property_platform_backen.Json.{Json, Fields}
use property_platform_backen.Effects.{ok}
use property_platform_backen.Hash.{Platform}
use property_platform_backen.Database.{World, fits, columns_fit, has_fingerprint}
use property_platform_backen.Transaction.Calm.{calm}
use property_platform_backen.Enquiries.{CreateEnquiryInput, CreateEnquiryContext, values}
use property_platform_backen.Enquiries.Create.{is_missing}
use property_platform_backen.EnquiryApi.{respond, create_enquiry_handler}
use property_platform_backen.EnquiryApi.Statuses.{post_status}
use property_platform_backen.Listing.{ListEnquiriesParams, list_enquiries, Listing}
use property_platform_backen.Listing.Size.{length-list_enquiries}
use property_platform_backen.Validators.{Zod, good}
use property_platform_backen.Validators.Schemas.{parse_create_enquiry, parse_list_query}
use property_platform_backen.Validators.Bounds.{
  IsBounded, PhoneIsBounded, parse_create_enquiry-IsBounded, parse_list_query_bounds,
}

fits_of_le : (n : ℕ) (t : Text) → length t ≤ n → fits n (some t) ≡ true
fits_of_le n t h = let fewer = characters-le-length t in ground arith

phone_fits : (o : Option Text) → PhoneIsBounded o → fits 20 o ≡ true
phone_fits none h = refl
phone_fits (some t) h = fits_of_le 20 t h.1

short_message : (t : Text) → length t ≤ 2000 → leb (utf8_length t) 65535 ≡ true
short_message t h = let fewer = utf8_length_le t in ground arith

-- What Express and the client decide of a row: the widths of the address and the user agent.
abbrev pub ContextFits : CreateEnquiryContext → Type 0
ContextFits ctx = (fits 45 ctx.ip_address ≡ true) × (fits 255 ctx.user_agent ≡ true)

columns_fit_of_IsBounded :
    (platform : Platform) (input : CreateEnquiryInput) (ctx : CreateEnquiryContext)
    → IsBounded input
    → ContextFits ctx
    → columns_fit (values platform input ctx) ≡ true
unfolding columns_fit
columns_fit_of_IsBounded platform input ctx h c = rw (
  fits_of_le 120 input.full_name h.name_high,
  fits_of_le 254 input.email h.email_high,
  phone_fits input.phone h.phone,
  short_message input.message h.message_high,
  c.0,
  c.1,
)

-- A validated body fits its columns: where every call is answered, and the address and the user
-- agent of the request fit theirs, POST /api/enquiry responds with 404, 409 or 201, never with
-- 500.
pub post_valid :
    (zod : Zod) (platform : Platform) (body : Json) (input : CreateEnquiryInput)
    (ctx : CreateEnquiryContext) (is_prod : Bool) (request_id : Text) (w : World)
    → parse_create_enquiry zod body ≡ good input
    → ContextFits ctx
    → (respond is_prod request_id (create_enquiry_handler platform input ctx (calm w))).0.status ≡ (
        if is_missing platform input ctx w
        then 404
        else if has_fingerprint (values platform input ctx).fingerprint w.enquiries
        then 409
        else 201)
post_valid zod platform body input ctx is_prod request_id w h c =
    let fit =
      columns_fit_of_IsBounded platform input ctx (parse_create_enquiry-IsBounded zod body input h)
        c in
    rw fit at (post_status platform input ctx is_prod request_id w)

-- A validated query lists at most 100 enquiries, whatever fails and however many there are.
pub list_valid_le :
    (zod : Zod) (query : Fields) (params : ListEnquiriesParams) (w : World) (l : Listing)
    → parse_list_query zod query ≡ good params
    → (list_enquiries params w).0 ≡ ok l
    → length l.rows ≤ 100
list_valid_le zod query params w l h e =
    omega
      (arith, (parse_list_query_bounds zod query params h).2, length-list_enquiries params l w e)

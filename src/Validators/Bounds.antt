-- ===== src/Validators/Bounds.antt =====
-- What a validated request is bounded by.
use property_platform_backen.Prelude.{
  ℕ, ◌<◌, ◌≤◌, ◌≡◌, inl, inr, refl, ap, ◌∙◌, Text, codes, length, true, not, Option, none, some, [],
  ◌++◌, ltb, arith,
}
use property_platform_backen.Json.{Json, null, bool, num, str, arr, obj, Fields}
use property_platform_backen.Hash.{trim}
use property_platform_backen.Enquiries.{CreateEnquiryInput}
use property_platform_backen.Listing.{ListEnquiriesParams}
use property_platform_backen.Validators.{
  Zod, too_small, too_big, bad_email, bad_format, good, when, get_field, check_text, check_nullable,
  check_number, not_positive, unbounded,
}
use property_platform_backen.Validators.Checks.{
  <*>-eq-good, when-nil, whens-nil, check_text-eq-good, check_nullable-eq-good,
  check_number-eq-good, check_default_number-eq-good,
}
use property_platform_backen.Validators.Schemas.{
  is_phone, name_issues, email_issues, phone_issues, message_issues, check_source, make_enquiry,
  make_params, parse_fields, parse_create_enquiry, parse_list_query,
}

module _ (zod : Zod) where
  -- Each field of the input is what the check of its field gave.
  pub record IsChecked (fields : Fields) (input : CreateEnquiryInput) : Type 0 where
    pub full_name :
        check_text zod (codes "fullName") name_issues (get_field (codes "fullName") fields)
        ≡ good input.full_name
    pub email :
        check_text zod (codes "email") (email_issues zod) (get_field (codes "email") fields)
        ≡ good input.email
    pub phone :
        check_nullable zod (codes "phone") phone_issues (get_field (codes "phone") fields)
        ≡ good input.phone
    pub property_id :
        check_number zod
          (codes "propertyId")
          not_positive
          unbounded
          (get_field (codes "propertyId") fields)
        ≡ good input.property_id
    pub message :
        check_text zod (codes "message") message_issues (get_field (codes "message") fields)
        ≡ good input.message
    pub source : check_source zod (get_field (codes "source") fields) ≡ good input.source

  parse_fields-IsChecked :
      (fields : Fields) (input : CreateEnquiryInput)
      → parse_fields zod fields ≡ good input
      → IsChecked fields input
  unfolding parse_fields
  parse_fields-IsChecked fields input h =
      let (f, source, h, source_ok, e) = <*>-eq-good h in
      let (g, message, h, message_ok, e') = <*>-eq-good h in
      let (f', id, h, id_ok, d) = <*>-eq-good h in
      let (g', phone, h, phone_ok, d') = <*>-eq-good h in
      let (k, email, h, email_ok, c) = <*>-eq-good h in
      let (k', name, h, name_ok, c') = <*>-eq-good h in
      let same : make_enquiry zod name email phone id message source ≡ input = cc in
      record {
        full_name = name_ok ∙ ap (λ i. good i.full_name) same;
        email = email_ok ∙ ap (λ i. good i.email) same;
        phone = phone_ok ∙ ap (λ i. good i.phone) same;
        property_id = id_ok ∙ ap (λ i. good i.property_id) same;
        message = message_ok ∙ ap (λ i. good i.message) same;
        source = source_ok ∙ ap (λ i. good i.source) same;
      }

  pub parse_create_enquiry-IsChecked :
      (body : Json) (input : CreateEnquiryInput)
      → parse_create_enquiry zod body ≡ good input
      → (fields : Fields) × (body ≡ obj fields) × IsChecked fields input
  unfolding parse_create_enquiry
  parse_create_enquiry-IsChecked (obj fields) input h =
      (fields, refl, parse_fields-IsChecked fields input h)
  parse_create_enquiry-IsChecked null input h = cc
  parse_create_enquiry-IsChecked (bool b) input h = cc
  parse_create_enquiry-IsChecked (num n) input h = cc
  parse_create_enquiry-IsChecked (str s) input h = cc
  parse_create_enquiry-IsChecked (arr items) input h = cc

abbrev pub PhoneIsBounded : Option Text → Type 0
PhoneIsBounded none = Unit
PhoneIsBounded (some t) = (6 ≤ length t) × (length t ≤ 20)

pub record IsBounded (input : CreateEnquiryInput) : Type 0 where
  pub name_low : 2 ≤ length input.full_name
  pub name_high : length input.full_name ≤ 120
  pub email_high : length input.email ≤ 254
  pub phone : PhoneIsBounded input.phone
  pub property_low : 0 < input.property_id
  pub message_low : 1 ≤ length input.message
  pub message_high : length input.message ≤ 2000

two_bounds :
    (low high n : ℕ)
    → when (ltb n low) too_small ++ when (ltb high n) too_big ≡ []
    → (low ≤ n) × (n ≤ high)
two_bounds low high n h =
    let (l, r) = whens-nil (ltb n low) (ltb high n) too_small too_big h in
    (ground arith, ground arith)

is_phone-IsBounded : (t : Text) → is_phone t ≡ true → (6 ≤ length t) × (length t ≤ 20)
unfolding is_phone
is_phone-IsBounded t h = ground arith

module _ (zod : Zod) (fields : Fields) (input : CreateEnquiryInput)
    (checked : IsChecked zod fields input) where
  phone_bounded : PhoneIsBounded input.phone
  phone_bounded = elim (check_nullable-eq-good zod _ _ _ input.phone checked.phone) [
    | inl missing ↦ rw missing tt
    | inr (s, there, fine) ↦ rw there (
        is_phone-IsBounded (trim s)
          (ground (arith, when-nil (not (is_phone (trim s))) bad_format fine)))
  ]

  IsChecked-IsBounded : IsBounded input
  IsChecked-IsBounded =
      let (_, _, _, name) = check_text-eq-good zod _ _ _ input.full_name checked.full_name in
      let (_, _, _, email) = check_text-eq-good zod _ _ _ input.email checked.email in
      let (_, _, _, message) = check_text-eq-good zod _ _ _ input.message checked.message in
      let (_, id, _) = check_number-eq-good zod _ _ _ _ input.property_id checked.property_id in
      let (_, high) = whens-nil _ (ltb 254 (length input.email)) bad_email too_big email in
      let (name_low, name_high) = two_bounds 2 120 (length input.full_name) name in
      let (message_low, message_high) = two_bounds 1 2000 (length input.message) message in
      record {
        name_low = name_low;
        name_high = name_high;
        email_high = ground arith;
        phone = phone_bounded;
        property_low = ground arith;
        message_low = message_low;
        message_high = message_high;
      }

-- A body that `createEnquirySchema` accepts has a name of 2 to 120 units, an address of at most
-- 254, a phone number of 6 to 20 if there is one, a message of 1 to 2000 and an id above 0.
pub parse_create_enquiry-IsBounded :
    (zod : Zod) (body : Json) (input : CreateEnquiryInput)
    → parse_create_enquiry zod body ≡ good input
    → IsBounded input
parse_create_enquiry-IsBounded zod body input h =
    let (fields, _, checked) = parse_create_enquiry-IsChecked zod body input h in
    IsChecked-IsBounded zod fields input checked

-- A query that `listEnquiriesQuerySchema` accepts has a page of 1 or more, and a limit of 1 to
-- 100.
pub parse_list_query_bounds :
    (zod : Zod) (fields : Fields) (params : ListEnquiriesParams)
    → parse_list_query zod fields ≡ good params
    → (1 ≤ params.page) × (1 ≤ params.limit) × (params.limit ≤ 100)
unfolding parse_list_query
parse_list_query_bounds zod fields params h =
    let (f, cursor, h, _, e) = <*>-eq-good h in
    let (g, status, h, _, e') = <*>-eq-good h in
    let (f', limit, h, limit_ok, d) = <*>-eq-good h in
    let (g', page, h, page_ok, d') = <*>-eq-good h in
    let same : make_params zod page limit status cursor ≡ params = cc in
    let pages = check_default_number-eq-good zod _ _ _ 1 _ page page_ok in
    let limits = check_default_number-eq-good zod _ _ _ 20 _ limit limit_ok in ground arith

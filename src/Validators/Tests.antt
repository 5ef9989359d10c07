-- ===== src/Validators/Tests.antt =====
-- Instances of the theorems on validation, and runs of the schemas.
use property_platform_backen.Prelude.{
  characters, characters_from, ◌≡◌, refl, codes, text_eq, true, Option, some, [], if◌then◌else◌,
}
use property_platform_backen.Json.{Json, num, str, obj, end, field}
use property_platform_backen.Hash.{
  is_space, is_digit, trim_start, cons_unless_blank, trim_end, trim,
}
use property_platform_backen.Database.{fits, has_fingerprint, website}
use property_platform_backen.Transaction.Calm.{calm}
use property_platform_backen.Enquiries.{CreateEnquiryInput, values}
use property_platform_backen.Enquiries.Create.{is_missing}
use property_platform_backen.EnquiryApi.{respond, create_enquiry_handler}
use property_platform_backen.Validators.{
  Zod, Number, nan, whole, good, ◌<*>◌, get_field, conclude, check_text, check_nullable,
  check_number,
}
use property_platform_backen.Validators.Schemas.{
  is_phone_unit, is_phone, check_source, parse_fields, parse_create_enquiry,
}
use property_platform_backen.Validators.Accepted.{post_valid}
use property_platform_backen.Samples.{plain, browser, town}

abbrev number : Option Json → Number
number (some (num n)) = whole n
number _ = nan

abbrev simple : Zod
simple = record { number_of = number; is_email = λ t. true; message_of = λ issue. codes "no" }

-- The payload of the repository's own test.
abbrev jane : Json
jane = obj (
    field (codes "fullName") (str (codes " Jane Doe")) (
      field (codes "email") (str (codes "jane@example.com")) (
        field (codes "phone") (str (codes "+919876543210")) (
          field (codes "propertyId") (num 7)
            (field (codes "message") (str (codes "Interested in a viewing")) end)))))

abbrev jane_parsed : CreateEnquiryInput
jane_parsed = record {
  full_name = codes "Jane Doe";
  email = codes "jane@example.com";
  phone = some (codes "+919876543210");
  property_id = 7;
  message = codes "Interested in a viewing";
  source = website;
}

jane_accepted : parse_create_enquiry simple jane ≡ good jane_parsed
unfolding parse_create_enquiry parse_fields get_field codes text_eq check_text check_nullable
    check_number check_source conclude ◌<*>◌ trim trim_start trim_end cons_unless_blank is_space
    is_digit is_phone is_phone_unit
jane_accepted = refl

browser_fits : fits 45 browser.ip_address ≡ true
unfolding codes characters characters_from
browser_fits = refl

post_valid_example :
    (respond true
      (codes "r1")
      (create_enquiry_handler plain jane_parsed browser (calm (town [])))).0.status
    ≡ (if is_missing plain jane_parsed browser (town [])
        then 404
        else if has_fingerprint (values plain jane_parsed browser).fingerprint (town []).enquiries
        then 409
        else 201)
post_valid_example =
    post_valid simple plain jane jane_parsed browser true (codes "r1") (town []) jane_accepted
      (browser_fits, refl)

-- ===== src/Validators/Again.antt =====
-- Validating what a validation has let through.
use property_platform_backen.Prelude.{
  ℕ, ◌≡◌, inl, inr, refl, Text, codes, text_eq, Option, some, List,
}
use property_platform_backen.Json.{Json, num, str, obj, end, field, str_or_null}
use property_platform_backen.Hash.{trim}
use property_platform_backen.Hash.Trim.{trim-twice}
use property_platform_backen.Database.{Source, website, mobile_app, partner_portal, other}
use property_platform_backen.Enquiries.{CreateEnquiryInput}
use property_platform_backen.Validators.{
  Zod, Issue, whole, good, ◌<*>◌, get_field, conclude, check_text, check_nullable, check_number,
  check_choice, choice, not_positive, unbounded,
}
use property_platform_backen.Validators.Checks.{
  check_text-eq-good, check_nullable-eq-good, check_number-eq-good,
}
use property_platform_backen.Validators.Schemas.{
  source_of, check_source, parse_fields, parse_create_enquiry,
}
use property_platform_backen.Validators.Bounds.{parse_create_enquiry-IsChecked}

abbrev pub source_text : Source → Text
source_text website = codes "website"
source_text mobile_app = codes "mobile_app"
source_text partner_portal = codes "partner_portal"
source_text other = codes "other"

-- The validated body, which replaces the one that was sent.
abbrev pub encoded : CreateEnquiryInput → Json
encoded input = obj (
    field (codes "fullName") (str input.full_name) (
      field (codes "email") (str input.email) (
        field (codes "phone") (str_or_null input.phone) (
          field (codes "propertyId") (num input.property_id) (
            field (codes "message") (str input.message)
              (field (codes "source") (str (source_text input.source)) end))))))

module _ (zod : Zod) where
  check_text_again :
      (name : Text) (issues : Text → List Issue) (v : Option Json) (t : Text)
      → check_text zod name issues v ≡ good t
      → check_text zod name issues (some (str t)) ≡ good t
  unfolding check_text conclude
  check_text_again name issues v t h =
      let (s, _, same, fine) = check_text-eq-good zod name issues v t h in
      let fixed : trim t ≡ t = rw same at (trim-twice s) in rw (fixed, fine)

  check_nullable_again :
      (name : Text) (issues : Text → List Issue) (v : Option Json) (o : Option Text)
      → check_nullable zod name issues v ≡ good o
      → check_nullable zod name issues (some (str_or_null o)) ≡ good o
  unfolding check_nullable conclude
  check_nullable_again name issues v o h = elim (check_nullable-eq-good zod name issues v o h) [
    | inl missing ↦ rw missing refl
    | inr (s, there, fine) ↦ rw (there, trim-twice s, fine)
  ]

  check_source_again : (s : Source) → check_source zod (some (str (source_text s))) ≡ good s
  unfolding check_source check_choice choice source_of codes text_eq
  check_source_again website = refl
  check_source_again mobile_app = refl
  check_source_again partner_portal = refl
  check_source_again other = refl

  module _ (numeric : (n : ℕ) → zod.number_of (some (num n)) ≡ whole n) where
    check_number_again :
        (name : Text) (v : Option Json) (n : ℕ)
        → check_number zod name not_positive unbounded v ≡ good n
        → check_number zod name not_positive unbounded (some (num n)) ≡ good n
    unfolding check_number conclude
    check_number_again name v n h =
        let (_, low, _) = check_number-eq-good zod name not_positive unbounded v n h in
        rw (numeric n, low)

    -- If `Number` leaves a number alone, a body that `createEnquirySchema` accepts is turned into
    -- one that it accepts with the same result: no field changes when it is validated again.
    pub parse_create_enquiry_again :
        (body : Json) (input : CreateEnquiryInput)
        → parse_create_enquiry zod body ≡ good input
        → parse_create_enquiry zod (encoded input) ≡ good input
    unfolding parse_create_enquiry parse_fields get_field codes text_eq ◌<*>◌
    parse_create_enquiry_again body input h =
        let (fields, _, c) = parse_create_enquiry-IsChecked zod body input h in
        rw (
          check_text_again _ _ _ input.full_name c.full_name,
          check_text_again _ _ _ input.email c.email,
          check_nullable_again _ _ _ input.phone c.phone,
          check_number_again _ _ input.property_id c.property_id,
          check_text_again _ _ _ input.message c.message,
          check_source_again input.source,
        )

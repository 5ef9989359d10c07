-- ===== src/EnquiryApi/Statuses.antt =====
-- The status of every response to POST /api/enquiry.
use property_platform_backen.Prelude.{◌≡◌, Text, Bool, not, inl, inr, Bool-cases, if◌then◌else◌}
use property_platform_backen.Errors.{error_handler, not_found_error, conflict_error}
use property_platform_backen.Effects.{continue}
use property_platform_backen.Hash.{Platform}
use property_platform_backen.Database.{World, columns_fit, has_fingerprint, mysql_error}
use property_platform_backen.Transaction.Calm.{calm}
use property_platform_backen.Enquiries.{
  CreateEnquiryInput, CreateEnquiryContext, values, property_missing,
}
use property_platform_backen.Enquiries.Create.{is_missing, create_enquiry_cases}
use property_platform_backen.EnquiryApi.{respond, create_enquiry_handler}

module _ (platform : Platform) (input : CreateEnquiryInput) (ctx : CreateEnquiryContext) where
  -- Where every call is answered, POST /api/enquiry responds with 404 if no property of that id is
  -- published, with 500 if a column is too long, with 409 if the fingerprint is taken, and else
  -- with 201.
  pub post_status :
      (is_prod : Bool) (request_id : Text) (w : World)
      → (respond is_prod request_id (create_enquiry_handler platform input ctx (calm w))).0.status
        ≡ (if is_missing platform input ctx w
            then 404
            else if not (columns_fit (values platform input ctx))
            then 500
            else if has_fingerprint (values platform input ctx).fingerprint w.enquiries
            then 409
            else 201)
  unfolding respond create_enquiry_handler continue error_handler property_missing not_found_error
      conflict_error mysql_error
  post_status is_prod request_id w =
      rw (create_enquiry_cases platform input ctx w)
        (elim (Bool-cases (is_missing platform input ctx w)) [
          | inl missing ↦ rw missing
          | inr found ↦ elim (Bool-cases (columns_fit (values platform input ctx))) [
            | inr long ↦ rw (found, long)
            | inl fit ↦
                elim (Bool-cases
                  (has_fingerprint (values platform input ctx).fingerprint w.enquiries)) [
                    | inl taken ↦ rw (found, fit, taken)
                    | inr free ↦ rw (found, fit, free)
                  ]
          ]
        ])

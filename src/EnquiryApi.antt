-- ===== src/EnquiryApi.antt =====
-- src/controllers/enquiry.controller.ts, with `asyncHandler` of src/middleware/errorHandler.ts:
-- what the endpoints under /api/enquiry and /api/enquiries respond to a validated request.
pub mod Statuses
pub mod ReadBack
mod Tests
use property_platform_backen.Prelude.{ℕ, Text, codes, Bool, true, List, [], ◌∷◌}
use property_platform_backen.Json.{
  Json, bool, num, str, arr, obj, Items, nil, cons, Fields, end, field, str_or_null, num_or_null,
}
use property_platform_backen.Errors.{Response, error_handler}
use property_platform_backen.Effects.{Result, ok, err, Exec, pure, continue, ◌>>=◌}
use property_platform_backen.Hash.{Platform}
use property_platform_backen.Database.{
  World, Status, new, contacted, converted, closed, Enquiry, Joined,
}
use property_platform_backen.Enquiries.{
  CreateEnquiryInput, CreateEnquiryContext, create_enquiry, get_enquiry_by_id,
}
use property_platform_backen.Listing.{
  ListEnquiriesParams, Listing, Pagination, by_cursor, by_page, list_enquiries,
}

-- `asyncHandler`: an error that the handler throws reaches `errorHandler`.
unfoldable pub respond : {S : Type 0} → Bool → Text → Result Response × S → Response × S
respond is_prod request_id (ok res, w) = (res, w)
respond is_prod request_id (err e, w) = ((error_handler is_prod request_id e).1, w)

abbrev pub status_text : Status → Text
status_text new = codes "new"
status_text contacted = codes "contacted"
status_text converted = codes "converted"
status_text closed = codes "closed"

abbrev success : Json → Json
success body = obj (field (codes "success") (bool true) (field (codes "data") body end))

-- A date is given as its time.
unfoldable pub created_body : Enquiry → Json
created_body e = success (
    obj (
      field (codes "id") (num e.id) (
        field (codes "propertyId") (num e.property_id) (
          field (codes "fullName") (str e.full_name) (
            field (codes "email") (str e.email) (
              field (codes "status") (str (status_text e.status))
                (field (codes "createdAt") (num e.created_at) end)))))))

unfoldable pub enquiry_body : Joined → Json
enquiry_body e = success (
    obj (
      field (codes "id") (num e.id) (
        field (codes "propertyId") (num e.property_id) (
          field (codes "propertyTitle") (str e.property_title) (
            field (codes "fullName") (str e.full_name) (
              field (codes "email") (str e.email) (
                field (codes "phone") (str_or_null e.phone) (
                  field (codes "message") (str e.message) (
                    field (codes "status") (str (status_text e.status)) (
                      field (codes "crmRecordId") (str_or_null e.crm_record_id)
                        (field (codes "createdAt") (num e.created_at) end)))))))))))

abbrev listed : Joined → Json
listed e = obj (
    field (codes "id") (num e.id) (
      field (codes "propertyId") (num e.property_id) (
        field (codes "propertyTitle") (str e.property_title) (
          field (codes "fullName") (str e.full_name) (
            field (codes "email") (str e.email) (
              field (codes "status") (str (status_text e.status))
                (field (codes "createdAt") (num e.created_at) end)))))))

listed_all : List Joined → Items
listed_all [] = nil
listed_all (e ∷ es) = cons (listed e) (listed_all es)

abbrev pagination_json : Pagination → Json
pagination_json (by_cursor next limit) =
    obj (field (codes "nextCursor") (num_or_null next) (field (codes "limit") (num limit) end))
pagination_json (by_page page limit total total_pages) = obj (
    field (codes "page") (num page) (
      field (codes "limit") (num limit)
        (field (codes "total") (num total) (field (codes "totalPages") (num total_pages) end))))

unfoldable pub listing_body : Listing → Json
unfolding listed_all
listing_body l = obj (
    field (codes "success") (bool true) (
      field (codes "data") (arr (listed_all l.rows))
        (field (codes "pagination") (pagination_json l.pagination) end)))

unfoldable pub create_enquiry_handler :
    Platform → CreateEnquiryInput → CreateEnquiryContext → Exec World Response
unfolding continue
create_enquiry_handler platform input ctx = do
  enquiry ← create_enquiry platform input ctx
  pure (record { status = 201; body = created_body enquiry })

unfoldable pub get_enquiry_handler : ℕ → Exec World Response
unfolding continue
get_enquiry_handler id = do
  enquiry ← get_enquiry_by_id id
  pure (record { status = 200; body = enquiry_body enquiry })

unfoldable pub list_enquiries_handler : ListEnquiriesParams → Exec World Response
unfolding continue
list_enquiries_handler query = do
  result ← list_enquiries query
  pure (record { status = 200; body = listing_body result })

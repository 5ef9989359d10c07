-- ===== src/EnquiryApi/Tests.antt =====
-- Instances of the theorems on the endpoints of enquiries.
use property_platform_backen.Prelude.{◌≡◌, refl, Text, []}
use property_platform_backen.Effects.{ok}
use property_platform_backen.Database.{row_of}
use property_platform_backen.Transaction.Calm.{calm}
use property_platform_backen.Enquiries.{values}
use property_platform_backen.EnquiryApi.{
  created_body, enquiry_body, create_enquiry_handler, get_enquiry_handler,
}
use property_platform_backen.EnquiryApi.ReadBack.{post_then_get}
use property_platform_backen.Samples.{
  question_fits, question_is_new, plain, question, browser, town,
}

post_then_get_example :
    let (posted, u) = create_enquiry_handler plain question browser (calm (town [])) in
    (posted
      ≡ ok (record {
        status = 201;
        body = created_body (row_of (values plain question browser) (town []));
      }))
    × ((title : Text) × ((get_enquiry_handler 3 u).0
          ≡ ok (record {
            status = 200;
            body = enquiry_body (record {
              enquiry = row_of (values plain question browser) (town []);
              property_title = title;
            });
          })))
post_then_get_example =
    post_then_get plain question browser (town []) refl question_fits question_is_new

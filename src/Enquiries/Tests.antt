-- ===== src/Enquiries/Tests.antt =====
-- Instances of the theorems on the creation of enquiries.
use property_platform_backen.Prelude.{◌≡◌, refl, codes, [], ◌∷◌}
use property_platform_backen.Effects.{err}
use property_platform_backen.Errors.{conflict_error}
use property_platform_backen.Database.{answered, refused, lost_connection, row_of}
use property_platform_backen.Transaction.Calm.{calm}
use property_platform_backen.Enquiries.{create_enquiry, values}
use property_platform_backen.Enquiries.Create.{expected, create_enquiry_cases}
use property_platform_backen.Enquiries.Atomic.{Ends, create_enquiry_atomic}
use property_platform_backen.Enquiries.Outage.{queue_down, create_enquiry_strands}
use property_platform_backen.Samples.{
  question_fits, question_is_new, plain, question, browser, town,
}

create_enquiry_cases_example :
    create_enquiry plain question browser (calm (town []))
    ≡ expected plain question browser (town [])
create_enquiry_cases_example = create_enquiry_cases plain question browser (town [])

create_enquiry_atomic_example :
    Ends plain question browser
      (town (answered ∷ refused ∷ []))
      (create_enquiry plain question browser (town (answered ∷ refused ∷ [])))
create_enquiry_atomic_example =
    create_enquiry_atomic plain question browser (town (answered ∷ refused ∷ [])) refl

create_enquiry_strands_example :
    let (reply, u) = create_enquiry plain question browser (queue_down (town [])) in
    (reply ≡ err lost_connection)
    × (u.enquiries ≡ row_of (values plain question browser) (town []) ∷ (town []).enquiries)
    × (u.jobs ≡ (town []).jobs)
    × ((create_enquiry plain question browser u).0
        ≡ err (conflict_error (codes "An identical enquiry has already been submitted recently.")))
create_enquiry_strands_example =
    create_enquiry_strands plain question browser (town []) refl question_fits question_is_new

-- ===== src/EnquiryApi/ReadBack.antt =====
-- Reading an enquiry back after its creation.
use property_platform_backen.Prelude.{
  ◌≡◌, refl, ◌∙◌, Text, true, false, inl, inr, List, [], ◌∷◌, ◌++◌, select, take, Bool-cases, ◌==◌,
  ==_refl,
}
use property_platform_backen.Effects.{ok, continue}
use property_platform_backen.Hash.{Platform}
use property_platform_backen.Database.{
  World, Property, Enquiry, Joined, call, columns_fit, has_fingerprint, has_property, join_row,
  join_properties, select_joined, row_of,
}
use property_platform_backen.Transaction.Calm.{calm}
use property_platform_backen.Enquiries.{
  CreateEnquiryInput, CreateEnquiryContext, values, create_enquiry, get_enquiry_by_id,
}
use property_platform_backen.Enquiries.Create.{
  is_missing, has_property_of_select, created, create_enquiry_cases,
}
use property_platform_backen.EnquiryApi.{
  enquiry_body, created_body, create_enquiry_handler, get_enquiry_handler,
}

-- An enquiry of a known property is joined, and found first under its id.
join_row_first :
    (e : Enquiry) (ps : List Property) (rest : List Joined)
    → has_property e.property_id ps ≡ true
    → (title : Text) × (take 1 (select (λ j. j.id == e.id) (join_row e ps ++ rest))
        ≡ record { enquiry = e; property_title = title } ∷ [])
unfolding has_property join_row
join_row_first e [] rest h = cc
join_row_first e (p ∷ ps) rest h = elim (Bool-cases (p.id == e.property_id)) [
  | inl same ↦ (p.title, rw (same, ==_refl e.id))
  | inr other ↦ rw other (join_row_first e ps rest (rw other at h))
]

module _ (platform : Platform) (input : CreateEnquiryInput) (ctx : CreateEnquiryContext) (w : World)
    (found : is_missing platform input ctx w ≡ false)
    (fit : columns_fit (values platform input ctx) ≡ true)
    (free : has_fingerprint (values platform input ctx).fingerprint w.enquiries ≡ false) where
  pub accepted :
      create_enquiry platform input ctx (calm w)
      ≡ (ok (row_of (values platform input ctx) w), created platform input ctx w)
  accepted = create_enquiry_cases platform input ctx w ∙ rw (found, fit, free)

  -- If a published property is named, the columns fit and the fingerprint is new, POST
  -- /api/enquiry responds with 201 and the new row, and GET /api/enquiry/:id with the next free id
  -- then responds with 200 and that row, with the title of a property.
  pub post_then_get :
      let (posted, u) = create_enquiry_handler platform input ctx (calm w) in
      (posted
        ≡ ok (record { status = 201; body = created_body (row_of (values platform input ctx) w) }))
      × ((title : Text) × ((get_enquiry_handler w.next_enquiry_id u).0
            ≡ ok (record {
              status = 200;
              body = enquiry_body (record {
                enquiry = row_of (values platform input ctx) w;
                property_title = title;
              });
            })))
  unfolding create_enquiry_handler get_enquiry_handler get_enquiry_by_id select_joined
      join_properties call continue
  post_then_get =
      let (title, first) =
        join_row_first (row_of (values platform input ctx) w) w.properties
          (join_properties w.properties w.enquiries)
          (has_property_of_select input.property_id w.properties found) in
      rw accepted (refl, (title, rw first))

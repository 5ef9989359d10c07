-- ===== src/Listing/Order.antt =====
-- The rows of the list stand in strictly descending order of their ids.
use property_platform_backen.Prelude.{
  ℕ, ◌<◌, ◌≡◌, ◌≢◌, ◌⊎◌, inl, inr, refl, ◌∙◌, Text, Bool, true, ◌&&◌, Option, List, [], ◌∷◌, select,
  ◌==◌, All, All-map, Bool-cases, ==_iff, sym, arith,
}
use property_platform_backen.Database.{Status, Property, Enquiry, Joined, join_row, join_properties}
use property_platform_backen.Database.Invariant.{IsDescending}
use property_platform_backen.Listing.{has_status, is_below, insert_desc, order_desc, matching}

abbrev pub AreDescending : List Joined → Type 0
AreDescending [] = Unit
AreDescending (j ∷ js) = All (λ o. o.id < j.id) js × AreDescending js

-- The primary key of the properties.
abbrev pub HaveDistinctIds : List Property → Type 0
HaveDistinctIds [] = Unit
HaveDistinctIds (p ∷ ps) = All (λ q. q.id ≢ p.id) ps × HaveDistinctIds ps

join_row_none :
    (e : Enquiry) (ps : List Property) → All (λ q. q.id ≢ e.property_id) ps → join_row e ps ≡ []
unfolding join_row
join_row_none e [] h = refl
join_row_none e (p ∷ ps) h = ground (arith, join_row_none e ps h.1)

-- An enquiry joins at most one property.
join_row_cases :
    (e : Enquiry) (ps : List Property)
    → HaveDistinctIds ps
    → (join_row e ps ≡ [])
      ⊎ ((t : Text) × (join_row e ps ≡ record { enquiry = e; property_title = t } ∷ []))
unfolding join_row
join_row_cases e [] h = inl refl
join_row_cases e (p ∷ ps) h = elim (Bool-cases (p.id == e.property_id)) [
  | inl same ↦ inr (
    p.title,
    let key = (==_iff p.id e.property_id).0 same in
        let rest = join_row_none e ps (All-map ps (λ q ne x. ne (x ∙ sym key)) h.0) in
        rw (same, rest),
  )
  | inr other ↦ rw other (join_row_cases e ps h.1)
]

join_properties-below :
    (n : ℕ) (ps : List Property) (es : List Enquiry)
    → HaveDistinctIds ps
    → All (λ e. e.id < n) es
    → All (λ j. j.id < n) (join_properties ps es)
unfolding join_properties
join_properties-below n ps [] d h = tt
join_properties-below n ps (e ∷ es) d h = elim (join_row_cases e ps d) [
  | inl gone ↦ rw gone (join_properties-below n ps es d h.1)
  | inr (t, one) ↦ rw one (h.0, join_properties-below n ps es d h.1)
]

join_properties-AreDescending :
    (ps : List Property) (es : List Enquiry)
    → HaveDistinctIds ps
    → IsDescending es
    → AreDescending (join_properties ps es)
unfolding join_properties
join_properties-AreDescending ps [] d h = tt
join_properties-AreDescending ps (e ∷ es) d h = elim (join_row_cases e ps d) [
  | inl gone ↦ rw gone (join_properties-AreDescending ps es d h.1)
  | inr (t, one) ↦
      rw one (join_properties-below e.id ps es d h.0, join_properties-AreDescending ps es d h.1)
]

module _ (p : Joined → Bool) where
  pub All-select_of : (P : Joined → Type 0) (js : List Joined) → All P js → All P (select p js)
  All-select_of P [] h = tt
  All-select_of P (j ∷ js) h = elim (Bool-cases (p j)) [
    | inl kept ↦ rw kept (h.0, All-select_of P js h.1)
    | inr dropped ↦ rw dropped (All-select_of P js h.1)
  ]

  -- What a filter keeps passes its test.
  pub All-select : (js : List Joined) → All (λ j. p j ≡ true) (select p js)
  All-select [] = tt
  All-select (j ∷ js) = elim (Bool-cases (p j)) [
    | inl kept ↦ rw kept (kept, All-select js)
    | inr dropped ↦ rw dropped (All-select js)
  ]

  pub select-AreDescending : (js : List Joined) → AreDescending js → AreDescending (select p js)
  select-AreDescending [] h = tt
  select-AreDescending (j ∷ js) h = elim (Bool-cases (p j)) [
    | inl kept ↦ rw kept (All-select_of (λ o. o.id < j.id) js h.0, select-AreDescending js h.1)
    | inr dropped ↦ rw dropped (select-AreDescending js h.1)
  ]

insert_desc-below :
    (j : Joined) (js : List Joined) → All (λ o. o.id < j.id) js → insert_desc j js ≡ j ∷ js
unfolding insert_desc
insert_desc-below j [] h = refl
insert_desc-below j (k ∷ ks) h = ground arith

-- Rows in order are left so.
pub order_desc_lem : (js : List Joined) → AreDescending js → order_desc js ≡ js
unfolding order_desc
order_desc_lem [] h = refl
order_desc_lem (j ∷ js) h = rw (order_desc_lem js h.1) (insert_desc-below j js h.0)

-- The rows of a sound database that match, without sorting.
pub matching-eq :
    (status : Option Status) (cursor : Option ℕ) (ps : List Property) (es : List Enquiry)
    → HaveDistinctIds ps
    → IsDescending es
    → (matching status cursor ps es
        ≡ select (λ j. has_status status j && is_below cursor j) (join_properties ps es))
      × AreDescending (matching status cursor ps es)
unfolding matching
matching-eq status cursor ps es d h =
    let rows = select (λ j. has_status status j && is_below cursor j) (join_properties ps es) in
    let sorted =
      select-AreDescending (λ j. has_status status j && is_below cursor j) (join_properties ps es)
        (join_properties-AreDescending ps es d h) in
    (order_desc_lem rows sorted, rw (order_desc_lem rows sorted) sorted)

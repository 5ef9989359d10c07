-- ===== src/Listing/Size.antt =====
-- How many rows a list has.
use property_platform_backen.Prelude.{
  ℕ, zero, suc, ◌≤◌, ◌≡◌, refl, Option, none, some, List, [], ◌∷◌, length, take, drop, arith,
}
use property_platform_backen.Effects.{Result, ok, continue}
use property_platform_backen.Database.{World, Status}
use property_platform_backen.Database.Faults.{call_cases}
use property_platform_backen.Listing.{
  ListEnquiriesParams, list_enquiries, truthy, matching, select_page, CountedRow, with_count,
  without_count, Listing, paginated, offset_of,
}

rows-paginated :
    (c : Option ℕ) (params : ListEnquiriesParams) (rows : List CountedRow)
    → (paginated c params rows).rows ≡ without_count rows
unfolding paginated
rows-paginated none params rows = refl
rows-paginated (some c) params rows = refl

length-without_count : (n : ℕ) (rows : List CountedRow) → length (without_count (take n rows)) ≤ n
unfolding without_count
length-without_count zero rows = omega arith
length-without_count (suc n) [] = omega arith
length-without_count (suc n) (r ∷ rows) = omega (arith, length-without_count n rows)

module _ (params : ListEnquiriesParams) (l : Listing) where
  page_le :
      (c : Option ℕ) (rows : List CountedRow)
      → paginated c params (take params.limit rows) ≡ l
      → length l.rows ≤ params.limit
  page_le c rows e =
      let same = rows-paginated c params (take params.limit rows) in
      rw (← e, same) (length-without_count params.limit rows)

  -- Whatever fails, a list has at most as many rows as its limit.
  pub length-list_enquiries :
      (w : World) → (list_enquiries params w).0 ≡ ok l → length l.rows ≤ params.limit
  unfolding list_enquiries select_page continue
  length-list_enquiries w =
      call_cases
        (λ (r : Result (List CountedRow) × World).
          (continue (λ rows v. (ok (paginated (truthy params.cursor) params rows), v)) r).0 ≡ ok l
          → length l.rows ≤ params.limit)
        (select_page params.status (truthy params.cursor) params.limit
          (offset_of (truthy params.cursor) params))
        w (λ gs e. page_le (truthy params.cursor) (counted params.status) (cc)) (λ gs e. cc)
        (λ gs e. cc)
    where
      counted : Option Status → List CountedRow
      counted status =
          let rows = matching status (truthy params.cursor) w.properties w.enquiries in
          drop (offset_of (truthy params.cursor) params) (with_count (length rows) rows)

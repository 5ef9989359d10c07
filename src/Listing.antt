-- ===== src/Listing.antt =====
-- `listEnquiries` of src/services/enquiry.service.ts: a page of the enquiries, by number or below a
-- cursor. The validators of the route let only a page and a limit of 1 or more through.
pub mod Order
pub mod Cursor
pub mod Pages
pub mod Size
mod Tests
use property_platform_backen.Prelude.{
  ℕ, zero, suc, ◌+◌, ◌-◌, ◌*◌, ◌/◌, Bool, true, false, ◌&&◌, Option, none, some, List, [], ◌∷◌,
  length, take, drop, head?, get_last?, select, leb, ltb, ◌==◌, if◌then◌else◌,
}
use property_platform_backen.Effects.{Result, ok, Exec, pure, continue, ◌>>=◌}
use property_platform_backen.Database.{
  World, Status, new, contacted, converted, closed, Property, Enquiry, Joined, join_properties,
  call,
}

pub record ListEnquiriesParams : Type 0 where
  pub page : ℕ
  pub limit : ℕ
  pub status : Option Status
  pub cursor : Option ℕ

abbrev rank : Status → ℕ
rank new = 0
rank contacted = 1
rank converted = 2
rank closed = 3

-- `e.status = :status`, if a status is given
unfoldable pub has_status : Option Status → Joined → Bool
has_status none j = true
has_status (some s) j = rank j.status == rank s

-- `if (cursor)`: 0 counts as none.
abbrev pub truthy : Option ℕ → Option ℕ
truthy none = none
truthy (some zero) = none
truthy (some (suc n)) = some (suc n)

-- `e.id < :cursor`, if there is a cursor
abbrev pub is_below : Option ℕ → Joined → Bool
is_below none j = true
is_below (some c) j = ltb j.id c

insert_desc : Joined → List Joined → List Joined
insert_desc j [] = j ∷ []
insert_desc j (k ∷ ks) = if leb k.id j.id then j ∷ k ∷ ks else k ∷ insert_desc j ks

-- ORDER BY e.id DESC
unfoldable pub order_desc : List Joined → List Joined
unfolding insert_desc
order_desc [] = []
order_desc (j ∷ js) = insert_desc j (order_desc js)

-- The rows that the WHERE clause keeps, in order.
unfoldable pub matching : Option Status → Option ℕ → List Property → List Enquiry → List Joined
matching status cursor ps es =
    order_desc (select (λ j. has_status status j && is_below cursor j) (join_properties ps es))

-- A row with its `COUNT(*) OVER()`, which counts before LIMIT and OFFSET.
pub record CountedRow : Type 0 where
  pub row : Joined
  pub total_count : ℕ

with_count : ℕ → List Joined → List CountedRow
with_count n [] = []
with_count n (j ∷ js) = record { row = j; total_count = n } ∷ with_count n js

without_count : List CountedRow → List Joined
without_count [] = []
without_count (r ∷ rs) = r.row ∷ without_count rs

unfoldable pub select_page : Option Status → Option ℕ → ℕ → ℕ → Exec World (List CountedRow)
unfolding with_count
select_page status cursor limit offset w =
    let rows = matching status cursor w.properties w.enquiries in
    (ok (take limit (drop offset (with_count (length rows) rows))), w)

pub data Pagination : Type 0 where
  by_cursor : Option ℕ → ℕ → Pagination
  by_page : ℕ → ℕ → ℕ → ℕ → Pagination

pub record Listing : Type 0 where
  pub rows : List Joined
  pub pagination : Pagination

-- `Math.ceil(total / limit)`
abbrev pub ceil_div : ℕ → ℕ → ℕ
ceil_div total limit = (total + (limit - 1)) / limit

-- `rows[0]?.total_count ?? 0`
abbrev total_of : List CountedRow → ℕ
total_of [] = 0
total_of (r ∷ rs) = r.total_count

abbrev pub id_of : Option Joined → Option ℕ
id_of none = none
id_of (some j) = some j.id

paginated : Option ℕ → ListEnquiriesParams → List CountedRow → Listing
unfolding without_count
paginated (some c) params rows = record {
  rows = without_count rows;
  pagination = by_cursor (id_of (get_last? (without_count rows))) params.limit;
}
paginated none params rows = record {
  rows = without_count rows;
  pagination =
      by_page params.page params.limit (total_of rows) (ceil_div (total_of rows) params.limit);
}

-- The OFFSET, which a query with a cursor does not have.
abbrev offset_of : Option ℕ → ListEnquiriesParams → ℕ
offset_of none params = (params.page - 1) * params.limit
offset_of (some c) params = 0

unfoldable pub list_enquiries : ListEnquiriesParams → Exec World Listing
unfolding continue paginated select_page
list_enquiries params = do
  let cursor = truthy params.cursor
  rows ← call (select_page params.status cursor params.limit (offset_of cursor params))
  pure (paginated cursor params rows)

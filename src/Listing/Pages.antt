-- ===== src/Listing/Pages.antt =====
-- The pages of the list: what each holds, and that together they hold every matching row once.
use property_platform_backen.Prelude.{
  ℕ, zero, suc, ◌+◌, ◌-◌, ◌*◌, ◌<◌, ◌≤◌, ◌≡◌, refl, ap, ◌∙◌, sym, Option, none, some, List, [], ◌∷◌,
  ◌++◌, length, take, drop, select, get_last?, arith, ◌&&◌, Bool, true, false, if◌then◌else◌,
}
use property_platform_backen.Effects.{Result, ok, err}
use property_platform_backen.Database.{World, Status, Joined, call, join_properties}
use property_platform_backen.Database.Invariant.{IsDescending}
use property_platform_backen.Listing.{
  ListEnquiriesParams, list_enquiries, matching, with_count, without_count, Listing, by_cursor,
  by_page, id_of, ceil_div, total_of, has_status, is_below,
}
use property_platform_backen.Listing.Order.{AreDescending, HaveDistinctIds, matching-eq}

-- A state in which every coming call is answered.
abbrev pub answering : World → World
answering w = record w { faults = [] }

abbrev pub is_nil : List Joined → Bool
is_nil [] = true
is_nil (j ∷ js) = false

without_count-page :
    (n m k : ℕ) (js : List Joined)
    → without_count (take n (drop m (with_count k js))) ≡ take n (drop m js)
unfolding with_count without_count
without_count-page zero m k js = refl
without_count-page (suc n) zero k [] = refl
without_count-page (suc n) zero k (j ∷ js) = ap (λ r. j ∷ r) (without_count-page n zero k js)
without_count-page (suc n) (suc m) k [] = refl
without_count-page (suc n) (suc m) k (j ∷ js) = without_count-page (suc n) m k js

-- The count of a page is that of all matching rows, or 0 if the page is empty.
total_of-page :
    (n m k : ℕ) (js : List Joined)
    → total_of (take n (drop m (with_count k js))) ≡ (if is_nil (take n (drop m js)) then 0 else k)
unfolding with_count
total_of-page zero m k js = refl
total_of-page (suc n) zero k [] = refl
total_of-page (suc n) zero k (j ∷ js) = refl
total_of-page (suc n) (suc m) k [] = refl
total_of-page (suc n) (suc m) k (j ∷ js) = total_of-page (suc n) m k js

module _ (status : Option Status) (limit : ℕ) (w : World) where
  -- All rows that the status and the cursor let through.
  abbrev pub all_rows : Option ℕ → List Joined
  all_rows cursor = matching status cursor w.properties w.enquiries

  abbrev pub by_number : ℕ → ListEnquiriesParams
  by_number page = record { page = page; limit = limit; status = status; cursor = none }

  abbrev pub below : ℕ → ListEnquiriesParams
  below c = record { page = 1; limit = limit; status = status; cursor = some c }

  -- What a request for a page by its number returns.
  abbrev pub numbered_page : ℕ → Listing
  numbered_page page =
      let rows = take limit (drop ((page - 1) * limit) (all_rows none)) in
      let total = if is_nil rows then 0 else length (all_rows none) in
      record { rows = rows; pagination = by_page page limit total (ceil_div total limit) }

  list_enquiries-by_number :
      (page : ℕ)
      → list_enquiries (by_number page) (answering w) ≡ (ok (numbered_page page), answering w)
  unfolding list_enquiries call
  list_enquiries-by_number page = rw (
    without_count-page limit ((page - 1) * limit) (length (all_rows none)) (all_rows none),
    total_of-page limit ((page - 1) * limit) (length (all_rows none)) (all_rows none),
  )

  abbrev pub cursor_page : ℕ → Listing
  cursor_page c =
      let rows = take limit (all_rows (some c)) in
      record { rows = rows; pagination = by_cursor (id_of (get_last? rows)) limit }

  pub list_enquiries-below :
      (c : ℕ) → 0 < c → list_enquiries (below c) (answering w) ≡ (ok (cursor_page c), answering w)
  unfolding list_enquiries call
  list_enquiries-below zero h = absurd (omega arith)
  list_enquiries-below (suc c) h =
      rw (without_count-page limit 0 (length (all_rows (some (suc c)))) (all_rows (some (suc c))))

rows_of : Result Listing × World → List Joined
rows_of (ok l, w) = l.rows
rows_of (err e, w) = []

take-nil : (n : ℕ) → take {A = Joined} n [] ≡ []
take-nil zero = refl
take-nil (suc n) = refl

drop-all : (n : ℕ) (js : List Joined) → length js ≤ n → drop n js ≡ []
drop-all zero [] h = refl
drop-all zero (j ∷ js) h = absurd (omega arith)
drop-all (suc n) [] h = refl
drop-all (suc n) (j ∷ js) h = drop-all n js (omega arith)

select-any_id :
    (status : Option Status) (js : List Joined)
    → select (λ j. has_status status j && is_below none j) js ≡ select (has_status status) js
select-any_id status [] = refl
select-any_id status (j ∷ js) = ground (arith, select-any_id status js)

suc-add : (a b : ℕ) → suc a + b ≡ suc (a + b)
suc-add a b = omega arith

take-add : (a b : ℕ) (js : List Joined) → take (a + b) js ≡ take a js ++ take b (drop a js)
take-add zero b js = ap (λ n. take n js) (omega arith)
take-add (suc a) b [] = take-nil (suc a + b) ∙ sym (take-nil b)
take-add (suc a) b (j ∷ js) =
    ap (λ n. take n (j ∷ js)) (suc-add a b) ∙ ap (λ r. j ∷ r) (take-add a b js)

take-all : (n : ℕ) (js : List Joined) → length js ≤ n → take n js ≡ js
take-all zero [] h = refl
take-all zero (j ∷ js) h = absurd (omega arith)
take-all (suc n) [] h = refl
take-all (suc n) (j ∷ js) h = ap (λ r. j ∷ r) (take-all n js (omega arith))

le-ceil_div : (total limit : ℕ) → 1 ≤ limit → total ≤ ceil_div total limit * limit
le-ceil_div total limit h = grind arith

ceil_div-zero : (limit : ℕ) → 1 ≤ limit → ceil_div 0 limit ≡ 0
ceil_div-zero limit h = grind arith

module _ (status : Option Status) (limit : ℕ) (w : World) where
  -- The rows that a client gets from the pages 1 to `n`.
  pub pages : ℕ → List Joined
  pages zero = []
  pages (suc n) =
      pages n ++ rows_of (list_enquiries (by_number status limit w (suc n)) (answering w))

  pages-eq-take : (n : ℕ) → pages n ≡ take (n * limit) (all_rows status limit w none)
  unfolding pages rows_of
  pages-eq-take zero =
      let none_yet : ◌≡◌ {A = ℕ} 0 (0 * limit) = omega arith in
      ap (λ k. take k (all_rows status limit w none)) none_yet
  pages-eq-take (suc n) =
      let rows = all_rows status limit w none in
      let before : suc n - 1 ≡ n = omega arith in
      let offset : (suc n - 1) * limit ≡ n * limit = ap (λ k. k * limit) before in
      let after : n * limit + limit ≡ suc n * limit = omega arith in
      rw (list_enquiries-by_number status limit w (suc n), pages-eq-take n)
        (ap (λ k. take (n * limit) rows ++ take limit (drop k rows)) offset
          ∙ sym (take-add (n * limit) limit rows)
          ∙ ap (λ k. take k rows) after)

  -- With a limit of 1 or more, distinct ids of properties and enquiries in the order of their ids,
  -- the pages 1 to `n`, for the `n` that the count of the matching rows gives, hold one after the
  -- other exactly the joined rows of the status asked for, in descending order of their ids.
  pub pages_complete :
      1 ≤ limit
      → HaveDistinctIds w.properties
      → IsDescending w.enquiries
      → let wanted = select (has_status status) (join_properties w.properties w.enquiries) in
        (pages (ceil_div (length wanted) limit) ≡ wanted) × AreDescending wanted
  pages_complete h d e =
      let rows = all_rows status limit w none in
      let wanted = select (has_status status) (join_properties w.properties w.enquiries) in
      let (same, order) = matching-eq status none w.properties w.enquiries d e in
      let eq : rows ≡ wanted =
        same ∙ select-any_id status (join_properties w.properties w.enquiries) in
      (
        rw (← eq) (
            pages-eq-take (ceil_div (length rows) limit)
            ∙ take-all (ceil_div (length rows) limit * limit) rows
                (le-ceil_div (length rows) limit h)),
        rw eq at order,
      )

  -- A page past the last row reports a total of 0 and no pages, however many rows match.
  pub beyond_last :
      (page : ℕ)
      → length (all_rows status limit w none) ≤ (page - 1) * limit
      → 1 ≤ limit
      → (list_enquiries (by_number status limit w page) (answering w)).0
        ≡ ok (record { rows = []; pagination = by_page page limit 0 0 })
  beyond_last page h l =
      rw
        (
          list_enquiries-by_number status limit w page,
          drop-all ((page - 1) * limit) (all_rows status limit w none) h,
          take-nil limit,
        )
        (ap (λ n. ok (record { rows = []; pagination = by_page page limit 0 n }))
          (ceil_div-zero limit l))

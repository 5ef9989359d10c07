-- ===== src/Listing/Cursor.antt =====
-- Walking through the list by cursor.
use property_platform_backen.Prelude.{
  ℕ, zero, suc, ◌<◌, ◌≤◌, ◌≡◌, ◌≢◌, inl, inr, refl, ap, ◌∙◌, sym, Option, none, some, List, [], ◌∷◌,
  ◌++◌, length, take, drop, select, All, All-map, All-drop, All-take, get_last?, arith, ◌&&◌, ltb,
  Option-cases, take-append-drop, length-drop,
}
use mathlib.Core.Path.{subst}
use mathlib.Core.List.{append-nil}
use property_platform_backen.Effects.{Result, ok, err}
use property_platform_backen.Database.{World, Status, Joined, join_properties}
use property_platform_backen.Database.Invariant.{IsDescending}
use property_platform_backen.Listing.{
  list_enquiries, matching, Listing, Pagination, by_cursor, by_page, has_status, is_below,
}
use property_platform_backen.Listing.Order.{AreDescending, HaveDistinctIds, matching-eq, All-select}
use property_platform_backen.Listing.Pages.{answering, below, list_enquiries-below}

-- The cursor of the next page, if a page gives one.
abbrev pub next_of : Pagination → Option ℕ
next_of (by_cursor next limit) = next
next_of (by_page page limit total total_pages) = none

abbrev ask_for : (ℕ → List Joined) → Option ℕ → List Joined
ask_for ask none = []
ask_for ask (some c) = ask c

-- What a client has from a reply, and from the pages that follow it.
abbrev read_on : (ℕ → List Joined) → Result Listing → List Joined
read_on ask (err e) = []
read_on ask (ok l) = l.rows ++ ask_for ask (next_of l.pagination)

-- A client that follows the cursors, with fuel for its requests.
pub walk : Option Status → ℕ → ℕ → ℕ → World → List Joined
walk status limit zero c w = []
walk status limit (suc fuel) c w =
    read_on (λ next. walk status limit fuel next w) (list_enquiries (below status limit w c) w).0

select_below-All :
    (c : ℕ) (js : List Joined) → All (λ j. j.id < c) js → select (λ j. ltb j.id c) js ≡ js
select_below-All c [] h = refl
select_below-All c (j ∷ js) h = ground (arith, select_below-All c js h.1)

All-get_last? :
    (P : Joined → Type 0) (l : Joined) (js : List Joined) → All P js → get_last? js ≡ some l → P l
All-get_last? P l [] h e = cc
All-get_last? P l (j ∷ []) h e = let same : j ≡ l = cc in subst P same h.0
All-get_last? P l (j ∷ k ∷ js) h e = All-get_last? P l (k ∷ js) h.1 e

-- No row of a descending list is below its last row, or one that follows, but those behind.
not_below :
    (c : ℕ) (j : Joined) (js : List Joined)
    → c ≤ j.id
    → select (λ k. ltb k.id c) (j ∷ js) ≡ select (λ k. ltb k.id c) js
not_below c j js h = ground arith

-- In descending order, the rows below the last of a page are those behind the page.
select_below-last :
    (n : ℕ) (l : Joined) (js : List Joined)
    → AreDescending js
    → get_last? (take n js) ≡ some l
    → select (λ j. ltb j.id l.id) js ≡ drop n js
select_below-last zero l js d h = cc
select_below-last (suc n) l [] d h = cc
select_below-last (suc zero) l (j ∷ js) d h =
    let same : j ≡ l = cc in
    subst (λ k. select (λ o. ltb o.id k.id) (j ∷ js) ≡ js) same
      (not_below j.id j js (omega arith) ∙ select_below-All j.id js d.0)
select_below-last (suc (suc n)) l (j ∷ []) d h =
    let same : j ≡ l = cc in
    subst (λ k. select (λ o. ltb o.id k.id) (j ∷ []) ≡ []) same (not_below j.id j [] (omega arith))
select_below-last (suc (suc n)) l (j ∷ k ∷ js) d h =
    let lower =
      All-get_last? (λ o. o.id < j.id) l (take (suc n) (k ∷ js))
        (All-take (λ o. o.id < j.id) (suc n) (k ∷ js) d.0) h in
    not_below l.id j (k ∷ js) (omega arith) ∙ select_below-last (suc n) l (k ∷ js) d.1 h

-- Filtering below `c` and then below a smaller cursor.
select_below-select :
    (status : Option Status) (c c' : ℕ) (js : List Joined)
    → c' ≤ c
    → select (λ j. has_status status j && is_below (some c') j) js
      ≡ select (λ j. ltb j.id c') (select (λ j. has_status status j && is_below (some c) j) js)
select_below-select status c c' [] h = refl
select_below-select status c c' (j ∷ js) h = ground (arith, select_below-select status c c' js h)

last-ne-none : (j : Joined) (js : List Joined) → get_last? (j ∷ js) ≢ none
last-ne-none j [] e = cc
last-ne-none j (k ∷ js) e = last-ne-none k js e

-- A page with no last row is all that there is.
short_page : (n : ℕ) (js : List Joined) → 1 ≤ n → get_last? (take n js) ≡ none → take n js ≡ js
short_page zero js h e = absurd (omega arith)
short_page (suc n) [] h e = refl
short_page (suc n) (j ∷ js) h e = absurd (last-ne-none j (take n js) e)

-- Behind a page that has a last row there are fewer rows.
length-drop-lt :
    (n : ℕ) (l : Joined) (js : List Joined)
    → 1 ≤ n
    → get_last? (take n js) ≡ some l
    → length (drop n js) < length js
length-drop-lt zero l js h e = absurd (omega arith)
length-drop-lt (suc n) l [] h e = cc
length-drop-lt (suc n) l (j ∷ js) h e = omega (arith, length-drop n js)

module _ (status : Option Status) (limit : ℕ) (w : World) (limit_ok : 1 ≤ limit)
    (keys : HaveDistinctIds w.properties) (order : IsDescending w.enquiries) where
  abbrev rows : ℕ → List Joined
  rows c = matching status (some c) w.properties w.enquiries

  -- The rows for the cursor that a page gives are those behind the page.
  rows-next :
      (c : ℕ) (l : Joined)
      → l.id ≤ c
      → get_last? (take limit (rows c)) ≡ some l
      → rows l.id ≡ drop limit (rows c)
  rows-next c l h e =
      let joined = join_properties w.properties w.enquiries in
      let (here, d) = matching-eq status (some c) w.properties w.enquiries keys order in
      let (there, _) = matching-eq status (some l.id) w.properties w.enquiries keys order in
      there
      ∙ select_below-select status c l.id joined h
      ∙ ap (select (λ j. ltb j.id l.id)) (sym here)
      ∙ select_below-last limit l (rows c) d e

  rows-below : (c : ℕ) → All (λ j. j.id < c) (rows c)
  rows-below c =
      let joined = join_properties w.properties w.enquiries in
      let (here, d) = matching-eq status (some c) w.properties w.enquiries keys order in
      rw here (
        All-map _ (λ j kept. ground arith)
          (All-select (λ j. has_status status j && is_below (some c) j) joined))

  last_of_page : (c : ℕ) (l : Joined) → get_last? (take limit (rows c)) ≡ some l → l.id < c
  last_of_page c l e =
      All-get_last? (λ j. j.id < c) l (take limit (rows c))
        (All-take (λ j. j.id < c) limit (rows c) (rows-below c)) e

  walk_follows :
      (fuel c : ℕ)
      → 0 < c
      → All (λ j. 0 < j.id) (rows c)
      → length (rows c) < fuel
      → walk status limit fuel c (answering w) ≡ rows c
  unfolding walk
  walk_follows zero c p q h = absurd (omega arith)
  walk_follows (suc fuel) c p q h =
      ap (read_on (λ next. walk status limit fuel next (answering w)))
        (ap (λ r. r.0) (list_enquiries-below status limit w c p))
      ∙ elim (Option-cases (get_last? (take limit (rows c)))) [
        | inl over ↦
            rw over (append-nil (take limit (rows c)) ∙ short_page limit (rows c) limit_ok over)
        | inr (l, more) ↦
            let next = rows-next c l (omega (arith, last_of_page c l more)) more in
            let positive =
              All-get_last? (λ j. 0 < j.id) l (take limit (rows c))
                (All-take (λ j. 0 < j.id) limit (rows c) q) more in
            let fewer = length-drop-lt limit l (rows c) limit_ok more in
            rw more (
              rw
                (
                  walk_follows fuel l.id positive
                      (rw next (All-drop (λ j. 0 < j.id) limit (rows c) q)) (rw next (omega arith)),
                  next,
                )
                (take-append-drop limit (rows c)))
      ]

-- With a limit of 1 or more, distinct ids of properties and enquiries in the order of their ids,
-- and rows with ids of 1 or more, a client that starts below the cursor `c` and follows the cursor
-- of each page gets exactly the joined rows of the status asked for with an id below `c`, each
-- once, newest first; it needs at most one request more than there are rows.
pub walk_complete :
    (status : Option Status) (limit : ℕ) (w : World) (fuel c : ℕ)
    → 1 ≤ limit
    → 0 < c
    → HaveDistinctIds w.properties
    → IsDescending w.enquiries
    → let wanted =
        select
          (λ j. has_status status j && ltb j.id c)
          (join_properties w.properties w.enquiries) in
      All (λ j. 0 < j.id) wanted
      → length wanted < fuel
      → walk status limit fuel c (answering w) ≡ wanted
walk_complete status limit w fuel c l p keys order q h =
    let (here, _) = matching-eq status (some c) w.properties w.enquiries keys order in
    walk_follows status limit w l keys order fuel c p (rw here q) (rw here h) ∙ here

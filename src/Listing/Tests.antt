-- ===== src/Listing/Tests.antt =====
-- Instances of the theorems on the list of enquiries.
use property_platform_backen.Prelude.{◌≡◌, none, [], length, select, ltb, ◌&&◌, arith}
use property_platform_backen.Database.{join_row, join_properties}
use property_platform_backen.Listing.{ceil_div, has_status}
use property_platform_backen.Listing.Order.{AreDescending}
use property_platform_backen.Listing.Pages.{answering, pages, pages_complete}
use property_platform_backen.Listing.Cursor.{walk, walk_complete}
use property_platform_backen.Samples.{town}

pages_complete_example :
    let wanted =
      select (has_status none) (join_properties (town []).properties (town []).enquiries) in
    (pages none 1 (town []) (ceil_div (length wanted) 1) ≡ wanted) × AreDescending wanted
pages_complete_example =
    pages_complete none 1 (town []) (omega arith) (tt, tt) ((omega arith, tt), (tt, tt))

walk_complete_example :
    walk none 1 3 10 (answering (town []))
    ≡ select
        (λ j. has_status none j && ltb j.id 10)
        (join_properties (town []).properties (town []).enquiries)
unfolding join_properties join_row has_status
walk_complete_example =
    walk_complete none 1 (town []) 3 10 (omega arith) (omega arith) (tt, tt)
      ((omega arith, tt), (tt, tt)) (omega arith, (omega arith, tt)) (omega arith)

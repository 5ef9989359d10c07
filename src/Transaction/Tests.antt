-- ===== src/Transaction/Tests.antt =====
-- Instances of the theorems on transactions, for the INSERT of an enquiry whose answer is lost.
use property_platform_backen.Prelude.{refl, [], ◌∷◌}
use property_platform_backen.Database.{World, answered, unacked}
use property_platform_backen.Enquiries.{create_row}
use property_platform_backen.Enquiries.Rows.{create_row-IsLocal}
use property_platform_backen.Transaction.{with_transaction}
use property_platform_backen.Transaction.Atomic.{Settled, with_transaction-Settled}
use property_platform_backen.Samples.{plain, question, browser, town}

-- The connection, BEGIN and the first SELECT are answered; the answer to the INSERT is lost.
abbrev cut_off : World
cut_off = town (answered ∷ answered ∷ answered ∷ unacked ∷ [])

with_transaction-Settled_example :
    Settled
      (create_row plain question browser)
      cut_off
      (with_transaction (create_row plain question browser) cut_off)
with_transaction-Settled_example =
    with_transaction-Settled (create_row plain question browser) cut_off
      (create_row-IsLocal plain question browser) refl

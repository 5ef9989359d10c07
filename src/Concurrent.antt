-- ===== src/Concurrent.antt =====
-- `createEnquiry` of src/services/enquiry.service.ts for any number of requests at once, each call
-- of it a step. InnoDB lets a transaction see none of the rows that others have not committed, and
-- lets an INSERT wait while another transaction holds its value of the unique index. The properties
-- stay as they are meanwhile, so that the foreign key of an INSERT holds.
pub mod Invariant
pub mod Steps
pub mod Unique
pub mod Backed
pub mod Alone
pub mod Fresh
pub mod Queue
pub mod Progress
mod Tests
use property_platform_backen.Prelude.{
  ℕ, ◌+◌, ◌≡◌, Text, codes, decimal, Bool, true, false, not, List, [], ◌∷◌, ◌++◌, ◌==◌,
  if◌then◌else◌,
}
use property_platform_backen.Errors.{Thrown, conflict_error}
use property_platform_backen.Effects.{ok}
use property_platform_backen.Hash.{Platform}
use property_platform_backen.Database.{
  World, Enquiry, NewEnquiry, Property, columns_fit, has_fingerprint, has_property, row_of, used_id,
  mysql_error, lost_connection, sync_enquiry, send_email, select_published,
}
use property_platform_backen.Enquiries.{
  CreateEnquiryInput, CreateEnquiryContext, values, is_empty, property_missing,
}
use property_platform_backen.Enquiries.Create.{is_missing}

-- Where a request stands: before its SELECT, before its INSERT, before its COMMIT, before the two
-- calls of the queues, and at its end.
pub data Pc : Type 0 where
  ready checked : Pc
  inserted stored queued done : Enquiry → Pc
  failed : Thrown → Pc

-- The shared state, where the tables hold what is committed, and the requests by their number.
pub record System : Type 0 where
  pub world : World
  pub pc : ℕ → Pc

unfoldable pub update : (ℕ → Pc) → ℕ → Pc → ℕ → Pc
update f i p j = if i == j then p else f j

-- Its row with that value of the index is not committed yet.
abbrev pub IsPending : Text → Pc → Type 0
IsPending f (inserted e) = e.fingerprint ≡ f
IsPending f _ = ⊥

abbrev pub commit_row : Enquiry → World → World
commit_row e w = record w { tables = record w.tables { enquiries = e ∷ w.enquiries } }

abbrev pub add_sync : Enquiry → World → World
add_sync e w = record w { jobs = sync_enquiry e.id (codes "crm-sync-" ++ decimal e.id) ∷ w.jobs }

abbrev pub add_email : Enquiry → World → World
add_email e w = record w { jobs = send_email e.email e.full_name e.id ∷ w.jobs }

abbrev pub counted_created : World → World
counted_created w = record w { enquiries_created_total = w.enquiries_created_total + 1 }

abbrev pub counted_duplicate : World → World
counted_duplicate w = record w { enquiries_duplicate_total = w.enquiries_duplicate_total + 1 }

abbrev pub identical : Thrown
identical = conflict_error (codes "An identical enquiry has already been submitted recently.")

-- What the requests bring, by their number.
pub record Requests : Type 0 where
  pub platform : Platform
  pub input : ℕ → CreateEnquiryInput
  pub ctx : ℕ → CreateEnquiryContext

module _ (r : Requests) where
  abbrev pub wanted : ℕ → NewEnquiry
  wanted i = values r.platform (r.input i) (r.ctx i)

  -- A step of the request `i` whose call is answered, to a state and a place.
  pub data Move (s : System) (i : ℕ) : World → Pc → Type 0 where
    find :
        s.pc i ≡ ready
        → is_missing r.platform (r.input i) (r.ctx i) s.world ≡ false
        → Move s i s.world checked
    miss :
        s.pc i ≡ ready
        → is_missing r.platform (r.input i) (r.ctx i) s.world ≡ true
        → Move s i s.world (failed (property_missing (r.input i).property_id))
    insert :
        s.pc i ≡ checked
        → columns_fit (wanted i) ≡ true
        → has_fingerprint (wanted i).fingerprint s.world.enquiries ≡ false
        → ((j : ℕ) → ¬ IsPending (wanted i).fingerprint (s.pc j))
        → Move s i (used_id s.world) (inserted (row_of (wanted i) s.world))
    repeat :
        s.pc i ≡ checked
        → columns_fit (wanted i) ≡ true
        → has_fingerprint (wanted i).fingerprint s.world.enquiries ≡ true
        → Move s i (counted_duplicate (used_id s.world)) (failed identical)
    overflow :
        s.pc i ≡ checked
        → columns_fit (wanted i) ≡ false
        → Move s i s.world (failed (mysql_error 1406 (codes "ER_DATA_TOO_LONG")))
    commit : (e : Enquiry) → s.pc i ≡ inserted e → Move s i (commit_row e s.world) (stored e)
    enqueue : (e : Enquiry) → s.pc i ≡ stored e → Move s i (add_sync e s.world) (queued e)
    finish :
        (e : Enquiry)
        → s.pc i ≡ queued e
        → Move s i (counted_created (add_email e s.world)) (done e)

  -- A step of the request `i` whose call fails, or takes effect while its answer is lost. Up to the
  -- COMMIT the transaction is rolled back, which gives no id back.
  pub data Loss (s : System) (i : ℕ) : World → Type 0 where
    lost_ready : s.pc i ≡ ready → Loss s i s.world
    lost_insert : s.pc i ≡ checked → Loss s i (used_id s.world)
    lost_before_insert : s.pc i ≡ checked → Loss s i s.world
    lost_before_commit : (e : Enquiry) → s.pc i ≡ inserted e → Loss s i s.world
    lost_commit : (e : Enquiry) → s.pc i ≡ inserted e → Loss s i (commit_row e s.world)
    lost_before_enqueue : (e : Enquiry) → s.pc i ≡ stored e → Loss s i s.world
    lost_enqueue : (e : Enquiry) → s.pc i ≡ stored e → Loss s i (add_sync e s.world)
    lost_before_email : (e : Enquiry) → s.pc i ≡ queued e → Loss s i s.world
    lost_email : (e : Enquiry) → s.pc i ≡ queued e → Loss s i (add_email e s.world)

  -- One of the requests makes a step, or time passes.
  pub data Step (s : System) : System → Type 0 where
    moved :
        (i : ℕ) {w : World} {p : Pc}
        → Move s i w p
        → Step s (record { world = w; pc = update s.pc i p })
    lost :
        (i : ℕ) {w : World}
        → Loss s i w
        → Step s (record { world = w; pc = update s.pc i (failed lost_connection) })
    waited : (t : ℕ) → Step s (record s { world = record s.world { now = t } })

  -- The requests have just come.
  abbrev pub begun : World → System
  begun w = record { world = w; pc = λ i. ready }

  pub data Reaches (s : System) : System → Type 0 where
    here : Reaches s s
    next : {t u : System} → Reaches s t → Step t u → Reaches s u

-- ===== src/Database.antt =====
-- migrations/001_init.sql as tables, and the state that the services share: the tables, the open
-- transaction, the connections on loan from the pool of src/config/db.ts, the jobs handed to the
-- queues and the counters of src/config/metrics.ts.
-- What the environment decides is part of the state: the clock, and for each coming call to MySQL
-- or Redis whether it is answered.
pub mod Faults
pub mod Invariant
use property_platform_backen.Prelude.{
  ℕ, ◌+◌, ◌-◌, Text, codes, text_eq, characters, utf8_length, Bool, true, false, ◌&&◌, not, Option,
  none, some, List, [], ◌∷◌, ◌++◌, any, select, take, leb, ◌==◌, if◌then◌else◌,
}
use property_platform_backen.Errors.{Thrown, other_error}
use property_platform_backen.Effects.{Result, ok, err, Exec}

pub data PropertyStatus : Type 0 where
  draft published archived : PropertyStatus

pub record Property : Type 0 where
  pub id : ℕ
  pub wp_post_id : Option ℕ
  pub title : Text
  pub slug : Text
  pub status : PropertyStatus

pub data Source : Type 0 where
  website mobile_app partner_portal other : Source

pub data Status : Type 0 where
  new contacted converted closed : Status

-- The columns that an INSERT of the program gives.
pub record NewEnquiry : Type 0 where
  pub property_id : ℕ
  pub full_name : Text
  pub email : Text
  pub phone : Option Text
  pub message : Text
  pub source : Source
  pub fingerprint : Text
  pub ip_address : Option Text
  pub user_agent : Option Text

pub record Enquiry : Type 0 where
  pub id : ℕ
  pub given : NewEnquiry
  pub open given use *
  pub status : Status
  pub crm_record_id : Option Text
  pub crm_synced_at : Option ℕ
  pub created_at : ℕ

pub data ProcessingStatus : Type 0 where
  received processed failed rejected : ProcessingStatus

pub record NewEvent : Type 0 where
  pub enquiry_id : Option ℕ
  pub event_type : Text
  pub signature_valid : Bool
  pub raw_payload : Text
  pub processing_status : ProcessingStatus
  pub error_message : Option Text
  pub ip_address : Option Text

pub record WebhookEvent : Type 0 where
  pub id : ℕ
  pub given : NewEvent
  pub open given use *
  pub created_at : ℕ

-- The rows of each table, the newest first.
pub record Tables : Type 0 where
  pub properties : List Property
  pub enquiries : List Enquiry
  pub events : List WebhookEvent

-- Whether a call is answered, fails without effect, or takes effect and its answer is lost.
pub data Fault : Type 0 where
  answered refused unacked : Fault

-- A call of `Queue.add`: the name of the job, its data and its `jobId`. A failed job is given by
-- its queue, its `jobId`, the reason and the time.
pub data Job : Type 0 where
  sync_enquiry : ℕ → Text → Job
  send_email : Text → Text → ℕ → Job
  failed_job : Text → Text → Text → ℕ → Job

pub record World : Type 0 where
  pub tables : Tables
  pub open tables use *
  pub saved : Option Tables
  pub next_enquiry_id : ℕ
  pub next_event_id : ℕ
  pub leased : ℕ
  pub jobs : List Job
  pub enquiries_created_total : ℕ
  pub enquiries_duplicate_total : ℕ
  pub webhook_valid_total : ℕ
  pub webhook_invalid_total : ℕ
  pub now : ℕ
  pub faults : List Fault

-- A driver error: `errno` and `code` of MySQL, or neither if the connection is gone.
unfoldable pub lost_connection : Thrown
lost_connection = other_error none none (codes "connection lost")

unfoldable pub mysql_error : ℕ → Text → Thrown
mysql_error errno code = other_error (some errno) (some code) code

module _ {A : Type 0} where
  call_with : List Fault → Exec World A → Exec World A
  call_with [] op w = op w
  call_with (answered ∷ rest) op w = op (record w { faults = rest })
  call_with (refused ∷ rest) op w = (err lost_connection, record w { faults = rest })
  call_with (unacked ∷ rest) op w = (err lost_connection, (op (record w { faults = rest })).1)

  -- One call to MySQL or Redis, under the next fault.
  unfoldable pub call : Exec World A → Exec World A
  unfolding call_with
  call op w = call_with w.faults op w

abbrev pub is_published : PropertyStatus → Bool
is_published published = true
is_published _ = false

-- SELECT id FROM properties WHERE id = :id AND status = "published" LIMIT 1
unfoldable pub select_published : ℕ → Exec World (List Property)
select_published id w =
    (ok (take 1 (select (λ p. p.id == id && is_published p.status) w.properties)), w)

-- VARCHAR(n) in strict mode: a text of more characters is an error.
abbrev pub fits : ℕ → Option Text → Bool
fits n none = true
fits n (some t) = leb (characters t) n

-- The widths of the columns of an enquiry, of which `message` is a TEXT.
unfoldable pub columns_fit : NewEnquiry → Bool
columns_fit r =
    fits 120 (some r.full_name)
    && fits 254 (some r.email)
    && fits 20 r.phone
    && leb (utf8_length r.message) 65535
    && fits 45 r.ip_address
    && fits 255 r.user_agent

unfoldable pub has_fingerprint : Text → List Enquiry → Bool
has_fingerprint f = any (λ e. text_eq e.fingerprint f)

unfoldable pub has_property : ℕ → List Property → Bool
has_property id = any (λ p. p.id == id)

unfoldable pub has_enquiry : ℕ → List Enquiry → Bool
has_enquiry id = any (λ e. e.id == id)

abbrev pub row_of : NewEnquiry → World → Enquiry
row_of r w = record {
  id = w.next_enquiry_id;
  given = r;
  status = new;
  crm_record_id = none;
  crm_synced_at = none;
  created_at = w.now;
}

-- A refused INSERT has used up its AUTO_INCREMENT value too.
abbrev pub used_id : World → World
used_id w = record w { next_enquiry_id = w.next_enquiry_id + 1 }

abbrev pub stored : NewEnquiry → World → World
stored r w = record w {
  tables = record w.tables { enquiries = row_of r w ∷ w.enquiries };
  next_enquiry_id = w.next_enquiry_id + 1;
}

-- INSERT INTO enquiries (…) VALUES (…): the `insertId`, or the error of the column width, of the
-- unique index on `fingerprint` or of the foreign key.
unfoldable pub insert_enquiry : NewEnquiry → Exec World ℕ
insert_enquiry r w =
    if not (columns_fit r)
    then (err (mysql_error 1406 (codes "ER_DATA_TOO_LONG")), w)
    else if has_fingerprint r.fingerprint w.enquiries
    then (err (mysql_error 1062 (codes "ER_DUP_ENTRY")), used_id w)
    else if not (has_property r.property_id w.properties)
    then (err (mysql_error 1452 (codes "ER_NO_REFERENCED_ROW_2")), used_id w)
    else (ok w.next_enquiry_id, stored r w)

-- SELECT * FROM enquiries WHERE id = :id
unfoldable pub select_enquiry : ℕ → Exec World (List Enquiry)
select_enquiry id w = (ok (select (λ e. e.id == id) w.enquiries), w)

-- SELECT e.*, p.title … FROM enquiries e JOIN properties p ON p.id = e.property_id: a row with
-- the titles of the properties that it joins.
pub record Joined : Type 0 where
  pub enquiry : Enquiry
  pub open enquiry use *
  pub property_title : Text

unfoldable pub join_row : Enquiry → List Property → List Joined
join_row e [] = []
join_row e (p ∷ ps) =
    if p.id == e.property_id
    then record { enquiry = e; property_title = p.title } ∷ join_row e ps
    else join_row e ps

unfoldable pub join_properties : List Property → List Enquiry → List Joined
unfolding join_row
join_properties ps [] = []
join_properties ps (e ∷ es) = join_row e ps ++ join_properties ps es

-- … WHERE e.id = :id LIMIT 1
unfoldable pub select_joined : ℕ → Exec World (List Joined)
select_joined id w =
    (ok (take 1 (select (λ j. j.id == id) (join_properties w.properties w.enquiries))), w)

synced : ℕ → Text → Option Status → ℕ → Enquiry → Enquiry
synced id record_id status now e =
    if e.id == id
    then record e {
      crm_record_id = some record_id;
      crm_synced_at = some now;
      status = elim status [ none ↦ e.status | some s ↦ s ];
    }
    else e

unfoldable pub map_rows : (Enquiry → Enquiry) → List Enquiry → List Enquiry
map_rows f [] = []
map_rows f (e ∷ es) = f e ∷ map_rows f es

-- UPDATE enquiries SET crm_record_id = …, crm_synced_at = NOW() [, status = …] WHERE id = …; the
-- column is VARCHAR(100), which matters only if a row is updated.
unfoldable pub update_synced : ℕ → Text → Option Status → Exec World Unit
unfolding synced
update_synced id record_id status w =
    if has_enquiry id w.enquiries && not (fits 100 (some record_id))
    then (err (mysql_error 1406 (codes "ER_DATA_TOO_LONG")), w)
    else (
      ok tt,
      record w {
        tables = record w.tables {
          enquiries = map_rows (synced id record_id status w.now) w.enquiries;
        };
      },
    )

unfoldable pub event_fits : NewEvent → Bool
event_fits r = fits 50 (some r.event_type) && fits 500 r.error_message && fits 45 r.ip_address

-- The foreign key on `enquiry_id`, which may be NULL.
unfoldable pub refers : Option ℕ → List Enquiry → Bool
refers none es = true
refers (some id) es = has_enquiry id es

abbrev pub event_stored : NewEvent → World → World
event_stored r w = record w {
  tables = record w.tables {
    events = record { id = w.next_event_id; given = r; created_at = w.now } ∷ w.events;
  };
  next_event_id = w.next_event_id + 1;
}

-- INSERT INTO crm_webhook_events (…) VALUES (…, CAST(:rawPayload AS JSON), …), where `is_json` is
-- MySQL's test of a JSON text.
unfoldable pub insert_event : (Text → Bool) → NewEvent → Exec World Unit
insert_event is_json r w =
    if not (is_json r.raw_payload)
    then (err (mysql_error 3141 (codes "ER_INVALID_JSON_TEXT_IN_PARAM")), w)
    else if not (event_fits r)
    then (err (mysql_error 1406 (codes "ER_DATA_TOO_LONG")), w)
    else if not (refers r.enquiry_id w.enquiries)
    then (
      err (mysql_error 1452 (codes "ER_NO_REFERENCED_ROW_2")),
      record w { next_event_id = w.next_event_id + 1 },
    )
    else (ok tt, event_stored r w)

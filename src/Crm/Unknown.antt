-- ===== src/Crm/Unknown.antt =====
-- What a signed webhook does, and what happens to one that names no enquiry.
use property_platform_backen.Prelude.{
  ℕ, ◌+◌, ◌≡◌, refl, ap, codes, Bool, true, false, not, none, some, List, [], ◌∷◌, arith, select,
  map, ◌==◌, if◌then◌else◌,
}
use property_platform_backen.Effects.{ok, err, continue}
use property_platform_backen.Database.{
  World, Enquiry, call, insert_event, event_stored, event_fits, refers, has_enquiry, mysql_error,
  select_enquiry, update_synced, map_rows, fits,
}
use property_platform_backen.Enquiries.{is_empty, mark_crm_synced}
use property_platform_backen.Json.{bool, str, obj, end, field}
use property_platform_backen.Crm.{
  Setup, WebhookRequest, is_signed, event_row, counted, log_webhook_event, process_crm_webhook,
  apply_webhook, handle_verified, crm_webhook_handler,
}

abbrev pub answering : World → World
answering w = record w { faults = [] }

is_empty_of_has_enquiry :
    (id : ℕ) (es : List Enquiry) → is_empty (select (λ e. e.id == id) es) ≡ not (has_enquiry id es)
unfolding has_enquiry
is_empty_of_has_enquiry id [] = refl
is_empty_of_has_enquiry id (e ∷ es) = ground (arith, is_empty_of_has_enquiry id es)

-- What the webhook is to do with a row.
abbrev pub applied : WebhookRequest → ℕ → Enquiry → Enquiry
applied req now e =
    if e.id == req.enquiry_id
    then record e {
      crm_record_id = some req.crm_record_id;
      crm_synced_at = some now;
      status = elim req.status [ none ↦ e.status | some s ↦ s ];
    }
    else e

pub map_rows-eq-map : (f : Enquiry → Enquiry) (es : List Enquiry) → map_rows f es ≡ map f es
unfolding map_rows
map_rows-eq-map f [] = refl
map_rows-eq-map f (e ∷ es) = ap (λ r. f e ∷ r) (map_rows-eq-map f es)

module _ (setup : Setup) (req : WebhookRequest) (w : World) where
  -- The state after a webhook that named no enquiry: the count, and an id that is used up.
  unlogged : Bool → World
  unlogged valid = record (counted setup valid w) {
    faults = [];
    next_event_id = w.next_event_id + 1;
  }

  tables-unlogged : (valid : Bool) → (unlogged valid).tables ≡ w.tables
  unfolding unlogged
  tables-unlogged true = refl
  tables-unlogged false = refl

  unknown_as :
      (valid : Bool)
      → setup.is_json (event_row setup req valid).raw_payload ≡ true
      → event_fits (event_row setup req valid) ≡ true
      → has_enquiry req.enquiry_id w.enquiries ≡ false
      → handle_verified setup req valid (answering w)
        ≡ (err (mysql_error 1452 (codes "ER_NO_REFERENCED_ROW_2")), unlogged valid)
  unfolding handle_verified log_webhook_event continue call insert_event refers unlogged
  unknown_as true json fit unknown = rw (json, fit, unknown)
  unknown_as false json fit unknown = rw (json, fit, unknown)

  -- If the payload is stored as JSON and the columns fit, a webhook that names no enquiry is not
  -- logged, signed or not: the handler throws the driver's error for the foreign key, and the
  -- tables are as they were.
  pub unknown_enquiry_unlogged :
      setup.is_json (event_row setup req (is_signed setup req)).raw_payload ≡ true
      → event_fits (event_row setup req (is_signed setup req)) ≡ true
      → has_enquiry req.enquiry_id w.enquiries ≡ false
      → let (reply, u) = crm_webhook_handler setup req (answering w) in
        (reply ≡ err (mysql_error 1452 (codes "ER_NO_REFERENCED_ROW_2"))) × (u.tables ≡ w.tables)
  unfolding crm_webhook_handler
  unknown_enquiry_unlogged json fit unknown =
      rw (unknown_as (is_signed setup req) json fit unknown)
        (refl, tables-unlogged (is_signed setup req))

  -- A signed webhook for a known enquiry, whose payload is stored as JSON and whose columns fit, is
  -- logged as received and answered with 200, and of the enquiries just those rows with the id that
  -- it names have the CRM's id, the time of the call and, if it is given, the new status.
  pub crm_webhook_handler_applies :
      is_signed setup req ≡ true
      → setup.is_json (event_row setup req true).raw_payload ≡ true
      → event_fits (event_row setup req true) ≡ true
      → has_enquiry req.enquiry_id w.enquiries ≡ true
      → fits 100 (some req.crm_record_id) ≡ true
      → let (reply, u) = crm_webhook_handler setup req (answering w) in
        (reply
          ≡ ok (record {
            status = 200;
            body = obj (
                field
                  (codes "success")
                  (bool true)
                  (field (codes "message") (str (codes "Webhook processed")) end));
          }))
        × (u.events ≡ (event_stored (event_row setup req true) w).events)
        × (u.properties ≡ w.properties)
        × (u.enquiries ≡ map (applied req w.now) w.enquiries)
  unfolding crm_webhook_handler handle_verified log_webhook_event apply_webhook process_crm_webhook
      continue call insert_event refers select_enquiry mark_crm_synced update_synced
  crm_webhook_handler_applies signed json fit known short =
      rw
        (
          signed,
          json,
          fit,
          known,
          is_empty_of_has_enquiry req.enquiry_id w.enquiries,
          known,
          known,
          short,
        )
        (refl, refl, refl, map_rows-eq-map (applied req w.now) w.enquiries)

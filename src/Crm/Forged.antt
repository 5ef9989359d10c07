-- ===== src/Crm/Forged.antt =====
-- What a webhook without a valid signature can do.
use property_platform_backen.Prelude.{◌≡◌, ◌⊎◌, inl, inr, refl, codes, false, List, Bool-cases}
use property_platform_backen.Errors.{Thrown, unauthorized_error}
use property_platform_backen.Effects.{Result, ok, err, continue}
use property_platform_backen.Database.{
  World, Fault, rejected, insert_event, event_stored, event_fits, refers, lost_connection,
}
use property_platform_backen.Database.Faults.{at, call_cases}
use property_platform_backen.Crm.{
  Setup, WebhookRequest, is_signed, event_row, counted, log_webhook_event, apply_webhook,
  handle_verified, crm_webhook_handler,
}
use property_platform_backen.Errors.{Response}

module _ (setup : Setup) (req : WebhookRequest) (w : World)
    (forged : is_signed setup req ≡ false) where
  -- The handler throws, the properties and the enquiries are untouched, and the log has at most one
  -- more row, which says that the event was rejected.
  pub record Rebuffed (end : Result Response × World) : Type 0 where
    pub failure : Thrown
    pub failed : end.0 ≡ err failure
    pub properties : end.1.properties ≡ w.properties
    pub enquiries : end.1.enquiries ≡ w.enquiries
    pub events :
        (end.1.events ≡ w.events)
        ⊎ ((end.1.events ≡ (event_stored (event_row setup req false) w).events)
            × ((event_row setup req false).processing_status ≡ rejected)
            × ((event_row setup req false).signature_valid ≡ false))

  -- Properties and enquiries as in `w`, and its events with at most the rejected one more.
  abbrev Logged : World → Type 0
  Logged u =
      (u.properties ≡ w.properties)
      × (u.enquiries ≡ w.enquiries)
      × ((u.events ≡ w.events)
          ⊎ ((u.events ≡ (event_stored (event_row setup req false) w).events)
              × ((event_row setup req false).processing_status ≡ rejected)
              × ((event_row setup req false).signature_valid ≡ false)))

  stopped :
      (u : World)
      → apply_webhook setup req false u
        ≡ (err (unauthorized_error (codes "Invalid webhook signature")), u)
  unfolding apply_webhook continue
  stopped u = refl

  rebuffed :
      (r : Result Unit × World)
      → Logged r.1
      → Rebuffed (continue (λ _. apply_webhook setup req false) r)
  unfolding continue
  rebuffed (ok _, u) (p, e, v) = rw (stopped u) (record {
    failure = unauthorized_error (codes "Invalid webhook signature");
    failed = refl;
    properties = p;
    enquiries = e;
    events = v;
  })
  rebuffed (err x, u) (p, e, v) = record {
    failure = x;
    failed = refl;
    properties = p;
    enquiries = e;
    events = v;
  }

  inserted :
      (gs : List Fault)
      → Logged
          (insert_event setup.is_json (event_row setup req false) (at gs (counted setup false w))).1
  unfolding insert_event
  inserted gs =
      let row = event_row setup req false in
      elim (Bool-cases (setup.is_json row.raw_payload)) [
        | inr broken ↦ rw broken (refl, refl, inl refl)
        | inl json ↦ elim (Bool-cases (event_fits row)) [
          | inr long ↦ rw (json, long) (refl, refl, inl refl)
          | inl fit ↦ elim (Bool-cases (refers row.enquiry_id w.enquiries)) [
            | inl known ↦ rw (json, fit, known) (refl, refl, inr (refl, refl, refl))
            | inr unknown ↦ rw (json, fit, unknown) (refl, refl, inl refl)
          ]
        ]
      ]

  -- Whichever of its calls fail, a webhook without a valid signature makes the handler throw,
  -- leaves every property and every enquiry as it was, and adds at most one event, which is marked
  -- as rejected.
  pub crm_webhook_handler-Rebuffed : Rebuffed (crm_webhook_handler setup req w)
  unfolding crm_webhook_handler handle_verified log_webhook_event continue
  crm_webhook_handler-Rebuffed = rw forged (
      call_cases (λ r. Rebuffed (continue (λ _. apply_webhook setup req false) r))
        (insert_event setup.is_json (event_row setup req false)) (counted setup false w)
        (λ gs.
          rebuffed
            (insert_event setup.is_json (event_row setup req false) (at gs (counted setup false w)))
            (inserted gs))
        (λ gs. rebuffed (err lost_connection, at gs (counted setup false w)) (refl, refl, inl refl))
        (λ gs.
          rebuffed
            (
              err lost_connection,
              (insert_event setup.is_json (event_row setup req false)
                  (at gs (counted setup false w))).1,
            )
            (inserted gs)))

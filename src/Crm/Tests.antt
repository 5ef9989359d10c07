-- ===== src/Crm/Tests.antt =====
-- Instances of the theorems on the CRM webhook.
use property_platform_backen.Prelude.{
  characters, characters_from, ◌≡◌, refl, true, false, codes, map, text_eq, [], ◌∷◌,
}
use property_platform_backen.Effects.{ok, err}
use property_platform_backen.Hash.{
  verify_hmac_signature, from_hex, cons_byte, hex_byte, hex_value, is_digit, strip_prefix, behind,
}
use property_platform_backen.Database.{mysql_error, event_fits, has_enquiry, event_stored, unacked}
use property_platform_backen.Json.{bool, str, obj, end, field}
use property_platform_backen.Crm.{
  is_signed, verify_webhook_signature, event_row, crm_webhook_handler,
}
use property_platform_backen.Crm.Forged.{Rebuffed, crm_webhook_handler-Rebuffed}
use property_platform_backen.Crm.Unknown.{
  answering, applied, unknown_enquiry_unlogged, crm_webhook_handler_applies,
}
use property_platform_backen.Samples.{crm, webhook, town}

bad_signature : is_signed crm (webhook (codes "sha256=0b") 1) ≡ false
unfolding is_signed verify_webhook_signature verify_hmac_signature from_hex cons_byte hex_byte
    hex_value is_digit strip_prefix behind codes text_eq
bad_signature = refl

good_signature : is_signed crm (webhook (codes "sha256=0a") 1) ≡ true
unfolding is_signed verify_webhook_signature verify_hmac_signature from_hex cons_byte hex_byte
    hex_value is_digit strip_prefix behind codes text_eq
good_signature = refl

good_fits : event_fits (event_row crm (webhook (codes "sha256=0a") 1) true) ≡ true
unfolding event_fits codes characters characters_from
good_fits = refl

known_here : has_enquiry 1 (town []).enquiries ≡ true
unfolding has_enquiry
known_here = refl

unknown_here : has_enquiry 9 (town []).enquiries ≡ false
unfolding has_enquiry
unknown_here = refl

unknown_fits :
    event_fits (
      event_row crm (webhook (codes "sha256=0a") 9) (is_signed crm (webhook (codes "sha256=0a") 9)))
    ≡ true
unfolding event_fits characters characters_from is_signed verify_webhook_signature
    verify_hmac_signature from_hex cons_byte hex_byte hex_value is_digit strip_prefix behind codes
    text_eq
unknown_fits = refl

crm_webhook_handler-Rebuffed_example :
    Rebuffed crm
      (webhook (codes "sha256=0b") 1)
      (town (unacked ∷ []))
      bad_signature
      (crm_webhook_handler crm (webhook (codes "sha256=0b") 1) (town (unacked ∷ [])))
crm_webhook_handler-Rebuffed_example =
    crm_webhook_handler-Rebuffed crm (webhook (codes "sha256=0b") 1) (town (unacked ∷ []))
      bad_signature

unknown_enquiry_unlogged_example :
    let (reply, u) =
      crm_webhook_handler crm (webhook (codes "sha256=0a") 9) (answering (town [])) in
    (reply ≡ err (mysql_error 1452 (codes "ER_NO_REFERENCED_ROW_2")))
    × (u.tables ≡ (town []).tables)
unknown_enquiry_unlogged_example =
    unknown_enquiry_unlogged crm (webhook (codes "sha256=0a") 9) (town []) refl unknown_fits
      unknown_here

crm_webhook_handler_applies_example :
    let (reply, u) =
      crm_webhook_handler crm (webhook (codes "sha256=0a") 1) (answering (town [])) in
    (reply
      ≡ ok (record {
        status = 200;
        body = obj (
            field
              (codes "success")
              (bool true)
              (field (codes "message") (str (codes "Webhook processed")) end));
      }))
    × (u.events
        ≡ (event_stored (event_row crm (webhook (codes "sha256=0a") 1) true) (town [])).events)
    × (u.properties ≡ (town []).properties)
    × (u.enquiries ≡ map (applied (webhook (codes "sha256=0a") 1) 200) (town []).enquiries)
unfolding codes characters characters_from
crm_webhook_handler_applies_example =
    crm_webhook_handler_applies crm (webhook (codes "sha256=0a") 1) (town []) good_signature refl
      good_fits known_here refl

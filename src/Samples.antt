-- ===== src/Samples.antt =====
-- Data for the instances and the runs: a platform, a database of two enquiries, and requests.
use property_platform_backen.Prelude.{
  characters, characters_from, utf8_length, bytes_from, ℕ, ◌≡◌, refl, Text, codes, text_eq, true,
  false, none, some, List, [], ◌∷◌, arith,
}
use property_platform_backen.Json.{obj, end}
use property_platform_backen.Hash.{
  Platform, is_space, trim_start, cons_unless_blank, trim_end, trim, normal_email, normalized,
  fingerprint_enquiry, collapse_from, collapse, digits_of, is_digit, join, normal_message,
}
use property_platform_backen.Database.{
  World, Property, published, Enquiry, website, new, Fault, has_property, columns_fit,
  has_fingerprint,
}
use property_platform_backen.Database.Invariant.{IsSound}
use property_platform_backen.Enquiries.{CreateEnquiryInput, CreateEnquiryContext, values}
use property_platform_backen.Crm.{Setup, WebhookRequest}

-- A platform without upper-case letters, and with hashes that are easy to read.
abbrev pub plain : Platform
plain = record {
  to_lower_case = λ t. t;
  sha256_hex = λ t. t;
  hmac_sha256_hex = λ secret payload. codes "0a";
}

abbrev pub house : Property
house = record {
  id = 7;
  wp_post_id = none;
  title = codes "House";
  slug = codes "house";
  status = published;
}

abbrev pub enquiry_of : ℕ → Text → Enquiry
enquiry_of id fingerprint = record {
  id = id;
  given = record {
    property_id = 7;
    full_name = codes "Ann";
    email = codes "ann@x.org";
    phone = none;
    message = codes "Is it free?";
    source = website;
    fingerprint = fingerprint;
    ip_address = none;
    user_agent = none;
  };
  status = new;
  crm_record_id = none;
  crm_synced_at = none;
  created_at = 100;
}

abbrev pub second : Enquiry
second = enquiry_of 2 (codes "b")

abbrev pub first : Enquiry
first = enquiry_of 1 (codes "a")

-- A database with two enquiries about one property.
abbrev pub town : List Fault → World
town faults = record {
  tables = record { properties = house ∷ []; enquiries = second ∷ first ∷ []; events = [] };
  saved = none;
  next_enquiry_id = 3;
  next_event_id = 1;
  leased = 0;
  jobs = [];
  enquiries_created_total = 0;
  enquiries_duplicate_total = 0;
  webhook_valid_total = 0;
  webhook_invalid_total = 0;
  now = 200;
  faults = faults;
}

pub town-IsSound : (faults : List Fault) → IsSound (town faults)
unfolding has_property codes
town-IsSound faults = record {
  now_sound = record {
    fresh = (omega arith, (omega arith, tt));
    descending = ((omega arith, tt), (tt, tt));
    distinct = (((λ e. ground arith), tt), (tt, tt));
    referenced = (refl, (refl, tt));
  };
  saved_sound = tt;
}

abbrev pub question : CreateEnquiryInput
question = record {
  full_name = codes "Bob";
  email = codes "bob@x.org";
  phone = some (codes "555-1");
  property_id = 7;
  message = codes "May I see it?";
  source = website;
}

abbrev pub browser : CreateEnquiryContext
browser = record { ip_address = some (codes "10.0.0.1"); user_agent = none }

-- The secret and the payload do not change the signature, which is the byte 0a.
abbrev pub crm : Setup
crm = record {
  platform = plain;
  secret = codes "s";
  stringify = λ json. codes "{}";
  is_json = λ text. true;
}

abbrev pub webhook : Text → ℕ → WebhookRequest
webhook signature id = record {
  raw_body = codes "{}";
  signature = some signature;
  body = obj end;
  event = codes "lead.updated";
  enquiry_id = id;
  crm_record_id = codes "crm_1";
  status = none;
  ip = none;
}

pub question_fits : columns_fit (values plain question browser) ≡ true
unfolding columns_fit codes characters characters_from utf8_length bytes_from
question_fits = refl

pub question_is_new :
    has_fingerprint (values plain question browser).fingerprint (second ∷ first ∷ []) ≡ false
unfolding has_fingerprint fingerprint_enquiry normalized normal_email normal_message trim trim_start
    trim_end cons_unless_blank is_space collapse collapse_from digits_of is_digit join codes text_eq
question_is_new = refl

-- ===== src/App/Tests.antt =====
-- Instances of the theorems on the whole chain, over stores in memory.
use property_platform_backen.Prelude.{
  ◌≤◌, ◌≡◌, refl, Text, codes, text_eq, true, false, Option, none, some, List, [], ◌∷◌, arith,
}
use property_platform_backen.Json.{Json, null, num, str, arr, cons, nil, obj, Fields, end, field}
use property_platform_backen.Errors.{other_error, new_validation_error}
use property_platform_backen.Effects.{ok, err}
use property_platform_backen.Hash.{is_space, trim_start, cons_unless_blank, trim_end, trim}
use property_platform_backen.Workers.{sync_process}
use property_platform_backen.Database.{refused}
use property_platform_backen.Database.Invariant.{IsSound}
use property_platform_backen.Redis.Memory.{memory, look_up}
use property_platform_backen.Cache.{CacheEnvelope}
use property_platform_backen.Idempotency.{Marker, answered}
use property_platform_backen.Cms.{Posts}
use property_platform_backen.Validators.{
  Zod, Number, nan, whole, bad, conclude, check_text, check_nullable, check_number, append_fields,
  get_field, ◌<*>◌,
}
use property_platform_backen.Validators.Schemas.{parse_create_enquiry, parse_fields, check_source}
use property_platform_backen.RateLimiter.Memory.{in_memory}
use property_platform_backen.App.{Settings, Request, post_enquiry, get_enquiries, error_response}
use property_platform_backen.App.Site.{Site, keyed_enquiry, handle_request}
use property_platform_backen.App.Reach.{
  here, then_step, requested, attempted, passed_time, reached-IsSound,
}
use property_platform_backen.App.Flood.{Visit, added, added_le}
use property_platform_backen.App.Corrected.{corrected_replayed}
use property_platform_backen.Samples.{crm, town, town-IsSound}

abbrev number : Option Json → Number
number (some (num n)) = whole n
number _ = nan

abbrev strict : Zod
strict = record { number_of = number; is_email = λ t. true; message_of = λ issue. codes "no" }

abbrev local : Settings
local = record {
  zod = strict;
  setup = crm;
  sanitize_html = λ t. t;
  normal = λ ip. ip;
  limits = record { window_ms = 60000; rate_max = 100; enquiry_max = 2 };
  origins = [];
  ttl = 300;
  is_prod = true;
}

abbrev form : Json
form = obj (
    field (codes "fullName") (str (codes "Jane Doe")) (
      field (codes "email") (str (codes "jane@example.com")) (
        field (codes "propertyId") (num 7)
          (field (codes "message") (str (codes "Interested")) end))))

-- A request of a browser at an address, with a body.
abbrev from : Text → Json → Request
from ip body = record {
  origin = none;
  x_request_id = none;
  idempotency_key = none;
  x_crm_signature = none;
  ip = some ip;
  user_agent = none;
  method = codes "POST";
  path = codes "/api/enquiry";
  path_at_end = codes "/api/enquiry";
  raw_body = [];
  parsed = ok body;
  uuid = codes "r1";
  uptime = null;
  metrics_text = [];
  listing = err (other_error none none (codes "down"));
  post = err (other_error none none (codes "down"));
  done_at = 250;
}

abbrev quiet :
    Site in_memory (memory Marker) (memory (CacheEnvelope Posts)) (memory (CacheEnvelope Json))
quiet = record {
  limiting = record { store = λ k. (0, 0); exceeded = [] };
  marks = [];
  page_cache = [];
  post_cache = [];
  world = town (refused ∷ []);
}

abbrev visits : List Visit
visits =
    (1000, from (codes "10.0.0.1") form, post_enquiry)
    ∷ (1500, from (codes "10.0.0.2") form, post_enquiry)
    ∷ (1500, from (codes "10.0.0.1") form, get_enquiries end)
    ∷ (1600, from (codes "10.0.0.1") form, post_enquiry)
    ∷ (1700, from (codes "10.0.0.1") form, post_enquiry)
    ∷ []

added_le_example :
    added in_memory
      (memory Marker)
      (memory (CacheEnvelope Posts))
      (memory (CacheEnvelope Json))
      local
      (some (codes "10.0.0.1"))
      visits
      quiet
    ≤ 2
added_le_example =
    added_le in_memory (memory Marker) (memory (CacheEnvelope Posts)) (memory (CacheEnvelope Json))
      local (some (codes "10.0.0.1")) visits 1000 61000 quiet
      (
        omega arith,
        omega arith,
        (
          omega arith,
          omega arith,
          (omega arith, omega arith, (omega arith, omega arith, (omega arith, omega arith, tt))),
        ),
      )
      (omega arith) refl (λ u p q. ground arith)

-- An enquiry, its sync by a worker, and a night in which MySQL fails once.
abbrev stored_site :
    Site in_memory (memory Marker) (memory (CacheEnvelope Posts)) (memory (CacheEnvelope Json))
stored_site =
    (handle_request in_memory (memory Marker) (memory (CacheEnvelope Posts))
      (memory (CacheEnvelope Json)) local (from (codes "10.0.0.1") form) post_enquiry quiet).1

abbrev synced_site :
    Site in_memory (memory Marker) (memory (CacheEnvelope Posts)) (memory (CacheEnvelope Json))
synced_site = record stored_site { world = (sync_process (λ made. false) 3 0 stored_site.world).1 }

reached-IsSound_example : IsSound (record synced_site.world { now = 90000; faults = refused ∷ [] })
reached-IsSound_example =
    reached-IsSound in_memory (memory Marker) (memory (CacheEnvelope Posts))
      (memory (CacheEnvelope Json)) local
      (then_step
        (then_step (then_step here (requested (from (codes "10.0.0.1") form) post_enquiry quiet))
          (attempted (λ made. false) 3 0 stored_site))
        (passed_time 90000 (refused ∷ []) synced_site))
      (town-IsSound (refused ∷ []))

-- A form without a name.
abbrev nameless : Json
nameless = obj (
    field (codes "email") (str (codes "jane@example.com"))
      (field (codes "propertyId") (num 7) (field (codes "message") (str (codes "Interested")) end)))

abbrev complaint : Fields
complaint = field (codes "fullName") (arr (cons (str (codes "no")) nil)) end

nameless_refused : parse_create_enquiry strict nameless ≡ bad complaint
unfolding parse_create_enquiry parse_fields get_field codes text_eq check_text check_nullable
    check_number check_source conclude ◌<*>◌ trim trim_start trim_end cons_unless_blank is_space
    append_fields
nameless_refused = refl

corrected_replayed_example :
    let refusal =
      error_response local
        (from (codes "10.0.0.1") nameless)
        (new_validation_error (codes "Request validation failed") (some (obj complaint))) in
    let (outcome, t) =
      keyed_enquiry in_memory
        (memory Marker)
        (memory (CacheEnvelope Posts))
        (memory (CacheEnvelope Json))
        local
        (record (from (codes "10.0.0.1") nameless) { idempotency_key = some (b'k' ∷ []) })
        nameless
        quiet in
    let t' = record t { world = record t.world { now = 5000 } } in
    (outcome ≡ answered refusal)
    × (refusal.status ≡ 400)
    × (t.world ≡ quiet.world)
    × (keyed_enquiry in_memory
          (memory Marker)
          (memory (CacheEnvelope Posts))
          (memory (CacheEnvelope Json))
          local
          (record (from (codes "10.0.0.1") form) { idempotency_key = some (b'k' ∷ []) })
          form
          t'
        ≡ (answered refusal, t'))
unfolding look_up
corrected_replayed_example =
    corrected_replayed in_memory (memory Marker) (memory (CacheEnvelope Posts))
      (memory (CacheEnvelope Json)) local b'k' [] (from (codes "10.0.0.1") nameless)
      (from (codes "10.0.0.1") form) nameless form complaint 5000 quiet nameless_refused refl
      (omega arith) (omega arith)

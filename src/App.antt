-- ===== src/App.antt =====
-- src/app.ts with src/routes: what a request goes through, in the order of the middleware. Express
-- has matched the route and parsed the body; a request for the options of a route, which `cors`
-- answers by itself, is left out.
pub mod Site
pub mod Handlers
pub mod Kept
pub mod Invariants
pub mod Reach
pub mod Counted
pub mod Foreign
pub mod Grown
pub mod Own
pub mod Flood
pub mod Corrected
pub mod Timed
pub mod Labels
pub mod Observed
mod Tests
use property_platform_backen.Prelude.{ℕ, Text, codes, Bool, Option, none, some, [], ◌∷◌}
use property_platform_backen.Json.{Json, num, str, obj, Fields, end, field}
use property_platform_backen.Errors.{Thrown, Response, error_handler, not_found_handler}
use property_platform_backen.Effects.{Result, ok, err, Exec, continue, ◌>>=◌}
use property_platform_backen.Database.{World}
use property_platform_backen.Enquiries.{CreateEnquiryContext}
use property_platform_backen.EnquiryApi.{
  respond, create_enquiry_handler, get_enquiry_handler, list_enquiries_handler, status_text,
}
use property_platform_backen.Crm.{Setup, WebhookRequest, crm_webhook_handler}
use property_platform_backen.Redis.{Redis}
use property_platform_backen.Cache.{CacheEnvelope}
use property_platform_backen.Idempotency.{Marker, Outcome, answered, serve}
use property_platform_backen.Cms.{
  Posts, list_properties_handler, get_property_by_slug_handler, invalidate_property_cache_handler,
}
use property_platform_backen.Security.{
  OriginVerdict, allow, fail, sanitize_body, cors_origin_validator, request_id,
}
use property_platform_backen.Validators.{Zod, get_field}
use property_platform_backen.Validators.Schemas.{
  WebhookInput, parse_create_enquiry, parse_enquiry_id, parse_list_query, parse_crm_webhook,
  validate,
}
use property_platform_backen.RateLimiter.{
  Counters, Limiter, Limits, Limiting, general_limiter, enquiry_limiter, webhook_limiter, key_of,
  limit,
}
use property_platform_backen.Health.{readiness}

-- The libraries and the environment: zod, the hash functions with the webhook's secret,
-- `sanitizeHtml` and `ipKeyGenerator`, the limits, the origins, the lifetime of the cache and
-- whether this is production.
pub record Settings : Type 0 where
  pub zod : Zod
  pub setup : Setup
  pub sanitize_html : Text → Text
  pub normal : Text → Text
  pub limits : Limits
  pub origins : Text
  pub ttl : ℕ
  pub is_prod : Bool

-- What the program reads of a request, what `express.json` makes of its body, what `uuidv4`
-- returns, `process.uptime` and the registry of prom-client say, how the CMS would answer, when the
-- response is sent, and what `req.path` is then.
pub record Request : Type 0 where
  pub origin : Option Text
  pub x_request_id : Option Text
  pub idempotency_key : Option Text
  pub x_crm_signature : Option Text
  pub ip : Option Text
  pub user_agent : Option Text
  pub method : Text
  pub path : Text
  pub path_at_end : Text
  pub raw_body : Text
  pub parsed : Result Json
  pub uuid : Text
  pub uptime : Json
  pub metrics_text : Text
  pub listing : Result Posts
  pub post : Result (Option Json)
  pub done_at : ℕ

-- The routes, with the parameters of a path or a query.
pub data Route : Type 0 where
  health : Route
  ready : Route
  metrics : Route
  post_enquiry : Route
  get_enquiry : Fields → Route
  get_enquiries : Fields → Route
  crm_webhook : Route
  list_properties : Option ℕ → Option Text → Route
  get_property : Text → Route
  post_invalidation : Route
  unknown_api : Route
  unknown : Route

abbrev pub health_response : Json → ℕ → Response
health_response uptime now = record {
  status = 200;
  body = obj (
      field (codes "status") (str (codes "ok"))
        (field (codes "uptime") uptime (field (codes "timestamp") (num now) end)));
}

-- The text of all metrics, which Express sends as it is.
abbrev pub metrics_response : Text → Response
metrics_response text = record { status = 200; body = str text }

-- `req.body?.slug`, where it is a text.
text_of : Option Json → Option Text
text_of (some (str t)) = some t
text_of _ = none

abbrev pub slug_of : Json → Option Text
unfolding text_of
slug_of (obj fields) = text_of (get_field (codes "slug") fields)
slug_of _ = none

-- The validated body of a webhook, with the payload that was sent.
optional : Text → Option Json → Fields → Fields
optional name none rest = rest
optional name (some v) rest = field name v rest

unfoldable pub webhook_body : WebhookInput → Option Json → Json
unfolding optional
webhook_body input payload = obj (
    field (codes "event") (str input.event) (
      field (codes "enquiryId") (num input.enquiry_id) (
        field (codes "crmRecordId") (str input.crm_record_id) (
          optional (codes "status")
            (elim input.status [ none ↦ none | some s ↦ some (str (status_text s)) ])
            (optional (codes "payload") payload end)))))

payload_of : Json → Option Json
payload_of (obj fields) = get_field (codes "payload") fields
payload_of _ = none

-- `req.ip || null`
abbrev pub or_null : Option Text → Option Text
or_null (some (c ∷ t)) = some (c ∷ t)
or_null _ = none

abbrev pub context_of : Request → CreateEnquiryContext
context_of req = record { ip_address = or_null req.ip; user_agent = or_null req.user_agent }

-- What a middleware passes on or throws.
abbrev passed_on : {A S : Type 0} → Result A → Exec S A
passed_on r s = (r, s)

module _ (settings : Settings) where
  -- `errorHandler`
  unfoldable pub error_response : Request → Thrown → Response
  error_response req e = (error_handler settings.is_prod (request_id req.x_request_id req.uuid) e).1

  unfoldable pub handled : {S : Type 0} → Request → Result Response × S → Response × S
  handled req r = respond settings.is_prod (request_id req.x_request_id req.uuid) r

  unfoldable pub webhook_request : Request → Json → WebhookInput → WebhookRequest
  unfolding payload_of
  webhook_request req body input = record {
    raw_body = req.raw_body;
    signature = req.x_crm_signature;
    body = webhook_body input (payload_of body);
    event = input.event;
    enquiry_id = input.enquiry_id;
    crm_record_id = input.crm_record_id;
    status = input.status;
    ip = or_null req.ip;
  }

  -- Behind the idempotency middleware.
  unfoldable pub validated_enquiry : Request → Json → Exec World Response
  unfolding continue
  validated_enquiry req body = do
    input ← passed_on (validate (parse_create_enquiry settings.zod body))
    create_enquiry_handler settings.setup.platform input (context_of req)

  unfoldable pub validated_get : Fields → Exec World Response
  unfolding continue
  validated_get params = do
    id ← passed_on (validate (parse_enquiry_id settings.zod params))
    get_enquiry_handler id

  unfoldable pub validated_list : Fields → Exec World Response
  unfolding continue
  validated_list query = do
    params ← passed_on (validate (parse_list_query settings.zod query))
    list_enquiries_handler params

  unfoldable pub validated_webhook : Request → Json → Exec World Response
  unfolding continue
  validated_webhook req body = do
    input ← passed_on (validate (parse_crm_webhook settings.zod body))
    crm_webhook_handler settings.setup (webhook_request req body input)

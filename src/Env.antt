-- ===== src/Env.antt =====
-- src/config/env.ts: the schema of the environment. The variables are those of `process.env` after
-- `dotenv` has added its own, and the test of `url()` is an argument.
pub mod Tested
pub mod Valid
mod Tests
use property_platform_backen.Prelude.{
  ℕ, Text, codes, text_eq, length, Bool, true, false, not, ◌||◌, Option, none, some, List, [], ◌∷◌,
  ltb, if◌then◌else◌,
}
use property_platform_backen.Json.{Json, str}
use property_platform_backen.Validators.{
  Zod, Issue, required, not_a_number, too_small, bad_choice, bad_url, Number, nan, whole, Parsed,
  good, bad, ◌<*>◌, when, conclude,
}

pub record Env : Type 0 where
  pub node_env : Text
  pub port : Number
  pub app_base_url : Text
  pub log_level : Text
  pub db_host : Text
  pub db_port : Number
  pub db_user : Text
  pub db_password : Text
  pub db_name : Text
  pub db_connection_limit : Number
  pub redis_host : Text
  pub redis_port : Number
  pub redis_password : Option Text
  pub cors_allowed_origins : Text
  pub crm_webhook_secret : Text
  pub rate_limit_window_ms : Number
  pub rate_limit_max : Number
  pub enquiry_rate_limit_max : Number
  pub wpgraphql_endpoint : Text
  pub wpgraphql_cache_ttl_seconds : Number
  pub smtp_host : Text
  pub smtp_port : Number
  pub smtp_user : Text
  pub smtp_password : Text
  pub smtp_from : Text

abbrev pub is_nan : Number → Bool
is_nan nan = true
is_nan _ = false

abbrev pub is_node_env : Text → Bool
is_node_env t =
    text_eq t (codes "development") || text_eq t (codes "test") || text_eq t (codes "production")

module _ (zod : Zod) (is_url : Text → Bool) (variables : Text → Option Text) where
  -- `z.string()` with the checks that follow.
  set_text : Text → (Text → List Issue) → Option Text → Parsed Text
  set_text name issues none = conclude zod name [] (required ∷ [])
  set_text name issues (some t) = conclude zod name t (issues t)

  unfoldable pub env_text : Text → (Text → List Issue) → Parsed Text
  unfolding set_text
  env_text name issues = set_text name issues (variables name)

  -- The same, `.default(t)`.
  or_text : Text → (Text → List Issue) → Text → Option Text → Parsed Text
  or_text name issues t none = good t
  or_text name issues t (some s) = conclude zod name s (issues s)

  unfoldable pub env_default : Text → (Text → List Issue) → Text → Parsed Text
  unfolding or_text
  env_default name issues t = or_text name issues t (variables name)

  -- `z.coerce.number().default(n)`
  or_number : Text → ℕ → Option Text → Parsed Number
  or_number name n none = good (whole n)
  or_number name n (some t) =
      conclude zod name (zod.number_of (some (str t)))
        (when (is_nan (zod.number_of (some (str t)))) not_a_number)

  unfoldable pub env_number : Text → ℕ → Parsed Number
  unfolding or_number
  env_number name n = or_number name n (variables name)

  abbrev pub any_text : Text → List Issue
  any_text t = []

  abbrev pub url_issues : Text → List Issue
  url_issues t = when (not (is_url t)) bad_url

  abbrev pub node_env_issues : Text → List Issue
  node_env_issues t = when (not (is_node_env t)) bad_choice

  abbrev pub secret_issues : Text → List Issue
  secret_issues t = when (ltb (length t) 8) too_small

  abbrev pub make_env :
      Text
      → Number
      → Text
      → Text
      → Text
      → Number
      → Text
      → Text
      → Text
      → Number
      → Text
      → Number
      → Option Text
      → Text
      → Text
      → Number
      → Number
      → Number
      → Text
      → Number
      → Text
      → Number
      → Text
      → Text
      → Text
      → Env
  make_env node_env port app_base_url log_level db_host db_port db_user db_password db_name
        db_connection_limit redis_host redis_port redis_password cors_allowed_origins
        crm_webhook_secret rate_limit_window_ms rate_limit_max enquiry_rate_limit_max
        wpgraphql_endpoint wpgraphql_cache_ttl_seconds smtp_host smtp_port smtp_user smtp_password
        smtp_from =
      record {
        node_env = node_env;
        port = port;
        app_base_url = app_base_url;
        log_level = log_level;
        db_host = db_host;
        db_port = db_port;
        db_user = db_user;
        db_password = db_password;
        db_name = db_name;
        db_connection_limit = db_connection_limit;
        redis_host = redis_host;
        redis_port = redis_port;
        redis_password = redis_password;
        cors_allowed_origins = cors_allowed_origins;
        crm_webhook_secret = crm_webhook_secret;
        rate_limit_window_ms = rate_limit_window_ms;
        rate_limit_max = rate_limit_max;
        enquiry_rate_limit_max = enquiry_rate_limit_max;
        wpgraphql_endpoint = wpgraphql_endpoint;
        wpgraphql_cache_ttl_seconds = wpgraphql_cache_ttl_seconds;
        smtp_host = smtp_host;
        smtp_port = smtp_port;
        smtp_user = smtp_user;
        smtp_password = smtp_password;
        smtp_from = smtp_from;
      }

  -- `envSchema.safeParse(process.env)`
  unfoldable pub parse_env : Parsed Env
  parse_env =
      good make_env
      <*> env_default (codes "NODE_ENV") node_env_issues (codes "development")
      <*> env_number (codes "PORT") 3000
      <*> env_default (codes "APP_BASE_URL") url_issues (codes "http://localhost:3000")
      <*> env_default (codes "LOG_LEVEL") any_text (codes "info")
      <*> env_text (codes "DB_HOST") any_text
      <*> env_number (codes "DB_PORT") 3306
      <*> env_text (codes "DB_USER") any_text
      <*> env_text (codes "DB_PASSWORD") any_text
      <*> env_text (codes "DB_NAME") any_text
      <*> env_number (codes "DB_CONNECTION_LIMIT") 10
      <*> env_text (codes "REDIS_HOST") any_text
      <*> env_number (codes "REDIS_PORT") 6379
      <*> good (variables (codes "REDIS_PASSWORD"))
      <*> env_default (codes "CORS_ALLOWED_ORIGINS") any_text []
      <*> env_text (codes "CRM_WEBHOOK_SECRET") secret_issues
      <*> env_number (codes "RATE_LIMIT_WINDOW_MS") 60000
      <*> env_number (codes "RATE_LIMIT_MAX") 100
      <*> env_number (codes "ENQUIRY_RATE_LIMIT_MAX") 5
      <*> env_text (codes "WPGRAPHQL_ENDPOINT") url_issues
      <*> env_number (codes "WPGRAPHQL_CACHE_TTL_SECONDS") 300
      <*> env_default (codes "SMTP_HOST") any_text []
      <*> env_number (codes "SMTP_PORT") 587
      <*> env_default (codes "SMTP_USER") any_text []
      <*> env_default (codes "SMTP_PASSWORD") any_text []
      <*> env_default (codes "SMTP_FROM") any_text (codes "no-reply@example.com")

-- How loading the module ends: the process exits with a code, or there are the settings and
-- `isProd`.
pub data Loaded : Type 0 where
  exits : ℕ → Loaded
  loaded : Env → Bool → Loaded

unfoldable pub load_env : Parsed Env → Loaded
load_env (good env) = loaded env (text_eq env.node_env (codes "production"))
load_env (bad errors) = exits 1

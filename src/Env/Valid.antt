-- ===== src/Env/Valid.antt =====
-- With which variables the program starts.
use property_platform_backen.Prelude.{
  ℕ, ◌≡◌, refl, ◌∙◌, Text, codes, length, Bool, true, false, not, ◌&&◌, Option, none, some, List,
  [], ◌∷◌, all, ltb,
}
use property_platform_backen.Json.{str}
use property_platform_backen.Validators.{
  Zod, Issue, required, bad_url, bad_choice, not_a_number, too_small, Parsed, good, bad, when,
  conclude,
}
use property_platform_backen.Env.{
  Env, is_nan, is_node_env, set_text, or_text, or_number, env_text, env_default, env_number,
  url_issues, node_env_issues, secret_issues, any_text, parse_env, Loaded, exits, loaded, load_env,
}
use property_platform_backen.Env.Tested.{is_good, Tested, ◌<&>◌, ◌<~>◌}

abbrev pub is_loaded : Loaded → Bool
is_loaded (exits code) = false
is_loaded (loaded env is_prod) = true

is_loaded-load_env : (p : Parsed Env) → is_loaded (load_env p) ≡ is_good p
unfolding load_env
is_loaded-load_env (good env) = refl
is_loaded-load_env (bad errors) = refl

-- Whether a variable passes a test, and if it is not set, whether it may be missing.
abbrev pub passes : Bool → (Text → Bool) → Option Text → Bool
passes absent test none = absent
passes absent test (some t) = test t

module _ (zod : Zod) (is_url : Text → Bool) (variables : Text → Option Text) where
  when-Tested :
      {A : Type 0} (name : Text) (a : A) (b : Bool) (issue : Issue)
      → Tested (conclude zod name a (when (not b) issue)) b
  unfolding conclude
  when-Tested name a true issue = record { holds = refl }
  when-Tested name a false issue = record { holds = refl }

  any-Tested : {A : Type 0} (name : Text) (a : A) → Tested (conclude zod name a []) true
  unfolding conclude
  any-Tested name a = record { holds = refl }

  unless-Tested :
      {A : Type 0} (name : Text) (a : A) (c : Bool) (issue : Issue)
      → Tested (conclude zod name a (when c issue)) (not c)
  unfolding conclude
  unless-Tested name a true issue = record { holds = refl }
  unless-Tested name a false issue = record { holds = refl }

  missing-Tested :
      {A : Type 0} (name : Text) (a : A) → Tested (conclude zod name a (required ∷ [])) false
  unfolding conclude
  missing-Tested name a = record { holds = refl }

  abbrev pub is_number : Text → Bool
  is_number t = not (is_nan (zod.number_of (some (str t))))

  abbrev pub is_long : Text → Bool
  is_long t = not (ltb (length t) 8)

  set_any :
      (name : Text) (o : Option Text)
      → Tested
          (set_text zod is_url variables name (any_text zod is_url variables) o)
          (passes false (λ t. true) o)
  unfolding set_text
  set_any name none = missing-Tested name []
  set_any name (some t) = any-Tested name t

  set_url :
      (name : Text) (o : Option Text)
      → Tested
          (set_text zod is_url variables name (url_issues zod is_url variables) o)
          (passes false is_url o)
  unfolding set_text
  set_url name none = missing-Tested name []
  set_url name (some t) = when-Tested name t (is_url t) bad_url

  set_secret :
      (name : Text) (o : Option Text)
      → Tested
          (set_text zod is_url variables name (secret_issues zod is_url variables) o)
          (passes false is_long o)
  unfolding set_text
  set_secret name none = missing-Tested name []
  set_secret name (some t) = unless-Tested name t (ltb (length t) 8) too_small

  or_any :
      (name d : Text) (o : Option Text)
      → Tested (or_text zod is_url variables name (any_text zod is_url variables) d o) true
  unfolding or_text
  or_any name d none = record { holds = refl }
  or_any name d (some t) = any-Tested name t

  or_url :
      (name d : Text) (o : Option Text)
      → Tested
          (or_text zod is_url variables name (url_issues zod is_url variables) d o)
          (passes true is_url o)
  unfolding or_text
  or_url name d none = record { holds = refl }
  or_url name d (some t) = when-Tested name t (is_url t) bad_url

  or_node_env :
      (name d : Text) (o : Option Text)
      → Tested
          (or_text zod is_url variables name (node_env_issues zod is_url variables) d o)
          (passes true is_node_env o)
  unfolding or_text
  or_node_env name d none = record { holds = refl }
  or_node_env name d (some t) = when-Tested name t (is_node_env t) bad_choice

  number-Tested :
      (name : Text) (n : ℕ) (o : Option Text)
      → Tested (or_number zod is_url variables name n o) (passes true is_number o)
  unfolding or_number
  number-Tested name n none = record { holds = refl }
  number-Tested name n (some t) =
      unless-Tested name (zod.number_of (some (str t))) (is_nan (zod.number_of (some (str t))))
        not_a_number

  -- What is asked of the variables.
  unfoldable pub demands : List Bool
  demands =
      passes true is_node_env (variables (codes "NODE_ENV"))
      ∷ passes true is_number (variables (codes "PORT"))
      ∷ passes true is_url (variables (codes "APP_BASE_URL"))
      ∷ passes false (λ t. true) (variables (codes "DB_HOST"))
      ∷ passes true is_number (variables (codes "DB_PORT"))
      ∷ passes false (λ t. true) (variables (codes "DB_USER"))
      ∷ passes false (λ t. true) (variables (codes "DB_PASSWORD"))
      ∷ passes false (λ t. true) (variables (codes "DB_NAME"))
      ∷ passes true is_number (variables (codes "DB_CONNECTION_LIMIT"))
      ∷ passes false (λ t. true) (variables (codes "REDIS_HOST"))
      ∷ passes true is_number (variables (codes "REDIS_PORT"))
      ∷ passes false is_long (variables (codes "CRM_WEBHOOK_SECRET"))
      ∷ passes true is_number (variables (codes "RATE_LIMIT_WINDOW_MS"))
      ∷ passes true is_number (variables (codes "RATE_LIMIT_MAX"))
      ∷ passes true is_number (variables (codes "ENQUIRY_RATE_LIMIT_MAX"))
      ∷ passes false is_url (variables (codes "WPGRAPHQL_ENDPOINT"))
      ∷ passes true is_number (variables (codes "WPGRAPHQL_CACHE_TTL_SECONDS"))
      ∷ passes true is_number (variables (codes "SMTP_PORT"))
      ∷ []

  chain : Bool → List Bool → Bool
  chain b [] = b
  chain b (c ∷ cs) = chain (b && c) cs

  chain-eq-all : (b : Bool) (cs : List Bool) → chain b cs ≡ (b && all (λ c. c) cs)
  unfolding chain
  chain-eq-all true [] = refl
  chain-eq-all false [] = refl
  chain-eq-all true (true ∷ cs) = chain-eq-all true cs
  chain-eq-all true (false ∷ cs) = chain-eq-all false cs
  chain-eq-all false (c ∷ cs) = chain-eq-all false cs

  parse_env-Tested : Tested (parse_env zod is_url variables) (chain true demands)
  unfolding parse_env env_text env_default env_number chain demands
  parse_env-Tested =
      record { holds = refl }
      <&> or_node_env _ _ _
      <&> number-Tested _ _ _
      <&> or_url _ _ _
      <~> or_any _ _ _
      <&> set_any _ _
      <&> number-Tested _ _ _
      <&> set_any _ _
      <&> set_any _ _
      <&> set_any _ _
      <&> number-Tested _ _ _
      <&> set_any _ _
      <&> number-Tested _ _ _
      <~> record { holds = refl }
      <~> or_any _ _ _
      <&> set_secret _ _
      <&> number-Tested _ _ _
      <&> number-Tested _ _ _
      <&> number-Tested _ _ _
      <&> set_url _ _
      <&> number-Tested _ _ _
      <~> or_any _ _ _
      <&> number-Tested _ _ _
      <~> or_any _ _ _
      <~> or_any _ _ _
      <~> or_any _ _ _

  -- The program starts just if the environment meets every demand: the host, user, password and
  -- name of the database, the host of Redis, the secret and the address of the CMS are set, the
  -- secret has at least eight units, the two addresses pass the test of `url()`, what is set for a
  -- number is not NaN, and what is set for `NODE_ENV` is one of its three texts.
  pub load_env_iff :
      is_loaded (load_env (parse_env zod is_url variables)) ≡ all (λ demand. demand) demands
  load_env_iff =
      is_loaded-load_env (parse_env zod is_url variables)
      ∙ parse_env-Tested.holds
      ∙ chain-eq-all true demands

-- ===== src/Env/Tests.antt =====
-- An instance of the theorem on the environment.
use property_platform_backen.Prelude.{
  ◌≡◌, Text, codes, text_eq, true, Option, none, some, if◌then◌else◌,
}
use property_platform_backen.Validators.{Zod, whole}
use property_platform_backen.Env.{parse_env, load_env}
use property_platform_backen.Env.Valid.{is_loaded, demands, load_env_iff}

abbrev lenient : Zod
lenient = record {
  number_of = λ v. whole 5;
  is_email = λ t. true;
  message_of = λ issue. codes "no";
}

-- Every variable but one is set.
abbrev variables : Text → Option Text
variables name = if text_eq name (codes "NODE_ENV") then none else some (codes "12345678")

load_env_iff_example : is_loaded (load_env (parse_env lenient (λ t. true) variables)) ≡ true
unfolding demands codes text_eq
load_env_iff_example = load_env_iff lenient (λ t. true) variables

-- ===== src/Validators.antt =====
-- src/validators/enquiry.validator.ts. This file has the checks of zod that the schemas are made
-- of, as zod documents them; the child Schemas has the schemas.
pub mod Schemas
pub mod Checks
pub mod Bounds
pub mod Again
pub mod Accepted
mod Tests
use property_platform_backen.Prelude.{
  ℕ, Text, text_eq, length, Bool, true, false, not, Option, none, some, List, [], ◌∷◌, ◌++◌, leb,
  ltb, ◌==◌, if◌then◌else◌,
}
use property_platform_backen.Json.{Json, null, str, arr, obj, Items, nil, cons, Fields, end, field}
use property_platform_backen.Hash.{trim}

-- What a check objects to.
pub data Issue : Type 0 where
  required wrong_type not_a_number not_whole too_small too_big bad_email bad_format bad_choice
        bad_url :
      Issue

-- A JavaScript number: NaN, a natural number, a number above one natural number and below the
-- next, Infinity, or a number below 0, whole or not.
pub data Number : Type 0 where
  nan : Number
  whole : ℕ → Number
  between : ℕ → Number
  infinite : Number
  below_zero : Bool → Number

-- What the schemas need beside the checks: `Number(v)` of a value that is there or not, the test
-- of `email()`, and the text of each issue.
pub record Zod : Type 0 where
  pub number_of : Option Json → Number
  pub is_email : Text → Bool
  pub message_of : Issue → Text

-- The result of a schema, or the `fieldErrors`.
pub data Parsed (A : Type 0) : Type 0 where
  good : A → Parsed A
  bad : Fields → Parsed A

unfoldable pub append_fields : Fields → Fields → Fields
append_fields end more = more
append_fields (field k v fields) more = field k v (append_fields fields more)

-- A value of an object: undefined if it is missing.
unfoldable pub get_field : Text → Fields → Option Json
get_field name end = none
get_field name (field k v fields) = if text_eq k name then some v else get_field name fields

infixl 40 ◌<*>◌
-- The fields of an object are all checked, also behind one that fails.
unfoldable pub ◌<*>◌ : {A B : Type 0} → Parsed (A → B) → Parsed A → Parsed B
good f <*> good a = good (f a)
good f <*> bad more = bad more
bad errors <*> good a = bad errors
bad errors <*> bad more = bad (append_fields errors more)

abbrev pub when : Bool → Issue → List Issue
when true issue = issue ∷ []
when false issue = []

-- The issues of a number: `int()`, a lower bound and an upper bound.
abbrev pub number_issues : (Number → Bool) → (Number → Bool) → Number → List Issue
number_issues low high nan = not_a_number ∷ []
number_issues low high (whole n) = when (low (whole n)) too_small ++ when (high (whole n)) too_big
number_issues low high v = not_whole ∷ (when (low v) too_small ++ when (high v) too_big)

abbrev pub whole_of : Number → ℕ
whole_of (whole n) = n
whole_of _ = 0

-- `positive()`
abbrev pub not_positive : Number → Bool
not_positive (whole n) = n == 0
not_positive (below_zero _) = true
not_positive _ = false

-- `min(1)`
abbrev pub below_one : Number → Bool
below_one (whole n) = n == 0
below_one (between n) = n == 0
below_one (below_zero _) = true
below_one _ = false

abbrev pub above : ℕ → Number → Bool
above bound (whole n) = ltb bound n
above bound (between n) = leb bound n
above bound infinite = true
above bound _ = false

abbrev pub unbounded : Number → Bool
unbounded v = false

module _ (zod : Zod) where
  messages : List Issue → Items
  messages [] = nil
  messages (issue ∷ issues) = cons (str (zod.message_of issue)) (messages issues)

  unfoldable pub conclude : {A : Type 0} → Text → A → List Issue → Parsed A
  unfolding messages
  conclude name a [] = good a
  conclude name a (issue ∷ issues) = bad (field name (arr (messages (issue ∷ issues))) end)

  -- `z.string().trim()` with the checks that follow.
  unfoldable pub check_text : Text → (Text → List Issue) → Option Json → Parsed Text
  check_text name issues none = conclude name [] (required ∷ [])
  check_text name issues (some (str s)) = conclude name (trim s) (issues (trim s))
  check_text name issues (some v) = conclude name [] (wrong_type ∷ [])

  -- The same, `.optional().nullable()`.
  unfoldable pub check_nullable : Text → (Text → List Issue) → Option Json → Parsed (Option Text)
  check_nullable name issues none = good none
  check_nullable name issues (some null) = good none
  check_nullable name issues (some (str s)) = conclude name (some (trim s)) (issues (trim s))
  check_nullable name issues (some v) = conclude name none (wrong_type ∷ [])

  -- `z.coerce.number().int()` with bounds.
  unfoldable pub check_number : Text → (Number → Bool) → (Number → Bool) → Option Json → Parsed ℕ
  check_number name low high v =
      conclude name (whole_of (zod.number_of v)) (number_issues low high (zod.number_of v))

  -- The same, `.optional()`.
  unfoldable pub check_optional_number :
      Text → (Number → Bool) → (Number → Bool) → Option Json → Parsed (Option ℕ)
  check_optional_number name low high none = good none
  check_optional_number name low high (some v) =
      conclude name (some (whole_of (zod.number_of (some v))))
        (number_issues low high (zod.number_of (some v)))

  -- The same, `.default(n)`.
  unfoldable pub check_default_number :
      Text → (Number → Bool) → (Number → Bool) → ℕ → Option Json → Parsed ℕ
  check_default_number name low high n none = good n
  check_default_number name low high n (some v) = check_number name low high (some v)

  choice : {A : Type 0} → Text → A → Option A → Parsed A
  choice name a none = conclude name a (bad_choice ∷ [])
  choice name a (some c) = good c

  -- `z.enum`, by the text of each choice. The value behind the name is the one that is given with
  -- the errors, and so never seen.
  unfoldable pub check_choice : {A : Type 0} → Text → A → (Text → Option A) → Option Json → Parsed A
  unfolding choice
  check_choice name a choose none = conclude name a (required ∷ [])
  check_choice name a choose (some (str s)) = choice name a (choose s)
  check_choice name a choose (some v) = conclude name a (wrong_type ∷ [])

-- ===== src/Json.antt =====
-- JSON values, as the bodies that the handlers send and receive. A number is one that the
-- program counts or numbers rows with: a natural number.
use property_platform_backen.Prelude.{ℕ, Bool, Text, Option, none, some}

mutual
  pub data Json : Type 0 where
    null : Json
    bool : Bool → Json
    num : ℕ → Json
    str : Text → Json
    arr : Items → Json
    obj : Fields → Json

  pub data Items : Type 0 where
    nil : Items
    cons : Json → Items → Items

  pub data Fields : Type 0 where
    end : Fields
    field : Text → Json → Fields → Fields

-- `null` stands for a missing column; `JSON.stringify` writes both alike.
abbrev pub str_or_null : Option Text → Json
str_or_null none = null
str_or_null (some s) = str s

abbrev pub num_or_null : Option ℕ → Json
num_or_null none = null
num_or_null (some n) = num n

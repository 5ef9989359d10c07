-- ===== src/Env/Tested.antt =====
-- Which fields of a schema decide whether it accepts.
use property_platform_backen.Prelude.{◌≡◌, refl, Bool, true, false, ◌&&◌}
use property_platform_backen.Validators.{Parsed, good, bad, ◌<*>◌}

abbrev pub is_good : {A : Type 0} → Parsed A → Bool
is_good (good a) = true
is_good (bad errors) = false

-- Whether the schema accepts is known.
pub record Tested {A : Type 0} (p : Parsed A) (b : Bool) : Type 0 where
  pub holds : is_good p ≡ b

is_good-<*> :
    {A B : Type 0} (f : Parsed (A → B)) (p : Parsed A)
    → is_good (f <*> p) ≡ (is_good f && is_good p)
unfolding ◌<*>◌
is_good-<*> (good g) (good a) = refl
is_good-<*> (good g) (bad e) = refl
is_good-<*> (bad e) (good a) = refl
is_good-<*> (bad e) (bad e') = refl

infixl 40 ◌<&>◌
-- A field with a test.
pub ◌<&>◌ :
    {A B : Type 0} {f : Parsed (A → B)} {p : Parsed A} {b c : Bool}
    → Tested f b
    → Tested p c
    → Tested (f <*> p) (b && c)
◌<&>◌ {f = f} {p = p} h k = record { holds = rw (is_good-<*> f p, h.holds, k.holds) refl }

and_true : (b : Bool) → (b && true) ≡ b
and_true true = refl
and_true false = refl

infixl 40 ◌<~>◌
-- A field that is always accepted.
pub ◌<~>◌ :
    {A B : Type 0} {f : Parsed (A → B)} {p : Parsed A} {b : Bool}
    → Tested f b
    → Tested p true
    → Tested (f <*> p) b
◌<~>◌ {f = f} {p = p} {b = b} h k = record {
  holds = rw (is_good-<*> f p, h.holds, k.holds) (and_true b);
}

-- ===== src/Effects/Keeps.antt =====
-- Invariants of effectful functions, which hold at the end whether a function returns or throws.
use property_platform_backen.Prelude.{Bool, true, false, Option, none, some, if◌then◌else◌}
use property_platform_backen.Errors.{Thrown}
use property_platform_backen.Effects.{
  Result, ok, err, Exec, pure, raise, or_raise, catch, continue, ◌>>=◌, raise_if,
}

-- From a state with the property the function ends in one, and not only where it returns.
pub record Keeps {S A : Type 0} (Inv : S → Type 0) (run : Exec S A) : Type 0 where
  pub at : (start : S) → Inv start → Inv (run start).1

module _ {S : Type 0} {Inv : S → Type 0} where
  -- A function that leaves the state alone.
  idle : {A : Type 0} (end : Result A) → Keeps Inv (λ state. (end, state))
  idle end = record { at = λ state known. known }

  pub Keeps-raise_if : (test : Bool) (e : Thrown) → Keeps Inv (raise_if test e)
  Keeps-raise_if test e = idle (if test then err e else ok tt)

  pub Keeps-or_raise : {A : Type 0} (found : Option A) (e : Thrown) → Keeps Inv (or_raise found e)
  Keeps-or_raise none e = idle (err e)
  Keeps-or_raise (some value) e = idle (ok value)

  pub Keeps-raise : {A : Type 0} (e : Thrown) → Keeps Inv (raise {A = A} e)
  Keeps-raise e = idle (err e)

  pub Keeps-pure : {A : Type 0} (value : A) → Keeps Inv (pure value)
  Keeps-pure value = idle (ok value)

  -- Two functions one after the other; the second may depend on what the first returns.
  continue_inv :
      {A B : Type 0} (next : A → Exec S B) (mid : Result A × S)
      → ((value : A) → Keeps Inv (next value))
      → Inv mid.1
      → Inv (continue next mid).1
  unfolding continue
  continue_inv next (err e, state) later known = known
  continue_inv next (ok value, state) later known = (later value).at state known

  pub Keeps-bind :
      {A B : Type 0} (run : Exec S A) (next : A → Exec S B)
      → Keeps Inv run
      → ((value : A) → Keeps Inv (next value))
      → Keeps Inv (run >>= next)
  Keeps-bind run next now later = record {
    at = λ state known. continue_inv next (run state) later (now.at state known);
  }

  -- The handler of an error.
  pub catch_inv :
      {A : Type 0} (handler : Thrown → Exec S A) (mid : Result A × S)
      → Inv mid.1
      → ((e : Thrown) → Keeps Inv (handler e))
      → Inv (catch handler mid).1
  unfolding catch
  catch_inv handler (err e, state) known later = (later e).at state known
  catch_inv handler (ok value, state) known later = known

-- A branch between two ends.
pub if_inv :
    {S A : Type 0} (Inv : S → Type 0) (test : Bool) (taken other : Result A × S)
    → Inv taken.1
    → Inv other.1
    → Inv (if test then taken else other).1
if_inv Inv true taken other known rest = known
if_inv Inv false taken other known rest = rest

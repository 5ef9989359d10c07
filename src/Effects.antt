-- ===== src/Effects.antt =====
-- Asynchronous functions that change shared state and may throw: what was written before a throw
-- stays written, so the state comes back beside the error too.
pub mod Keeps
use property_platform_backen.Prelude.{Bool, Option, none, some, if◌then◌else◌}
use property_platform_backen.Errors.{Thrown}

pub data Result {ℓ} (A : Type ℓ) : Type ℓ where
  ok : A → Result A
  err : Thrown → Result A

abbrev pub Exec {ℓ} : Type ℓ → Type ℓ → Type ℓ
Exec S A = S → Result A × S

module _ {ℓ} {S A : Type ℓ} where
  abbrev pub pure : A → Exec S A
  pure a s = (ok a, s)

  abbrev pub raise : Thrown → Exec S A
  raise e s = (err e, s)

  abbrev pub or_raise : Option A → Thrown → Exec S A
  or_raise none e = raise e
  or_raise (some a) e = pure a

  -- `try { m } catch (e) { f(e) }`.
  unfoldable pub catch : (Thrown → Exec S A) → Result A × S → Result A × S
  catch f (ok a, s) = (ok a, s)
  catch f (err e, s) = f e s

module _ {ℓ} {S A B : Type ℓ} where
  unfoldable pub continue : (A → Exec S B) → Result A × S → Result B × S
  continue f (ok a, s) = f a s
  continue f (err e, s) = (err e, s)

  infixl 5 ◌>>=◌
  abbrev pub ◌>>=◌ : Exec S A → (A → Exec S B) → Exec S B
  ◌>>=◌ m f s = continue f (m s)

infixl 5 ◌>>◌
abbrev pub ◌>>◌ {ℓ} : {S B : Type ℓ} → Exec S Unit → Exec S B → Exec S B
m >> k = m >>= λ _. k

abbrev pub raise_if {ℓ} : {S : Type ℓ} → Bool → Thrown → Exec S Unit
raise_if c e s = (if c then err e else ok tt, s)

abbrev pub modify {ℓ} : {S : Type ℓ} → (S → S) → Exec S Unit
modify f s = (ok tt, f s)

-- ===== src/Prelude/Widths.antt =====
-- The characters of a text and its bytes in UTF-8, by which MySQL measures a column.
use Prim.Native.Nat.{ℕ, ◌+◌, ◌*◌, ◌≤◌}
use mathlib.Core.Bool.{Bool, true, false, ◌&&◌}
use mathlib.Core.Logic.{inl, inr}
use mathlib.Core.List.{[], ◌∷◌}
use native.Mathlib.Omega.{arith}
use property_platform_backen.Prelude.Tests.{ltb, leb, if◌then◌else◌, Bool-cases}
use property_platform_backen.Prelude.Lists.{length}
use property_platform_backen.Prelude.Strings.{Text}

-- The two halves of a character outside the basic plane.
unfoldable pub is_high : ℕ → Bool
is_high c = leb 0xd800 c && leb c 0xdbff

unfoldable pub is_low : ℕ → Bool
is_low c = leb 0xdc00 c && leb c 0xdfff

-- The characters of a text behind a unit, of which it is told whether it is a high half. A half
-- without the other one counts as a character.
unfoldable pub characters_from : Bool → Text → ℕ
unfolding is_high is_low
characters_from after_high [] = 0
characters_from after_high (c ∷ s) =
    let rest = characters_from (is_high c) s in if after_high && is_low c then rest else rest + 1

unfoldable pub characters : Text → ℕ
characters = characters_from false

-- The bytes of a text in UTF-8, counted unit by unit: a high half has three, like the character
-- that replaces one that stands alone, and the low half behind it one more.
unfoldable pub bytes_from : Bool → Text → ℕ
unfolding is_high is_low
bytes_from after_high [] = 0
bytes_from after_high (c ∷ s) =
    let rest = bytes_from (is_high c) s in
    rest
    + (if after_high && is_low c then 1 else if ltb c 0x80 then 1 else if ltb c 0x800 then 2 else 3)

unfoldable pub utf8_length : Text → ℕ
utf8_length = bytes_from false

characters_from-le-length : (after_high : Bool) (s : Text) → characters_from after_high s ≤ length s
unfolding characters_from
characters_from-le-length after_high [] = omega arith
characters_from-le-length after_high (c ∷ s) =
    let h = characters_from-le-length (is_high c) s in
    elim (Bool-cases (after_high && is_low c)) [
      | inl pair ↦ rw pair (omega (arith, h))
      | inr single ↦ rw single (omega (arith, h))
    ]

pub characters-le-length : (s : Text) → characters s ≤ length s
unfolding characters
characters-le-length s = characters_from-le-length false s

unit_bytes_le :
    (pair : Bool) (c : ℕ)
    → (if pair then 1 else if ltb c 0x80 then 1 else if ltb c 0x800 then 2 else 3) ≤ 3
unit_bytes_le true c = omega arith
unit_bytes_le false c = ground arith

bytes_from_le : (after_high : Bool) (s : Text) → bytes_from after_high s ≤ 3 * length s
unfolding bytes_from
bytes_from_le after_high [] = omega arith
bytes_from_le after_high (c ∷ s) =
    omega (arith, bytes_from_le (is_high c) s, unit_bytes_le (after_high && is_low c) c)

pub utf8_length_le : (s : Text) → utf8_length s ≤ 3 * length s
unfolding utf8_length
utf8_length_le s = bytes_from_le false s

-- ===== src/Hash/Decimal.antt =====
-- Decimal printing can be read back, and prints digits only.
use property_platform_backen.Prelude.{
  ℕ, zero, suc, ◌+◌, ◌-◌, ◌*◌, ◌/◌, ◌%◌, ◌<◌, ◌≡◌, ◌≢◌, ap, sym, ◌∙◌, inl, inr, Text, decimal,
  decimal_from, [], ◌∷◌, All, ltb, Bool-cases, arith,
}

value : ℕ → Text → ℕ
value acc [] = acc
value acc (c ∷ s) = value (acc * 10 + (c - b'0')) s

value-decimal_from :
    (fuel n : ℕ) (rest : Text) → n < fuel → value 0 (decimal_from fuel n rest) ≡ value n rest
unfolding decimal_from value
value-decimal_from zero n rest h = absurd (omega arith)
value-decimal_from (suc fuel) n rest h = elim (Bool-cases (ltb n 10)) [
  | inl small ↦ rw small (ap (λ k. value k rest) (omega arith))
  | inr big ↦ rw big (
      value-decimal_from fuel (n / 10) ((b'0' + n % 10) ∷ rest) (ground arith)
      ∙ ap (λ k. value k rest) (omega arith))
]

pub decimal-injective : (m n : ℕ) → decimal m ≡ decimal n → m ≡ n
unfolding decimal value
decimal-injective m n h =
    sym (value-decimal_from (suc m) m [] (omega arith))
    ∙ ap (value 0) h
    ∙ value-decimal_from (suc n) n [] (omega arith)

decimal_from-ne :
    (bar fuel n : ℕ) (rest : Text)
    → 57 < bar
    → All (λ c. c ≢ bar) rest
    → All (λ c. c ≢ bar) (decimal_from fuel n rest)
unfolding decimal_from
decimal_from-ne bar zero n rest h k = k
decimal_from-ne bar (suc fuel) n rest h k = elim (Bool-cases (ltb n 10)) [
  | inl small ↦ rw small (ground arith, k)
  | inr big ↦ rw big (decimal_from-ne bar fuel (n / 10) ((b'0' + n % 10) ∷ rest) h (omega arith, k))
]

pub decimal-ne : (bar n : ℕ) → 57 < bar → All (λ c. c ≢ bar) (decimal n)
unfolding decimal
decimal-ne bar n h = decimal_from-ne bar (suc n) n [] h tt

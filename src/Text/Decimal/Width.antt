-- ===== src/Text/Decimal/Width.antt =====
-- How many digits a number has.
use ti_relay_trader.Prelude.{
  ℕ, zero, suc, ◌+◌, ◌*◌, ◌/◌, ◌%◌, ◌≤◌, ◌<◌, String, inl, inr, arith, ltb, Bool-cases, length,
}
use ti_relay_trader.Prelude.Int.{pos}
use ti_relay_trader.Text.{codes}
use ti_relay_trader.Text.Decimal.{digit, print, itoa}

-- A power of ten
unfoldable pub tens : ℕ → ℕ
tens zero = 1
tens (suc k) = 10 * tens k

tens_pos : (k : ℕ) → 1 ≤ tens k
unfolding tens
tens_pos zero = omega arith
tens_pos (suc k) = omega (arith, tens_pos k)

print-width :
    (k fuel n : ℕ) (out : String)
    → n < fuel
    → tens k ≤ n
    → suc k + length (codes out) ≤ length (codes (print fuel n out))
unfolding print tens
print-width k zero n out h t = absurd (omega arith)
print-width zero (suc fuel) n out h t = elim (Bool-cases (ltb n 10)) [
  | inl small ↦ rw small (omega arith)
  | inr large ↦
      let more =
        print-width zero fuel (n / 10) (String.◌∷◌ (digit (n % 10)) out) (ground arith)
          (ground arith) in
      rw large (omega (arith, more))
]
print-width (suc k) (suc fuel) n out h t = elim (Bool-cases (ltb n 10)) [
  | inl small ↦ absurd (ground (arith, tens_pos k))
  | inr large ↦
      let more =
        print-width k fuel (n / 10) (String.◌∷◌ (digit (n % 10)) out) (ground arith)
          (omega arith) in
      rw large (omega (arith, more))
]

-- A number from 10 ^ k on has more than k digits.
pub itoa-width : (k n : ℕ) → tens k ≤ n → suc k ≤ length (codes (itoa (pos n)))
unfolding itoa
itoa-width k n t = let w = print-width k (suc n) n String.[] (omega arith) t in omega (arith, w)

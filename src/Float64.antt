-- ===== src/Float64.antt =====
-- Go's `float64`, as far as the program compares prices. Each finite double is a whole number of
-- units of 2 ^ -1074, so `finite z` stands for z units exactly, and both zeros for `finite (pos 0)`.
use ti_relay_trader.Prelude.{Bool, true, false, ◌&&◌, ◌≡◌, arith, ◌==◌}
use ti_relay_trader.Prelude.Int.{ℤ, pos, leb_ℤ, ltb_ℤ, pos_part, neg_part}

pub data Float64 : Type 0 where
  nan neg_inf pos_inf : Float64
  finite : ℤ → Float64

-- `x <= 0`: false for NaN
unfoldable pub le_zero : Float64 → Bool
le_zero nan = false
le_zero neg_inf = true
le_zero pos_inf = false
le_zero (finite z) = leb_ℤ z (pos 0)

-- `x < y` of floats: false for NaN
unfoldable pub lt : Float64 → Float64 → Bool
lt nan y = false
lt x nan = false
lt neg_inf neg_inf = false
lt neg_inf y = true
lt pos_inf y = false
lt (finite a) neg_inf = false
lt (finite a) pos_inf = true
lt (finite a) (finite b) = ltb_ℤ a b

abbrev same_int : ℤ → ℤ → Bool
same_int a b = pos_part a == pos_part b && neg_part a == neg_part b

-- `x == y`: NaN equals nothing
unfoldable pub eq : Float64 → Float64 → Bool
eq neg_inf neg_inf = true
eq pos_inf pos_inf = true
eq (finite a) (finite b) = same_int a b
eq _ _ = false

-- Neither NaN nor an infinity, which encoding/json refuses.
unfoldable pub is_finite : Float64 → Bool
is_finite (finite z) = true
is_finite _ = false

pub eq_refl_of_finite : (x : Float64) → is_finite x ≡ true → eq x x ≡ true
unfolding eq is_finite
eq_refl_of_finite (finite z) h = ground arith
eq_refl_of_finite _ h = ground arith

-- What the processor answers: products, differences and conversions, rounded as IEEE 754 has it.
pub record Arithmetic : Type 0 where
  pub times : Float64 → Float64 → Float64
  pub minus : Float64 → Float64 → Float64
  pub of_int : ℤ → Float64

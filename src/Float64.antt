-- ===== src/Float64.antt =====
-- Go's `float64`: an IEEE 754 double, by its 64 bits. The comparisons of the language are those of
-- sign and magnitude; a NaN is unordered and unequal to everything, and the two zeros are equal.
-- Sums and quotients are rounded by the hardware and enter where they are used, as parameters.
use iot_api.Common.{ℕ, ◌%◌, ◌^◌, ◌≡◌, Bool, true, false, not, ◌&&◌, arith, ltb, leb, if◌then◌else◌}
use iot_api.Common.Int.{ℤ, pos, sub_ℕ, ltb_ℤ, leb_ℤ}

pub record Float64 : Type 0 where
  pub bits : ℕ

-- All bits but the sign.
unfoldable pub magnitude : Float64 → ℕ
magnitude x = x.bits % 2 ^ 63

unfoldable pub is_negative : Float64 → Bool
is_negative x = leb (2 ^ 63) x.bits

-- The exponent is all ones and the fraction is not zero.
unfoldable pub is_nan : Float64 → Bool
is_nan x = ltb 0x7ff0_0000_0000_0000 (magnitude x)

-- The place of a number among the doubles, -0 and +0 at 0.
unfoldable pub rank : Float64 → ℤ
rank x = if is_negative x then sub_ℕ 0 (magnitude x) else pos (magnitude x)

-- `x < y`.
unfoldable pub lt : Float64 → Float64 → Bool
lt x y = not (is_nan x) && not (is_nan y) && ltb_ℤ (rank x) (rank y)

-- `x <= y`.
unfoldable pub le : Float64 → Float64 → Bool
le x y = not (is_nan x) && not (is_nan y) && leb_ℤ (rank x) (rank y)

-- `x == y`.
unfoldable pub eq : Float64 → Float64 → Bool
eq x y = le x y && le y x

module _ (x y : Float64) where
  pub le_trans : (z : Float64) → le x y ≡ true → le y z ≡ true → le x z ≡ true
  unfolding le
  le_trans z h k = ground arith

  -- Between numbers, `<` is the negation of `>=`.
  pub lt-eq-not-le : is_nan x ≡ false → is_nan y ≡ false → lt x y ≡ not (le y x)
  unfolding lt le
  lt-eq-not-le h k = ground arith

  pub le-not-nan : le x y ≡ true → (is_nan x ≡ false) × (is_nan y ≡ false)
  unfolding le
  le-not-nan h = ground arith

  pub le_of_lt : lt x y ≡ true → le x y ≡ true
  unfolding lt le
  le_of_lt h = ground arith

pub le_of_not-lt :
    (x y : Float64) → is_nan x ≡ false → is_nan y ≡ false → lt x y ≡ false → le y x ≡ true
unfolding lt le
le_of_not-lt x y h k l = ground arith

pub le_refl : (x : Float64) → is_nan x ≡ false → le x x ≡ true
unfolding le
le_refl x h = ground arith

pub lt_irrefl : (x : Float64) → lt x x ≡ false
unfolding lt
lt_irrefl x = ground arith

-- ===== src/Double.antt =====
-- The type `double`, which every component computes with: the operations that the code uses, as the
-- fields of an instance, and the laws of IEEE 754 comparisons that the theorems rest on.
-- `a > b` is `lt b a` and `a >= b` is `le b a`, which are the same tests, with NaN too.
pub mod Fixed
use robot_controller.Prelude.{
  ◌+◌, ◌*◌, ◌*ℤ◌, pos, suc, some, pos_part, neg_part, ℕ, ◌^◌, ◌≤◌, ◌<◌, ℤ, ◌≡◌, Bool, true, false,
  Option,
}

pub record Double (W : Type 0) : Type 0 where
  -- `decimal m k` is the literal m / 10^k.
  pub decimal : ℕ → ℕ → W
  pub add : W → W → W
  pub sub : W → W → W
  pub mul : W → W → W
  pub div : W → W → W
  pub neg : W → W
  pub lt : W → W → Bool
  pub le : W → W → Bool
  pub eq : W → W → Bool
  pub is_finite : W → Bool
  -- `static_cast<double>` of an integer.
  pub of_int : ℤ → W
  -- The value truncated toward zero; `none` for NaN and the infinities.
  pub trunc : W → Option ℤ

-- Laws of the comparisons, NaN included: `le x x` is false for NaN alone, and a comparison with NaN
-- is false.
pub record IsOrdered (W : Type 0) ⦃d : Double W⦄ : Type 0 where
  pub lt_irrefl : (x : W) → d.lt x x ≡ false
  pub lt_asymm : (x y : W) → d.lt x y ≡ true → d.lt y x ≡ false
  pub le_of_lt : (x y : W) → d.lt x y ≡ true → d.le x y ≡ true
  pub lt_numbers : (x y : W) → d.lt x y ≡ true → (d.le x x ≡ true) × (d.le y y ≡ true)
  pub le_numbers : (x y : W) → d.le x y ≡ true → (d.le x x ≡ true) × (d.le y y ≡ true)
  pub lt_of_le : (x y : W) → d.le x y ≡ true → d.lt y x ≡ false
  pub le_of_lt_false :
      (x y : W) → d.le x x ≡ true → d.le y y ≡ true → d.lt y x ≡ false → d.le x y ≡ true
  pub le_trans : (x y z : W) → d.le x y ≡ true → d.le y z ≡ true → d.le x z ≡ true
  pub finite_le : (x : W) → d.is_finite x ≡ true → d.le x x ≡ true
  -- A value between two finite ones is finite.
  pub finite_between :
      (x y z : W)
      → d.is_finite x ≡ true
      → d.is_finite z ≡ true
      → d.le x y ≡ true
      → d.le y z ≡ true
      → d.is_finite y ≡ true
  -- Negation is exact, and turns the order round.
  pub neg_finite : (x : W) → d.is_finite x ≡ true → d.is_finite (d.neg x) ≡ true
  pub neg_le : (x y : W) → d.le x y ≡ true → d.le (d.neg y) (d.neg x) ≡ true
  -- Literals that are whole numbers keep their order, and a small one is finite.
  pub decimal_le : (m n : ℕ) → m ≤ n → d.le (d.decimal m 0) (d.decimal n 0) ≡ true
  pub decimal_finite : (m : ℕ) → m < 2 ^ 53 → d.is_finite (d.decimal m 0) ≡ true
  -- The negation of 0.0 compares equal to it.
  pub le_neg_zero : d.le (d.decimal 0 0) (d.neg (d.decimal 0 0)) ≡ true
  pub neg_zero_le : d.le (d.neg (d.decimal 0 0)) (d.decimal 0 0) ≡ true

-- Laws of the conversion to hundredths, for numbers that whole numbers below 2^53 bound.
pub record IsTruncating (W : Type 0) ⦃d : Double W⦄ : Type 0 where
  -- The product with 100 rounds to a number between the same bounds times 100.
  pub mul_hundred :
      (x : W) (m : ℕ)
      → m * 100 < 2 ^ 53
      → d.le (d.neg (d.decimal m 0)) x ≡ true
      → d.le x (d.decimal m 0) ≡ true
      → (d.le (d.neg (d.decimal (m * 100) 0)) (d.mul x (d.decimal 100 0)) ≡ true)
        × (d.le (d.mul x (d.decimal 100 0)) (d.decimal (m * 100) 0) ≡ true)
  pub trunc_between :
      (x : W) (m : ℕ)
      → m < 2 ^ 53
      → d.le (d.neg (d.decimal m 0)) x ≡ true
      → d.le x (d.decimal m 0) ≡ true
      → (n : ℤ) × (d.trunc x ≡ some n) × (pos_part n + neg_part n ≤ m)

-- A number between the negation of a whole number and it.
abbrev pub Within : {W : Type 0} ⦃d : Double W⦄ → ℕ → W → Type 0
Within ⦃d⦄ m x = (d.le (d.neg (d.decimal m 0)) x ≡ true) × (d.le x (d.decimal m 0) ≡ true)

-- Laws of rounding: whole numbers below 2^53 are exact, so a result that would be between two of them
-- is so after rounding too.
pub record IsRounding (W : Type 0) ⦃d : Double W⦄ : Type 0 where
  -- The literal m / 10^k.
  pub decimal_within : (m k n : ℕ) → n < 2 ^ 53 → m ≤ n * 10 ^ k → Within n (d.decimal m k)
  pub neg_within : (x : W) (m : ℕ) → m < 2 ^ 53 → Within m x → Within m (d.neg x)
  pub add_within :
      (x y : W) (m n : ℕ) → m + n < 2 ^ 53 → Within m x → Within n y → Within (m + n) (d.add x y)
  pub sub_within :
      (x y : W) (m n : ℕ) → m + n < 2 ^ 53 → Within m x → Within n y → Within (m + n) (d.sub x y)
  pub mul_within :
      (x y : W) (m n : ℕ)
      → m < 2 ^ 53
      → n < 2 ^ 53
      → m * n < 2 ^ 53
      → Within m x
      → Within n y
      → Within (m * n) (d.mul x y)

-- Laws of exact results: integers below 2^53 are numbers, so a product and a quotient that are such
-- integers are not rounded.
pub record IsExact (W : Type 0) ⦃d : Double W⦄ : Type 0 where
  pub of_int_pos : (m : ℕ) → m < 2 ^ 53 → d.of_int (pos m) ≡ d.decimal m 0
  pub mul_int :
      (a : ℤ) (n : ℕ)
      → (pos_part a + neg_part a) * n < 2 ^ 53
      → pos_part a + neg_part a < 2 ^ 53
      → 0 < n  -- the product of a negative number and zero is -0.0
      → n < 2 ^ 53
      → d.mul (d.of_int a) (d.decimal n 0) ≡ d.of_int (a *ℤ pos n)
  pub div_int :
      (a : ℤ) (n : ℕ)
      → (pos_part a + neg_part a) * suc n < 2 ^ 53
      → suc n < 2 ^ 53
      → d.div (d.of_int (a *ℤ pos (suc n))) (d.decimal (suc n) 0) ≡ d.of_int a
  pub trunc_int : (a : ℤ) → pos_part a + neg_part a < 2 ^ 53 → d.trunc (d.of_int a) ≡ some a

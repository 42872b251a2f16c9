-- ===== src/Double/Fixed/Rounding.antt =====
-- Thousandths meet the laws of rounding.
use native.Mathlib.Nat.{div-zero, div-mul-le_self, mul-le-mul, le_of_mul-le-mul_left}
use robot_controller.Prelude.{
  zero, suc, ◌*◌, ◌/◌, ◌^◌, ◌+◌, ◌≡◌, refl, ◌≤◌, ℕ, ℤ, pos, negsuc, ◌+ℤ◌, ◌*ℤ◌, quot, pos_part,
  neg_part, arith,
}
use robot_controller.Double.{IsRounding, Within}
use robot_controller.Double.Fixed.{
  Fixed, nan, below, fin, above, negate, plus, times, fixed_double, between, between_of_le,
}

div_bound : (a b k : ℕ) → a ≤ b * k → a / k ≤ b
div_bound a b zero h = rw (div-zero a) (omega arith)
div_bound a b (suc k) h =
    let down = div-mul-le_self a (suc k) in
    le_of_mul-le-mul_left {k = suc k} (omega (arith, down, h)) (omega arith)

decimal_bound : (m k n : ℕ) → m ≤ n * 10 ^ k → m * 1000 / 10 ^ k ≤ n * 1000
decimal_bound m k n h = div_bound (m * 1000) (n * 1000) (10 ^ k) (omega (arith, h))

-- A number of thousandths in a range.
finite_within :
    (x : Fixed) (m : ℕ) → Within m x → (a : ℤ) × (x ≡ fin a) × (pos_part a + neg_part a ≤ m * 1000)
finite_within nan m (h, k) = absurd (ground (arith))
finite_within below m (h, k) = absurd (ground (arith))
finite_within above m (h, k) = absurd (ground (arith))
finite_within (fin a) m (h, k) = (a, refl, between a m h k)

within_finite : (a : ℤ) (m : ℕ) → pos_part a + neg_part a ≤ m * 1000 → Within m (fin a)
within_finite a m h = between_of_le a m h

negate_size : (a : ℤ) (m : ℕ) → pos_part a + neg_part a ≤ m * 1000 → Within m (negate (fin a))
negate_size a m h = ground arith

+ℤ_size :
    (a b : ℤ) (m n : ℕ)
    → pos_part a + neg_part a ≤ m * 1000
    → pos_part b + neg_part b ≤ n * 1000
    → pos_part (a +ℤ b) + neg_part (a +ℤ b) ≤ (m + n) * 1000
unfolding ◌+ℤ◌
+ℤ_size a b m n h k = ground arith

quot_size :
    (a : ℤ) (m k : ℕ)
    → pos_part a + neg_part a ≤ m * k
    → pos_part (quot a k) + neg_part (quot a k) ≤ m
unfolding quot
quot_size (pos n) m k h = ground (arith, div_bound n m k)
quot_size (negsuc n) m k h = ground (arith, div_bound (suc n) m k)

*ℤ_size :
    (a b : ℤ) (m n : ℕ)
    → pos_part a + neg_part a ≤ m
    → pos_part b + neg_part b ≤ n
    → pos_part (a *ℤ b) + neg_part (a *ℤ b) ≤ m * n
unfolding ◌*ℤ◌
*ℤ_size (pos a) (pos b) m n h k =
    let bound : a * b ≤ m * n = mul-le-mul (omega (arith, h)) (omega (arith, k)) in ground (arith)
*ℤ_size (pos a) (negsuc b) m n h k =
    let bound : a * suc b ≤ m * n = mul-le-mul (omega (arith, h)) (omega (arith, k)) in
    ground (arith)
*ℤ_size (negsuc a) (pos b) m n h k =
    let bound : suc a * b ≤ m * n = mul-le-mul (omega (arith, h)) (omega (arith, k)) in
    ground (arith)
*ℤ_size (negsuc a) (negsuc b) m n h k =
    let bound : suc a * suc b ≤ m * n = mul-le-mul (omega (arith, h)) (omega (arith, k)) in
    ground (arith)

negate_within : (x : Fixed) (m : ℕ) → Within m x → Within m (negate x)
negate_within x m h = let (a, e, size) = finite_within x m h in rw e (negate_size a m size)

plus_within : (x y : Fixed) (m n : ℕ) → Within m x → Within n y → Within (m + n) (plus x y)
plus_within x y m n h k =
    let (a, e, small) = finite_within x m h in
    let (b, f, small') = finite_within y n k in
    rw (e, f) (within_finite (a +ℤ b) (m + n) (+ℤ_size a b m n small small'))

times_within : (x y : Fixed) (m n : ℕ) → Within m x → Within n y → Within (m * n) (times x y)
times_within x y m n h k =
    let (a, e, small) = finite_within x m h in
    let (b, f, small') = finite_within y n k in
    let product = *ℤ_size a b (m * 1000) (n * 1000) small small' in
    rw (e, f)
      (within_finite (quot (a *ℤ b) 1000) (m * n)
        (quot_size (a *ℤ b) (m * n * 1000) 1000 (omega (arith, product))))

pub Fixed-IsRounding : IsRounding Fixed
Fixed-IsRounding = record {
  decimal_within = λ m k n small h.
      within_finite (pos (m * 1000 / 10 ^ k)) n (omega (arith, decimal_bound m k n h));
  neg_within = λ x m small h. negate_within x m h;
  add_within = λ x y m n small h k. plus_within x y m n h k;
  sub_within = λ x y m n small h k. plus_within x (negate y) m n h (negate_within y n k);
  mul_within = λ x y m n a b c h k. times_within x y m n h k;
}

-- ===== src/Double/Fixed/Exact.antt =====
-- Thousandths meet the laws of exact results.
use native.Mathlib.Nat.{mul-div_cancel}
use robot_controller.Prelude.{
  ◌<◌, zero, suc, ◌*◌, ◌/◌, ◌≡◌, refl, ap, ℕ, ℤ, pos, negsuc, sub_ℕ, ◌*ℤ◌, quot, some, arith,
}
use robot_controller.Double.{IsExact}
use robot_controller.Double.Fixed.{Fixed, fin, over, fixed_double}

*ℤ_pos : (a b : ℕ) → pos a *ℤ pos b ≡ pos (a * b)
unfolding ◌*ℤ◌
*ℤ_pos a b = ground arith

*ℤ_negsuc : (a b : ℕ) → negsuc a *ℤ pos b ≡ sub_ℕ 0 (suc a * b)
unfolding ◌*ℤ◌
*ℤ_negsuc a b = ground arith

quot-sub_ℕ : (n k : ℕ) → quot (sub_ℕ 0 n) (suc k) ≡ sub_ℕ 0 (n / suc k)
unfolding quot
quot-sub_ℕ n k = ground arith

sub_ℕ_times : (n b : ℕ) → sub_ℕ 0 n *ℤ pos b ≡ sub_ℕ 0 (n * b)
unfolding ◌*ℤ◌
sub_ℕ_times zero b = ground arith
sub_ℕ_times (suc n) b = ground arith

quot-thousand : (a : ℤ) → quot (a *ℤ pos 1000) 1000 ≡ a
unfolding quot ◌*ℤ◌
quot-thousand a = ground arith

-- Products and quotients of thousandths.
mul_thousand :
    (a : ℤ) (n : ℕ) → quot ((a *ℤ pos 1000) *ℤ pos (n * 1000)) 1000 ≡ (a *ℤ pos n) *ℤ pos 1000
unfolding quot
mul_thousand (pos k) n =
    rw (*ℤ_pos k 1000, *ℤ_pos (k * 1000) (n * 1000), *ℤ_pos k n, *ℤ_pos (k * n) 1000)
      (ap pos (omega arith))
mul_thousand (negsuc k) n =
    rw
      (
        *ℤ_negsuc k 1000,
        sub_ℕ_times (suc k * 1000) (n * 1000),
        quot-sub_ℕ (suc k * 1000 * (n * 1000)) 999,
        *ℤ_negsuc k n,
        sub_ℕ_times (suc k * n) 1000,
      )
      (ap (sub_ℕ 0) (omega arith))

cancel : (x n : ℕ) → x * suc n * 1000 * 1000 / (suc n * 1000) ≡ x * 1000
cancel x n =
    let e : x * suc n * 1000 * 1000 ≡ x * 1000 * (suc n * 1000) = omega arith in
    rw e (mul-div_cancel (x * 1000) (omega arith))

quot-sub_ℕ_pos : (n k : ℕ) → 0 < k → quot (sub_ℕ 0 n) k ≡ sub_ℕ 0 (n / k)
quot-sub_ℕ_pos n zero h = absurd (omega arith)
quot-sub_ℕ_pos n (suc k) h = quot-sub_ℕ n k

div_thousand :
    (a : ℤ) (n : ℕ)
    → quot (((a *ℤ pos (suc n)) *ℤ pos 1000) *ℤ pos 1000) (suc n * 1000) ≡ a *ℤ pos 1000
unfolding quot
div_thousand (pos k) n =
    rw (*ℤ_pos k (suc n), *ℤ_pos (k * suc n) 1000, *ℤ_pos (k * suc n * 1000) 1000, *ℤ_pos k 1000)
      (ap pos (cancel k n))
div_thousand (negsuc k) n =
    rw
      (
        *ℤ_negsuc k (suc n),
        sub_ℕ_times (suc k * suc n) 1000,
        sub_ℕ_times (suc k * suc n * 1000) 1000,
        quot-sub_ℕ_pos (suc k * suc n * 1000 * 1000) (suc n * 1000) (omega arith),
        *ℤ_negsuc k 1000,
      )
      (ap (sub_ℕ 0) (cancel (suc k) n))

over_thousand : (x : ℤ) (k : ℕ) → 0 < k → over (fin x) (fin (pos k)) ≡ fin (quot (x *ℤ pos 1000) k)
over_thousand x zero h = absurd (omega arith)
over_thousand x (suc k) h = refl

of_int_whole : (m : ℕ) → fin (pos m *ℤ pos 1000) ≡ fin (pos (m * 1000 / 1))
of_int_whole m = let one : m * 1000 / 1 ≡ m * 1000 = omega arith in rw (*ℤ_pos m 1000, one) refl

-- The laws can be met.
pub Fixed-IsExact : IsExact Fixed
Fixed-IsExact = record {
  of_int_pos = λ m small. of_int_whole m;
  mul_int = λ a n small h positive k.
      let one : n * 1000 / 1 ≡ n * 1000 = omega arith in rw one (ap fin (mul_thousand a n));
  div_int = λ a n small h.
      let one : suc n * 1000 / 1 ≡ suc n * 1000 = omega arith in
      rw (one, over_thousand ((a *ℤ pos (suc n)) *ℤ pos 1000) (suc n * 1000) (omega arith))
        (ap fin (div_thousand a n));
  trunc_int = λ a small. ap some (quot-thousand a);
}

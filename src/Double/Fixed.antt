-- ===== src/Double/Fixed.antt =====
-- A concrete number type that meets the laws, for tests: thousandths with the infinities and NaN.
-- Products and quotients are cut to a thousandth; sums are exact.
pub mod Rounding
pub mod Exact
use robot_controller.Prelude.{
  zero, suc, ◌*◌, ◌/◌, ◌^◌, Bool, true, false, ◌&&◌, ◌≡◌, refl, ℕ, ◌≤◌, Option, none, some, arith,
  ℤ, pos, negsuc, sub_ℕ, ◌+ℤ◌, ◌*ℤ◌, quot, ltb_ℤ, leb_ℤ, ◌+◌, pos_part, neg_part,
}
use robot_controller.Double.{Double, IsOrdered, IsTruncating}

pub data Fixed : Type 0 where
  nan : Fixed
  below : Fixed
  fin : ℤ → Fixed
  above : Fixed

abbrev pub negate : Fixed → Fixed
negate nan = nan
negate below = above
negate (fin (pos n)) = fin (sub_ℕ 0 n)
negate (fin (negsuc n)) = fin (pos (suc n))
negate above = below

abbrev pub less : Fixed → Fixed → Bool
less nan y = false
less below nan = false
less below below = false
less below y = true
less (fin a) (fin b) = ltb_ℤ a b
less (fin a) above = true
less (fin a) y = false
less above y = false

abbrev pub at_most : Fixed → Fixed → Bool
at_most nan y = false
at_most below nan = false
at_most below y = true
at_most (fin a) (fin b) = leb_ℤ a b
at_most (fin a) above = true
at_most (fin a) y = false
at_most above above = true
at_most above y = false

abbrev pub plus : Fixed → Fixed → Fixed
plus nan y = nan
plus x nan = nan
plus below above = nan
plus below y = below
plus above below = nan
plus above y = above
plus (fin a) below = below
plus (fin a) above = above
plus (fin a) (fin b) = fin (a +ℤ b)

-- An infinity with the sign of the number.
abbrev toward : ℤ → Fixed
toward (pos zero) = nan
toward (pos n) = above
toward (negsuc n) = below

abbrev pub times : Fixed → Fixed → Fixed
times nan y = nan
times x nan = nan
times (fin a) (fin b) = fin (quot (a *ℤ b) 1000)
times (fin a) above = toward a
times (fin a) below = negate (toward a)
times above (fin b) = toward b
times below (fin b) = negate (toward b)
times above y = y
times below y = negate y

abbrev pub over : Fixed → Fixed → Fixed
over nan y = nan
over x nan = nan
over (fin a) (fin (pos zero)) = toward a
over (fin a) (fin (pos k)) = fin (quot (a *ℤ pos 1000) k)
over (fin a) (fin (negsuc k)) = negate (fin (quot (a *ℤ pos 1000) (suc k)))
over (fin a) y = fin (pos 0)
over above (fin (pos k)) = above
over below (fin (pos k)) = below
over above (fin (negsuc k)) = below
over below (fin (negsuc k)) = above
over above y = nan
over below y = nan

abbrev pub finite : Fixed → Bool
finite (fin a) = true
finite x = false

abbrev pub whole : Fixed → Option ℤ
whole (fin a) = some (quot a 1000)
whole x = none

instance abbrev pub fixed_double : Double Fixed
fixed_double = record {
  decimal = λ m k. fin (pos (m * 1000 / 10 ^ k));
  add = plus;
  sub = λ x y. plus x (negate y);
  mul = times;
  div = over;
  neg = negate;
  lt = less;
  le = at_most;
  eq = λ x y. at_most x y && at_most y x;
  is_finite = finite;
  of_int = λ n. fin (n *ℤ pos 1000);
  trunc = whole;
}

decimal_at_most :
    (m n : ℕ) → m ≤ n → at_most (fixed_double.decimal m 0) (fixed_double.decimal n 0) ≡ true
decimal_at_most m n h = ground arith

-- The laws of comparison can be met.
pub Fixed-IsOrdered : IsOrdered Fixed
Fixed-IsOrdered = record {
  lt_irrefl = λ x. ground arith;
  lt_asymm = λ x y h. ground arith;
  le_of_lt = λ x y h. ground arith;
  lt_numbers = λ x y h. ground arith;
  le_numbers = λ x y h. ground arith;
  lt_of_le = λ x y h. ground arith;
  le_of_lt_false = λ x y h k l. ground arith;
  le_trans = λ x y z h k. ground arith;
  finite_le = λ x h. ground arith;
  finite_between = λ x y z h k l m. ground arith;
  neg_finite = λ x h. ground arith;
  neg_le = λ x y h. ground arith;
  decimal_le = decimal_at_most;
  decimal_finite = λ m h. refl;
  le_neg_zero = ground arith;
  neg_zero_le = ground arith;
}

quot_hundred :
    (a : ℤ) (m : ℕ)
    → pos_part a + neg_part a ≤ m * 1000
    → pos_part (quot (a *ℤ pos 100_000) 1000) + neg_part (quot (a *ℤ pos 100_000) 1000)
      ≤ m * 100 * 1000
unfolding quot ◌*ℤ◌
quot_hundred a m h = ground arith

quot_thousand :
    (a : ℤ) (m : ℕ)
    → pos_part a + neg_part a ≤ m * 1000
    → pos_part (quot a 1000) + neg_part (quot a 1000) ≤ m
unfolding quot
quot_thousand a m h = ground arith

pub between :
    (a : ℤ) (m : ℕ)
    → at_most (negate (fixed_double.decimal m 0)) (fin a) ≡ true
    → at_most (fin a) (fixed_double.decimal m 0) ≡ true
    → pos_part a + neg_part a ≤ m * 1000
between a m h k = ground arith

pub between_of_le :
    (a : ℤ) (m : ℕ)
    → pos_part a + neg_part a ≤ m * 1000
    → (at_most (negate (fixed_double.decimal m 0)) (fin a) ≡ true)
      × (at_most (fin a) (fixed_double.decimal m 0) ≡ true)
between_of_le a m h = ground arith

times_hundred :
    (x : Fixed) (m : ℕ)
    → at_most (negate (fixed_double.decimal m 0)) x ≡ true
    → at_most x (fixed_double.decimal m 0) ≡ true
    → (at_most (negate (fixed_double.decimal (m * 100) 0)) (times x (fixed_double.decimal 100 0))
        ≡ true)
      × (at_most (times x (fixed_double.decimal 100 0)) (fixed_double.decimal (m * 100) 0) ≡ true)
times_hundred nan m h k = absurd (ground (arith))
times_hundred below m h k = absurd (ground (arith))
times_hundred above m h k = absurd (ground (arith))
times_hundred (fin a) m h k = between_of_le _ (m * 100) (quot_hundred a m (between a m h k))

whole_between :
    (x : Fixed) (m : ℕ)
    → at_most (negate (fixed_double.decimal m 0)) x ≡ true
    → at_most x (fixed_double.decimal m 0) ≡ true
    → (n : ℤ) × (whole x ≡ some n) × (pos_part n + neg_part n ≤ m)
whole_between nan m h k = absurd (ground (arith))
whole_between below m h k = absurd (ground (arith))
whole_between above m h k = absurd (ground (arith))
whole_between (fin a) m h k = (quot a 1000, refl, quot_thousand a m (between a m h k))

-- So can those of the conversion.
pub Fixed-IsTruncating : IsTruncating Fixed
Fixed-IsTruncating = record {
  mul_hundred = λ x m small h k. times_hundred x m h k;
  trunc_between = λ x m small h k. whole_between x m h k;
}

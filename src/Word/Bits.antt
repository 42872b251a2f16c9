-- ===== src/Word/Bits.antt =====
-- Bytes taken out of a word and put together again. The operations on bits stand for a recursion on
-- binary digits with fuel; of that only the equations for the lowest digit are used.
use Prim.Native.Nat.{min, max, bit_and, bit_or, digits, bit_and-bitwise, bit_or-bitwise}
use native.Mathlib.Nat.{pow-suc}
use robot_controller.Prelude.{
  ℕ, zero, suc, ◌+◌, ◌*◌, ◌/◌, ◌%◌, ◌^◌, ◌≤◌, ◌<◌, ◌≡◌, refl, ap, true, arith, ℤ, pos, negsuc,
  pos_part, neg_part, lt→ltb,
}
use robot_controller.Word.{u32_mod, unsigned32, signed32, fits32, byte_at, join}

module _ (rest : ℕ → ℕ) (digit : ℕ → ℕ → ℕ) where
  -- Any fuel that is enough gives the same digits.
  same_digits : (a n m b : ℕ) → a ≤ n → a ≤ m → digits rest digit n a b ≡ digits rest digit m a b
  same_digits zero zero zero b _ _ = refl
  same_digits zero zero (suc m) b _ _ = refl
  same_digits zero (suc n) zero b _ _ = refl
  same_digits zero (suc n) (suc m) b _ _ = refl
  same_digits (suc a) zero m b p _ = absurd (omega arith)
  same_digits (suc a) (suc n) zero b _ q = absurd (omega arith)
  same_digits (suc a) (suc n) (suc m) b p q =
      ap (λ t. t * 2 + digit (suc a % 2) (b % 2))
        (same_digits (suc a / 2) n m (b / 2) (omega arith) (omega arith))

lowest_or : (a b : ℕ) → bit_or a b ≡ max (a % 2) (b % 2) + 2 * bit_or (a / 2) (b / 2)
lowest_or zero b = omega (arith, bit_or-bitwise 0 b, bit_or-bitwise 0 (b / 2))
lowest_or (suc a) b = omega (
  arith,
  bit_or-bitwise (suc a) b,
  bit_or-bitwise (suc a / 2) (b / 2),
  same_digits (λ y. y) max (suc a / 2) a (suc a / 2) (b / 2) (omega arith) (omega arith),
)

lowest_and : (a b : ℕ) → bit_and a b ≡ min (a % 2) (b % 2) + 2 * bit_and (a / 2) (b / 2)
lowest_and zero b = omega (arith, bit_and-bitwise 0 b, bit_and-bitwise 0 (b / 2))
lowest_and (suc a) b = omega (
  arith,
  bit_and-bitwise (suc a) b,
  bit_and-bitwise (suc a / 2) (b / 2),
  same_digits (λ y. zero) min (suc a / 2) a (suc a / 2) (b / 2) (omega arith) (omega arith),
)

-- Fields that do not overlap are added.
or-above : (k low high : ℕ) → low < 2 ^ k → bit_or low (high * 2 ^ k) ≡ low + high * 2 ^ k
or-above zero zero high h = omega (arith, bit_or-bitwise 0 (high * 1))
or-above zero (suc low) high h = absurd (omega arith)
or-above (suc k) low high h =
    let twice : high * 2 ^ suc k ≡ 2 * (high * 2 ^ k) =
      omega (arith, ap (λ (t : ℕ). high * t) (pow-suc 2 k)) in
    ground (arith, pow-suc 2 k, twice, lowest_or low (high * 2 ^ suc k), or-above k (low / 2) high)

and-zero : (bound a : ℕ) → a ≤ bound → bit_and a 0 ≡ 0
and-zero bound zero h = refl
and-zero zero (suc a) h = absurd (omega arith)
and-zero (suc bound) (suc a) h =
    omega (arith, lowest_and (suc a) 0, and-zero bound (suc a / 2) (omega arith))

-- A mask keeps the lowest digits: one, two, four and eight of them.
and-one : (a : ℕ) → bit_and a 1 ≡ a % 2
and-one a = omega (arith, lowest_and a 1, and-zero (a / 2) (a / 2) (omega arith))

and-three : (a : ℕ) → bit_and a 3 ≡ a % 4
and-three a = omega (arith, lowest_and a 3, and-one (a / 2))

and-fifteen : (a : ℕ) → bit_and a 15 ≡ a % 16
and-fifteen a = omega (arith, lowest_and a 15, lowest_and (a / 2) 7, and-three (a / 2 / 2))

and-byte : (a : ℕ) → bit_and a 0xff ≡ a % 256
and-byte a = omega (
  arith,
  lowest_and a 255,
  lowest_and (a / 2) 127,
  lowest_and (a / 2 / 2) 63,
  lowest_and (a / 2 / 2 / 2) 31,
  and-fifteen (a / 2 / 2 / 2 / 2),
)

byte_at-eq : (value shift : ℕ) → byte_at value shift ≡ value / 2 ^ shift % 256
unfolding byte_at
byte_at-eq value shift = omega (arith, and-byte (value / 2 ^ shift))

pub byte_at-lt : (w shift : ℕ) → byte_at w shift < 256
unfolding byte_at
byte_at-lt w shift = omega arith

-- Four bytes are joined to the word of which they are the digits.
join-eq :
    (b0 b1 b2 b3 : ℕ)
    → b0 < 256
    → b1 < 256
    → b2 < 256
    → b3 < 256
    → join b0 b1 b2 b3 ≡ b0 + b1 * 2 ^ 8 + b2 * 2 ^ 16 + b3 * 2 ^ 24
unfolding join
join-eq b0 b1 b2 b3 h0 h1 h2 h3 = ground (
  arith,
  or-above 8 b0 b1,
  or-above 16 (b0 + b1 * 2 ^ 8) b2,
  or-above 24 (b0 + b1 * 2 ^ 8 + b2 * 2 ^ 16) b3,
)

-- A word is what its four bytes are joined to.
pub join-byte_at :
    (w : ℕ) → w < u32_mod → join (byte_at w 0) (byte_at w 8) (byte_at w 16) (byte_at w 24) ≡ w
join-byte_at w h = omega (
  arith,
  byte_at-eq w 0,
  byte_at-eq w 8,
  byte_at-eq w 16,
  byte_at-eq w 24,
  join-eq (byte_at w 0) (byte_at w 8) (byte_at w 16) (byte_at w 24) (byte_at-lt w 0)
      (byte_at-lt w 8) (byte_at-lt w 16) (byte_at-lt w 24),
)

-- A 32-bit integer is unchanged by the casts to unsigned and back.
pub signed32-unsigned32 : (n : ℤ) → fits32 n ≡ true → signed32 (unsigned32 n) ≡ n
unfolding signed32 unsigned32
signed32-unsigned32 (pos n) h = ground arith
signed32-unsigned32 (negsuc n) h = ground arith

pub unsigned32-lt : (n : ℤ) → unsigned32 n < u32_mod
unfolding unsigned32
unsigned32-lt (pos n) = omega arith
unsigned32-lt (negsuc n) = omega arith

pub fits32_of_le : (n : ℤ) → pos_part n + neg_part n < 2 ^ 31 → fits32 n ≡ true
fits32_of_le (pos n) h = lt→ltb _ _ (omega (arith, h))
fits32_of_le (negsuc n) h = lt→ltb _ _ (omega (arith, h))

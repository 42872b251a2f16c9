-- ===== src/Word.antt =====
-- The conversions between `double`, `std::int32_t`, `std::uint32_t` and bytes in the two codecs of
-- src/communication.
pub mod Bits
use Prim.Native.Nat.{bit_and, bit_or}
use robot_controller.Prelude.{
  ℕ, suc, ◌+◌, ◌-◌, ◌*◌, ◌/◌, ◌%◌, ◌^◌, Bool, Option, none, some, ◌&&◌, ltb, leb, ℤ, pos, negsuc,
  if◌then◌else◌,
}
use robot_controller.Double.{Double}

abbrev pub u32_mod : ℕ
u32_mod = 2 ^ 32

-- `static_cast<std::uint32_t>` of a signed integer.
unfoldable pub unsigned32 : ℤ → ℕ
unsigned32 (pos n) = n % u32_mod
unsigned32 (negsuc n) = u32_mod - 1 - n % u32_mod

-- `static_cast<std::int32_t>` of an unsigned one.
unfoldable pub signed32 : ℕ → ℤ
signed32 w = if ltb w (2 ^ 31) then pos w else negsuc (u32_mod - 1 - w)

-- Whether an integer is a `std::int32_t`.
abbrev pub fits32 : ℤ → Bool
fits32 (pos n) = ltb n (2 ^ 31)
fits32 (negsuc n) = ltb n (2 ^ 31)

-- `static_cast<std::int32_t>` of a double; `none` is undefined behaviour.
abbrev pub check32 : Option ℤ → Option ℤ
check32 none = none
check32 (some n) = if fits32 n then some n else none

unfoldable pub int32_of_double : {W : Type 0} ⦃d : Double W⦄ → W → Option ℤ
int32_of_double ⦃d⦄ x = check32 (d.trunc x)

-- `static_cast<std::uint8_t>((value >> shift) & 0xFF)`
unfoldable pub byte_at : ℕ → ℕ → ℕ
byte_at value shift = bit_and (value / 2 ^ shift) 0xff % 256

-- The four bytes put together, lowest first, each shift cut to 32 bits.
unfoldable pub join : ℕ → ℕ → ℕ → ℕ → ℕ
join b0 b1 b2 b3 =
    bit_or (bit_or (bit_or b0 (b1 * 2 ^ 8 % u32_mod)) (b2 * 2 ^ 16 % u32_mod))
      (b3 * 2 ^ 24 % u32_mod)

-- ===== src/Codec/Trip.antt =====
-- A frame that one codec makes, read by either codec.
use mathlib.Core.Option.{some-injective}
use robot_controller.Prelude.{◌≡◌, true, false, Option, none, some, inl, inr, Bool-cases, ℤ, arith}
use robot_controller.Double.{Double}
use robot_controller.Types.{JointCommand, JointState, angle, angular_velocity}
use robot_controller.CanFrame.{CanFrame}
use robot_controller.Word.{unsigned32, signed32, fits32, check32, int32_of_double, byte_at, join}
use robot_controller.Word.Bits.{join-byte_at, signed32-unsigned32, unsigned32-lt}
use robot_controller.Codec.Command
use robot_controller.Codec.State

-- The bytes of a 32-bit integer give it back.
signed32-join :
    (n : ℤ)
    → fits32 n ≡ true
    → let w = unsigned32 n in
      signed32 (join (byte_at w 0) (byte_at w 8) (byte_at w 16) (byte_at w 24)) ≡ n
signed32-join n h = rw (join-byte_at (unsigned32 n) (unsigned32-lt n)) (signed32-unsigned32 n h)

fits_of_check : (o : Option ℤ) (n : ℤ) → check32 o ≡ some n → fits32 n ≡ true
fits_of_check none n e = absurd (cc)
fits_of_check (some m) n e = elim (Bool-cases (fits32 m)) [
  | inl h ↦ rw (← some-injective _ _ (rw h at e)) h
  | inr h ↦ absurd (cc (rw h at e))
]

module _ {W : Type 0} ⦃d : Double W⦄ where
  open d use {decimal, mul, div, of_int}

  -- The value of a number of hundredths.
  abbrev pub hundredths : ℤ → W
  hundredths n = div (of_int n) (decimal 100 0)

  int32_of_double-fits : (x : W) (n : ℤ) → int32_of_double x ≡ some n → fits32 n ≡ true
  unfolding int32_of_double
  int32_of_double-fits x n e = fits_of_check (d.trunc x) n e

  -- A target whose hundredths, cut to a whole number `n`, fit 32 bits is encoded, and decoding the
  -- frame succeeds with n / 100, whatever the command was before.
  pub decode-encode_command :
      (command old : JointCommand W) (n : ℤ)
      → int32_of_double (mul command.target_position.degrees (decimal 100 0)) ≡ some n
      → (frame : CanFrame) × (Command.encode command ≡ some frame)
        × (Command.decode frame old ≡ (record { target_position = angle (hundredths n) }, true))
  unfolding Command.encode Command.decode Command.frame_of
  decode-encode_command command old n e = (
    Command.frame_of n,
    rw (e, Command.encode),
    rw (signed32-join n (int32_of_double-fits _ n e)),
  )

  -- A state whose position and velocity have hundredths that, cut to whole numbers `p` and `v`, fit 32
  -- bits is encoded, and decoding the frame succeeds with p / 100 and v / 100, whatever the state was
  -- before.
  pub decode-encode_state :
      (state old : JointState W) (p v : ℤ)
      → int32_of_double (mul state.position.degrees (decimal 100 0)) ≡ some p
      → int32_of_double (mul state.velocity.degrees_per_second (decimal 100 0)) ≡ some v
      → (frame : CanFrame) × (State.encode state ≡ some frame)
        × (State.decode frame old ≡ (
          record { position = angle (hundredths p); velocity = angular_velocity (hundredths v) },
          true,
        ))
  unfolding State.encode State.decode State.frame_of
  decode-encode_state state old p v e f = (
    State.frame_of p v,
    ground (arith, e, f),
    rw (signed32-join p (int32_of_double-fits _ p e), signed32-join v (int32_of_double-fits _ v f)),
  )

  -- No frame that encodes a state is taken for a command, and no frame that encodes a command is taken
  -- for a state: the decoder refuses it and leaves the caller's value as it was.
  pub decode_separate :
      (command oldc : JointCommand W) (state olds : JointState W) (f g : CanFrame)
      → Command.encode command ≡ some f
      → State.encode state ≡ some g
      → (Command.decode g oldc ≡ (oldc, false)) × (State.decode f olds ≡ (olds, false))
  unfolding State.encode State.decode State.frame_of Command.encode Command.decode Command.frame_of
  decode_separate command oldc state olds f g ef eg = ground arith

-- ===== src/Codec/Exact.antt =====
-- Whole numbers of degrees on the CAN bus.
use robot_controller.Prelude.{
  ℕ, ◌+◌, ◌*◌, ◌^◌, ◌<◌, ◌≡◌, refl, true, some, ℤ, pos, pos_part, neg_part, ◌*ℤ◌, arith,
}
use robot_controller.Double.{Double, IsExact}
use robot_controller.Types.{JointCommand, JointState, angle, angular_velocity}
use robot_controller.CanFrame.{CanFrame}
use robot_controller.Word.{int32_of_double}
use robot_controller.Codec.Command
use robot_controller.Codec.State
use robot_controller.Codec.Trip.{hundredths, decode-encode_command, decode-encode_state}
use robot_controller.Word.Bits.{fits32_of_le}

size-*ℤ :
    (a : ℤ) (n : ℕ) → pos_part (a *ℤ pos n) + neg_part (a *ℤ pos n) ≡ (pos_part a + neg_part a) * n
unfolding ◌*ℤ◌
size-*ℤ a n = ground arith

-- A number of degrees whose hundredths fit 32 bits.
abbrev pub IsSmall : ℤ → Type 0
IsSmall a = (pos_part a + neg_part a) * 100 < 2 ^ 31

module _ {W : Type 0} ⦃d : Double W⦄ (exact : IsExact W) where
  pub int32_of_double-int :
      (a : ℤ)
      → IsSmall a
      → int32_of_double (d.mul (d.of_int a) (d.decimal 100 0)) ≡ some (a *ℤ pos 100)
  unfolding int32_of_double
  int32_of_double-int a small =
      let product = exact.mul_int a 100 (omega arith) (omega arith) (omega arith) (omega arith) in
      let size = size-*ℤ a 100 in
      let found = exact.trunc_int (a *ℤ pos 100) (omega (arith, size)) in
      let fits = fits32_of_le (a *ℤ pos 100) (omega (arith, size)) in rw (product, found, fits) refl

  pub hundredths-int : (a : ℤ) → IsSmall a → hundredths (a *ℤ pos 100) ≡ d.of_int a
  hundredths-int a small = exact.div_int a 99 (omega arith) (omega arith)

  -- A command for a whole number of degrees, and a state whose position and velocity are such numbers,
  -- are encoded, and decoding the frame gives just that command or state, if the hundredths fit 32
  -- bits.
  pub decode-encode_int :
      (a p v : ℤ) (old : JointCommand W) (old_state : JointState W)
      → IsSmall a
      → IsSmall p
      → IsSmall v
      → let c : JointCommand W = record { target_position = angle (d.of_int a) } in
        let s : JointState W = record {
          position = angle (d.of_int p);
          velocity = angular_velocity (d.of_int v);
        } in
        ((frame : CanFrame) × (Command.encode c ≡ some frame)
          × (Command.decode frame old ≡ (c, true)))
        × ((frame : CanFrame) × (State.encode s ≡ some frame)
            × (State.decode frame old_state ≡ (s, true)))
  decode-encode_int a p v old old_state small small_p small_v =
      let (frame, sent, back) =
        decode-encode_command (record { target_position = angle (d.of_int a) }) old _
          (int32_of_double-int a small) in
      let (frame', sent', back') =
        decode-encode_state
          (record { position = angle (d.of_int p); velocity = angular_velocity (d.of_int v) })
          old_state _ _ (int32_of_double-int p small_p) (int32_of_double-int v small_v) in
      (
        (frame, sent, rw (hundredths-int a small) at back),
        (frame', sent', rw (hundredths-int p small_p, hundredths-int v small_v) at back'),
      )

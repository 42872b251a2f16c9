-- ===== src/Codec/Command.antt =====
-- src/communication/JointCommandCodec.cpp.
use robot_controller.Prelude.{ℕ, Bool, true, false, Option, none, some, not, ℤ, ◌==◌, if◌then◌else◌}
use robot_controller.Double.{Double}
use robot_controller.Types.{JointCommand, angle}
use robot_controller.CanFrame.{CanFrame, new_frame, set_id, set_length, set_byte, byte}
use robot_controller.Word.{unsigned32, signed32, int32_of_double, byte_at, join}

abbrev pub command_id : ℕ
command_id = 0x100

-- The frame for a number of hundredths of a degree.
unfoldable pub frame_of : ℤ → CanFrame
frame_of centidegrees =
    let frame = set_length (set_id new_frame command_id) 4 in
    let value = unsigned32 centidegrees in
    let frame = set_byte frame 0 (byte_at value 0) in
    let frame = set_byte frame 1 (byte_at value 8) in
    let frame = set_byte frame 2 (byte_at value 16) in set_byte frame 3 (byte_at value 24)

module _ {W : Type 0} ⦃d : Double W⦄ where
  open d use {decimal, mul, div, of_int}

  -- `none` is undefined behaviour: the target does not fit a 32-bit integer.
  unfoldable pub encode : JointCommand W → Option CanFrame
  encode command = elim (int32_of_double (mul command.target_position.degrees (decimal 100 0))) [
    | none ↦ none
    | some centidegrees ↦ some (frame_of centidegrees)
  ]

  -- The command that the caller has afterwards, and the result.
  unfoldable pub decode : CanFrame → JointCommand W → JointCommand W × Bool
  decode frame command =
      if not (frame.id == command_id)
      then (command, false)
      else if not (frame.length == 4)
      then (command, false)
      else let value = join (byte frame 0) (byte frame 1) (byte frame 2) (byte frame 3) in
        (
          record command {
            target_position = angle (div (of_int (signed32 value)) (decimal 100 0));
          },
          true,
        )

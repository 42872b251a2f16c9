-- ===== src/Codec/State.antt =====
-- src/communication/JointStateCodec.cpp.
use robot_controller.Prelude.{ℕ, Bool, true, false, Option, none, some, not, ℤ, ◌==◌, if◌then◌else◌}
use robot_controller.Double.{Double}
use robot_controller.Types.{JointState, angle, angular_velocity}
use robot_controller.CanFrame.{CanFrame, new_frame, set_id, set_length, set_byte, byte}
use robot_controller.Word.{unsigned32, signed32, int32_of_double, byte_at, join}

abbrev pub state_id : ℕ
state_id = 0x200

-- The frame for a position and a velocity, in hundredths.
unfoldable pub frame_of : ℤ → ℤ → CanFrame
frame_of position velocity =
    let frame = set_length (set_id new_frame state_id) 8 in
    let position_value = unsigned32 position in
    let velocity_value = unsigned32 velocity in
    let frame = set_byte frame 0 (byte_at position_value 0) in
    let frame = set_byte frame 1 (byte_at position_value 8) in
    let frame = set_byte frame 2 (byte_at position_value 16) in
    let frame = set_byte frame 3 (byte_at position_value 24) in
    let frame = set_byte frame 4 (byte_at velocity_value 0) in
    let frame = set_byte frame 5 (byte_at velocity_value 8) in
    let frame = set_byte frame 6 (byte_at velocity_value 16) in
    set_byte frame 7 (byte_at velocity_value 24)

module _ {W : Type 0} ⦃d : Double W⦄ where
  open d use {decimal, mul, div, of_int}

  -- `none` is undefined behaviour: a value does not fit a 32-bit integer.
  unfoldable pub encode : JointState W → Option CanFrame
  encode state = elim (int32_of_double (mul state.position.degrees (decimal 100 0))) [
    | none ↦ none
    | some position ↦
        elim (int32_of_double (mul state.velocity.degrees_per_second (decimal 100 0))) [
          | none ↦ none
          | some velocity ↦ some (frame_of position velocity)
        ]
  ]

  -- The state that the caller has afterwards, and the result.
  unfoldable pub decode : CanFrame → JointState W → JointState W × Bool
  decode frame state =
      if not (frame.id == state_id)
      then (state, false)
      else if not (frame.length == 8)
      then (state, false)
      else let position_value = join (byte frame 0) (byte frame 1) (byte frame 2) (byte frame 3) in
        let velocity_value = join (byte frame 4) (byte frame 5) (byte frame 6) (byte frame 7) in
        (
          record {
            position = angle (div (of_int (signed32 position_value)) (decimal 100 0));
            velocity = angular_velocity (div (of_int (signed32 velocity_value)) (decimal 100 0));
          },
          true,
        )

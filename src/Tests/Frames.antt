-- ===== src/Tests/Frames.antt =====
-- The codecs and the communication thread at concrete inputs.
use robot_controller.Prelude.{
  arith, ◌≡◌, refl, true, false, List, [], ◌∷◌, pos, negsuc, ◌*ℤ◌, quot, Option, some, none,
}
use robot_controller.Double.Fixed.{Fixed, nan, fin, fixed_double}
use robot_controller.Double.Fixed.Exact.{Fixed-IsExact}
use robot_controller.Codec.Exact.{decode-encode_int}
use robot_controller.Types.{
  JointCommand, JointState, angle, angular_velocity, default_command, default_state,
}
use robot_controller.CanFrame.{CanFrame}
use robot_controller.Word.{int32_of_double, signed32, join, byte_at, unsigned32}
use robot_controller.Codec.Command
use robot_controller.Codec.State
use robot_controller.Codec.Trip.{decode-encode_command, decode-encode_state, decode_separate}
use robot_controller.Seqlock
use robot_controller.Seqlock.{perform_all, perform}
use robot_controller.CanBuffers.{new_command_buffer, publish_command}
use robot_controller.Communication
use robot_controller.Communication.{Communication, SimulatedCan}
use robot_controller.Communication.Order.{accept_first, run-accept_first}

-- -12.345 degrees, and -0.005 degrees per second, of which the cut to hundredths loses the end.
abbrev command : JointCommand Fixed
command = record { target_position = angle (fin (negsuc 12_344)) }

abbrev joint_state : JointState Fixed
joint_state = record {
  position = angle (fin (negsuc 12_344));
  velocity = angular_velocity (fin (negsuc 4));
}

decode-encode_command_example :
    (frame : CanFrame) × (Command.encode command ≡ some frame)
    × (Command.decode frame (record { target_position = angle nan })
        ≡ (record { target_position = angle (fin (negsuc 12_339)) }, true))
unfolding int32_of_double ◌*ℤ◌ quot
decode-encode_command_example =
    decode-encode_command command (record { target_position = angle nan }) (negsuc 1_233) refl

decode-encode_state_example :
    (frame : CanFrame) × (State.encode joint_state ≡ some frame)
    × (State.decode frame default_state ≡ (
      record { position = angle (fin (negsuc 12_339)); velocity = angular_velocity (fin (pos 0)) },
      true,
    ))
unfolding int32_of_double ◌*ℤ◌ quot
decode-encode_state_example =
    decode-encode_state joint_state default_state (negsuc 1_233) (pos 0) refl refl

decode_separate_example :
    (Command.decode (State.frame_of (negsuc 1_233) (pos 0)) default_command
      ≡ (default_command {W = Fixed}, false))
    × (State.decode (Command.frame_of (negsuc 1_233)) default_state
        ≡ (default_state {W = Fixed}, false))
unfolding int32_of_double ◌*ℤ◌ quot Command.encode State.encode
decode_separate_example =
    decode_separate command default_command joint_state default_state
      (Command.frame_of (negsuc 1_233)) (State.frame_of (negsuc 1_233) (pos 0)) refl refl

-- Two commands wait; in three rounds, of which the second one finds no state, both are accepted.
abbrev start : Communication Fixed
start = record {
  can = Command.frame_of (pos 100) ∷ Command.frame_of (pos 200) ∷ [];
  commands = new_command_buffer;
}

abbrev observed : List (Option (JointState Fixed))
observed = some joint_state ∷ none ∷ some joint_state ∷ []

abbrev end : Communication Fixed
end = record {
  can = State.frame_of (negsuc 1_233) (pos 0) ∷ [];
  commands = record { sequence = 4; cells = fin (pos 2_000) ∷ [] };
}

run-accept_first_example : end.commands ≡ accept_first 3 new_command_buffer start.can
unfolding Communication.run Communication.cycle Communication.accept Communication.transmit_state
    Command.encode State.encode Command.decode int32_of_double ◌*ℤ◌ quot State.decode State.frame_of
    Command.frame_of perform_all publish_command Seqlock.publish perform signed32 join byte_at
    unsigned32
run-accept_first_example = run-accept_first start end observed refl

-- -45 degrees, and 10 degrees at -7 degrees per second.
decode-encode_int_example :
    let c : JointCommand Fixed = record { target_position = angle (fin (negsuc 44_999)) } in
    let s : JointState Fixed = record {
      position = angle (fin (pos 10_000));
      velocity = angular_velocity (fin (negsuc 6_999));
    } in
    ((frame : CanFrame) × (Command.encode c ≡ some frame)
      × (Command.decode frame default_command ≡ (c, true)))
    × ((frame : CanFrame) × (State.encode s ≡ some frame)
        × (State.decode frame default_state ≡ (s, true)))
unfolding ◌*ℤ◌
decode-encode_int_example =
    decode-encode_int Fixed-IsExact (negsuc 44) (pos 10) (negsuc 6) default_command default_state
      (omega arith) (omega arith) (omega arith)

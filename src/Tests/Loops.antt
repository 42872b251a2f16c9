-- ===== src/Tests/Loops.antt =====
-- The control loop together with the communication thread at concrete inputs.
use robot_controller.Prelude.{◌≡◌, refl, [], negsuc, ◌*ℤ◌, quot, some, none}
use robot_controller.Double.Fixed.{Fixed, fin, fixed_double}
use robot_controller.Types.{JointCommand, angle}
use robot_controller.Word.{int32_of_double}
use robot_controller.Codec.Command
use robot_controller.CanBuffers.{new_command_buffer, read_command}
use robot_controller.Communication
use robot_controller.Communication.{Communication}
use robot_controller.Robot.{new_robot}
use robot_controller.ControlLoop.Cycle.{control_robot}
use robot_controller.ControlLoop.Command.{commands, retarget}
use robot_controller.ControlLoop.Delivery.{cycle-control_robot}

-- -12.345 degrees, and what the frame leaves of it.
abbrev sent : JointCommand Fixed
sent = record { target_position = angle (fin (negsuc 12_344)) }

abbrev arrived : JointCommand Fixed
arrived = record { target_position = angle (fin (negsuc 12_339)) }

abbrev delivered : Communication Fixed
delivered = record {
  can = [];
  commands = Communication.accept new_command_buffer (Command.frame_of (negsuc 1_233));
}

cycle-control_robot_example :
    commands (control_robot new_robot (read_command (λ _. delivered.commands) 0)).joints
    ≡ retarget (some arrived) (commands (new_robot {W = Fixed}).joints)
unfolding int32_of_double ◌*ℤ◌ quot Command.encode Communication.cycle Communication.transmit_state
cycle-control_robot_example =
    cycle-control_robot sent (negsuc 1_233) (Command.frame_of (negsuc 1_233)) [] new_command_buffer
      none delivered new_robot 0 refl refl (refl, refl) refl

-- ===== src/Tests/Rest.antt =====
-- A joint at rest at its target, through one control cycle.
use robot_controller.Prelude.{◌≡◌, refl, ◌∙◌, none, ap, ◌+ℤ◌, ◌*ℤ◌, quot}
use robot_controller.Double.Fixed.{Fixed, fixed_double}
use robot_controller.Types.{default_state}
use robot_controller.Joint
use robot_controller.Joint.{Joint, new_joint, set_acceleration, simulate}
use robot_controller.Safety.{validate}
use robot_controller.Controller.{calculate, unlimited}
use robot_controller.Simulator
use robot_controller.Simulator.{advance, settle, displacement, free_distance}
use robot_controller.Robot
use robot_controller.Robot.{new_robot, standard_joint, control}
use robot_controller.ControlLoop.Cycle.{control_robot, first_state, dt}

control_at_rest :
    control (new_robot {W = Fixed}).controller (standard_joint 180) ≡ standard_joint {W = Fixed} 180
unfolding control validate calculate unlimited standard_joint new_joint set_acceleration new_robot
    quot ◌+ℤ◌ ◌*ℤ◌ Joint.state
control_at_rest = refl

advance_at_rest : advance dt (standard_joint 180) ≡ standard_joint {W = Fixed} 180
unfolding advance settle displacement free_distance simulate standard_joint new_joint
    set_acceleration quot ◌+ℤ◌ ◌*ℤ◌
advance_at_rest = refl

cycle_at_rest :
    first_state (Robot.state (control_robot (new_robot {W = Fixed}) none)) ≡ default_state
unfolding control_robot Robot.update Robot.state Simulator.update new_robot Joint.state
    standard_joint new_joint
cycle_at_rest = ap Joint.state (ap (advance dt) control_at_rest ∙ advance_at_rest)

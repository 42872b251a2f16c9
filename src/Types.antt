-- ===== src/Types.antt =====
-- The strong types of include/robot_controller/core: Angle.hpp, AngularVelocity.hpp,
-- AngularAcceleration.hpp, Duration.hpp and JointTypes.hpp.
use robot_controller.Prelude.{ℕ, List}
use robot_controller.Double.{Double}

pub record Angle (W : Type 0) : Type 0 where
  pub degrees : W

pub record AngularVelocity (W : Type 0) : Type 0 where
  pub degrees_per_second : W

pub record AngularAcceleration (W : Type 0) : Type 0 where
  pub degrees_per_second_squared : W

pub record Duration (W : Type 0) : Type 0 where
  pub seconds : W

abbrev pub joint_count : ℕ
joint_count = 6

pub record JointIndex : Type 0 where
  pub value : ℕ

pub record JointState (W : Type 0) : Type 0 where
  pub position : Angle W
  pub velocity : AngularVelocity W

pub record JointCommand (W : Type 0) : Type 0 where
  pub target_position : Angle W

-- `std::array<JointState, joint_count>`; Robot/Reach has the length of the robot's own.
abbrev pub RobotState : Type 0 → Type 0
RobotState W = List (JointState W)

module _ {W : Type 0} where
  abbrev pub angle : W → Angle W
  angle x = record { degrees = x }

  abbrev pub angular_velocity : W → AngularVelocity W
  angular_velocity x = record { degrees_per_second = x }

  abbrev pub angular_acceleration : W → AngularAcceleration W
  angular_acceleration x = record { degrees_per_second_squared = x }

  abbrev pub duration : W → Duration W
  duration x = record { seconds = x }

module _ {W : Type 0} ⦃d : Double W⦄ where
  -- The literal 0.0.
  abbrev pub nought : W
  nought = d.decimal 0 0

  -- `JointCommand command;` and `JointState state;`
  abbrev pub default_command : JointCommand W
  default_command = record { target_position = angle nought }

  abbrev pub default_state : JointState W
  default_state = record { position = angle nought; velocity = angular_velocity nought }

  -- `Duration::operator+=`
  pub plus_assign : Duration W → Duration W → Duration W
  plus_assign self other = duration (d.add self.seconds other.seconds)

-- ===== src/Joint.antt =====
-- src/core/Joint.cpp with its motor, src/motor/SimulatedMotor.cpp. A joint's `motor_` refers to a motor
-- that no other joint refers to and that nothing else reads or writes, so it is part of the joint here.
pub mod Limits
use robot_controller.Prelude.{Bool, true, false, ◌||◌, if◌then◌else◌}
use robot_controller.Double.{Double}
use robot_controller.Types.{
  Angle, AngularVelocity, AngularAcceleration, JointState, JointCommand, angular_velocity,
  angular_acceleration, angle, nought, default_command,
}

pub record SimulatedMotor (W : Type 0) : Type 0 where
  pub acceleration : AngularAcceleration W

pub record Joint (W : Type 0) : Type 0 where
  pub position : Angle W
  pub command : JointCommand W
  pub velocity : AngularVelocity W
  pub min_position : Angle W
  pub max_position : Angle W
  pub max_velocity : AngularVelocity W
  pub max_acceleration : AngularAcceleration W
  pub motor : SimulatedMotor W

module _ {W : Type 0} where
  -- `SimulatedMotor::setAcceleration`
  abbrev pub command_motor : SimulatedMotor W → AngularAcceleration W → SimulatedMotor W
  command_motor m a = record m { acceleration = a }

  unfoldable pub set_target_position : Joint W → Angle W → Joint W
  set_target_position j target = record j { command = record { target_position = target } }

  abbrev pub target_position : Joint W → Angle W
  target_position j = j.command.target_position

  abbrev pub motor_acceleration : Joint W → AngularAcceleration W
  motor_acceleration j = j.motor.acceleration

  unfoldable pub simulate : Joint W → AngularVelocity W → Angle W → Joint W
  simulate j velocity position = record j { velocity = velocity; position = position }

  unfoldable pub state : Joint W → JointState W
  state j = record { position = j.position; velocity = j.velocity }

module _ {W : Type 0} ⦃d : Double W⦄ where
  open d use {lt, neg}

  -- `SimulatedMotor` as declared: a zero command.
  abbrev pub new_motor : SimulatedMotor W
  new_motor = record { acceleration = angular_acceleration nought }

  -- The constructor.
  unfoldable pub new_joint :
      Angle W → Angle W → AngularVelocity W → AngularAcceleration W → SimulatedMotor W → Joint W
  new_joint min_position max_position max_velocity max_acceleration motor = record {
    position = angle nought;
    command = default_command;
    velocity = angular_velocity nought;
    min_position = min_position;
    max_position = max_position;
    max_velocity = max_velocity;
    max_acceleration = max_acceleration;
    motor = motor;
  }

  -- A method returns the new joint and its result.
  unfoldable pub initialize_position : Joint W → Angle W → Joint W × Bool
  initialize_position j position =
      if lt position.degrees j.min_position.degrees || lt j.max_position.degrees position.degrees
      then (j, false)
      else (record j { position = position }, true)

  unfoldable pub set_acceleration : Joint W → AngularAcceleration W → Joint W × Bool
  set_acceleration j acceleration =
      let value = acceleration.degrees_per_second_squared in
      let limit = j.max_acceleration.degrees_per_second_squared in
      if lt limit value || lt value (neg limit)
      then (j, false)
      else (record j { motor = command_motor j.motor acceleration }, true)

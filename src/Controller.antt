-- ===== src/Controller.antt =====
-- src/control/PDController.cpp: the proportional-derivative controller, and its configuration,
-- PDControllerConfig.hpp.
pub mod Request
use robot_controller.Prelude.{if◌then◌else◌}
use robot_controller.Double.{Double}
use robot_controller.Types.{AngularAcceleration, JointState, JointCommand, angular_acceleration}

pub record PdControllerConfig (W : Type 0) : Type 0 where
  pub position_gain : W
  pub velocity_gain : W
  pub max_acceleration : AngularAcceleration W

pub record PdController (W : Type 0) : Type 0 where
  pub position_gain : W
  pub velocity_gain : W
  pub max_acceleration : AngularAcceleration W

abbrev pub new_controller : {W : Type 0} → PdControllerConfig W → PdController W
new_controller config = record {
  position_gain = config.position_gain;
  velocity_gain = config.velocity_gain;
  max_acceleration = config.max_acceleration;
}

module _ {W : Type 0} ⦃d : Double W⦄ where
  open d use {sub, mul, neg, lt}

  -- The acceleration before it is limited.
  unfoldable pub unlimited : PdController W → JointCommand W → JointState W → W
  unlimited c command actual =
      let position_error = sub command.target_position.degrees actual.position.degrees in
      sub (mul c.position_gain position_error)
        (mul c.velocity_gain actual.velocity.degrees_per_second)

  -- The two tests that follow, in their order.
  abbrev pub limited : W → W → W
  limited top x =
      let once = if lt top x then top else x in if lt once (neg top) then neg top else once

  unfoldable pub calculate : PdController W → JointCommand W → JointState W → AngularAcceleration W
  calculate c command actual =
      angular_acceleration
        (limited c.max_acceleration.degrees_per_second_squared (unlimited c command actual))

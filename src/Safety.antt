-- ===== src/Safety.antt =====
-- src/safety/SafetyLayer.cpp: the check of a requested acceleration before the joint gets it.
pub mod Accept
use robot_controller.Prelude.{Bool, false, not, ◌&&◌, ◌||◌, if◌then◌else◌}
use robot_controller.Double.{Double}
use robot_controller.Types.{AngularAcceleration}
use robot_controller.Joint.{Joint}

module _ {W : Type 0} ⦃d : Double W⦄ where
  open d use {le, neg, is_finite}

  unfoldable pub validate : Joint W → AngularAcceleration W → Bool
  validate j requested =
      let value = requested.degrees_per_second_squared in
      let limit = j.max_acceleration.degrees_per_second_squared in
      if not (is_finite value) || not (is_finite limit)
      then false
      else le value limit && le (neg limit) value

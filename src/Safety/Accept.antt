-- ===== src/Safety/Accept.antt =====
-- The safety layer against the guard of the joint itself.
use robot_controller.Prelude.{◌≡◌, true, arith}
use robot_controller.Double.{Double, IsOrdered}
use robot_controller.Types.{AngularAcceleration}
use robot_controller.Joint.{Joint, set_acceleration}
use robot_controller.Safety.{validate}

module _ {W : Type 0} ⦃d : Double W⦄ (laws : IsOrdered W) where
  open laws use {lt_of_le}
  open d use {neg}

  -- A request that the safety layer accepts is never refused by the joint: the motor gets it.
  pub set_acceleration-validate :
      (j : Joint W) (a : AngularAcceleration W)
      → validate j a ≡ true
      → set_acceleration j a ≡ (record j { motor = record { acceleration = a } }, true)
  unfolding validate set_acceleration
  set_acceleration-validate j a h =
      let value = a.degrees_per_second_squared in
      let limit = j.max_acceleration.degrees_per_second_squared in
      ground (arith, lt_of_le value limit, lt_of_le (neg limit) value)

-- ===== src/Simulator.antt =====
-- src/simulation/RobotSimulator.cpp: one time step of the simulated physics.
pub mod Stops
pub mod Numbers
use robot_controller.Prelude.{Bool, not, List, map, ◌&&◌, ◌||◌, if◌then◌else◌}
use robot_controller.Double.{Double}
use robot_controller.Types.{Duration, angle, angular_velocity, angular_acceleration, nought}
use robot_controller.Joint.{Joint, motor_acceleration, simulate, set_acceleration}

module _ {W : Type 0} ⦃d : Double W⦄ where
  open d use {decimal, add, sub, mul, div, neg, lt, le, eq}

  -- `std::clamp`, for `lo` not above `hi`.
  abbrev pub clamp : W → W → W → W
  clamp v lo hi = if lt v lo then lo else if lt hi v then hi else v

  -- The literal 0.5.
  abbrev half : W
  half = decimal 5 1

  -- The distance covered from velocity `v` under acceleration `a` during `t`.
  unfoldable pub free_distance : W → W → W → W
  free_distance v a t = add (mul v t) (mul (mul (mul half a) t) t)

  -- The branches that compute `displacement`, from the variables that they read.
  unfoldable pub displacement : (initial a elapsed top unconstrained final : W) → W
  displacement initial a elapsed top unconstrained final =
      let forward = lt nought a in
      let backward = lt a nought in
      let target = if forward then top else neg top in
      let at_limit = (forward && le top initial) || (backward && le initial (neg top)) in
      let time_to_limit = div (sub target initial) a in
      let reaches_limit =
        lt nought time_to_limit
        && lt time_to_limit elapsed
        && ((forward && lt top unconstrained) || (backward && lt unconstrained (neg top))) in
      if lt nought elapsed && not (eq a nought)
      then (if at_limit
          then mul target elapsed
          else if reaches_limit
          then add (free_distance initial a time_to_limit) (mul target (sub elapsed time_to_limit))
          else free_distance initial a elapsed)
      else mul final elapsed

  -- The last part of the loop's body: stop at a position limit, or save the new state.
  unfoldable pub settle : Joint W → W → W → Joint W
  settle j final new_position =
      if le new_position j.min_position.degrees
      then (set_acceleration (simulate j (angular_velocity nought) j.min_position)
          (angular_acceleration nought)).0
      else if le j.max_position.degrees new_position
      then (set_acceleration (simulate j (angular_velocity nought) j.max_position)
          (angular_acceleration nought)).0
      else simulate j (angular_velocity final) (angle new_position)

  abbrev pub initial_velocity : Joint W → W
  initial_velocity j =
      let top = j.max_velocity.degrees_per_second in
      clamp j.velocity.degrees_per_second (neg top) top

  abbrev pub unconstrained_velocity : Joint W → W → W
  unconstrained_velocity j elapsed =
      add (initial_velocity j) (mul (motor_acceleration j).degrees_per_second_squared elapsed)

  abbrev pub final_velocity : Joint W → W → W
  final_velocity j elapsed =
      let top = j.max_velocity.degrees_per_second in
      clamp (unconstrained_velocity j elapsed) (neg top) top

  abbrev pub new_position : Joint W → W → W
  new_position j elapsed = add j.position.degrees (
      displacement (initial_velocity j) (motor_acceleration j).degrees_per_second_squared elapsed
        j.max_velocity.degrees_per_second (unconstrained_velocity j elapsed)
        (final_velocity j elapsed))

  -- The body of the loop, for one joint.
  unfoldable pub advance : Duration W → Joint W → Joint W
  advance dt j = settle j (final_velocity j dt.seconds) (new_position j dt.seconds)

  unfoldable pub update : Duration W → List (Joint W) → List (Joint W)
  update dt joints = if le dt.seconds nought then joints else map (advance dt) joints

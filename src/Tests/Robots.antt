-- ===== src/Tests/Robots.antt =====
-- The robot, its controller, its safety layer and its simulator at concrete inputs.
use robot_controller.Prelude.{
  length, ℕ, ◌≡◌, ◌↔◌, refl, true, false, [], ◌∷◌, All, pos, negsuc, ◌+ℤ◌, ◌*ℤ◌, quot,
}
use robot_controller.Double.Fixed.{Fixed, nan, above, fin, fixed_double, Fixed-IsOrdered}
use robot_controller.Types.{angle, angular_velocity, angular_acceleration, duration}
use robot_controller.Joint
use robot_controller.Joint.{Joint, set_acceleration, initialize_position}
use robot_controller.Joint.Limits.{IsConfigured, nan_accepted}
use robot_controller.Safety.{validate}
use robot_controller.Controller.{PdController, calculate, unlimited}
use robot_controller.Controller.Request.{Fits, validate-calculate}
use robot_controller.Simulator
use robot_controller.Simulator.{advance, final_velocity, new_position}
use robot_controller.Simulator.Stops.{Stops, advance-Stops}
use robot_controller.Robot
use robot_controller.Robot.{Robot, new_robot, control, set_joint_target_position, on_joint}
use robot_controller.Robot.Safe.{IsSafe, update-IsSafe, control-eq}
use robot_controller.Robot.Reach.{start, later, target, tick, IsBounded, Reach-IsBounded}

-- A joint between -180 and 180 degrees, with a state, a target and a motor command.
abbrev joint : Fixed → Fixed → Fixed → Fixed → Joint Fixed
joint position velocity goal command = record {
  position = angle position;
  command = record { target_position = angle goal };
  velocity = angular_velocity velocity;
  min_position = angle (fin (negsuc 179_999));
  max_position = angle (fin (pos 180_000));
  max_velocity = angular_velocity (fin (pos 60_000));
  max_acceleration = angular_acceleration (fin (pos 30_000));
  motor = record { acceleration = angular_acceleration command };
}

abbrev degrees : ℕ → Fixed
degrees n = fixed_double.decimal n 0

abbrev controller : PdController Fixed
controller = record {
  position_gain = degrees 1;
  velocity_gain = fixed_double.decimal 5 1;
  max_acceleration = angular_acceleration (degrees 30);
}

joint-IsConfigured : (p v g c : Fixed) → IsConfigured (joint p v g c)
joint-IsConfigured p v g c = record {
  positions = refl;
  speed = refl;
  acceleration = refl;
  finite = refl;
}

Fits-joint : (p v g c : Fixed) → Fits controller (joint p v g c)
Fits-joint p v g c = record { finite = refl; nonneg = refl; below = refl }

-- One joint has lost its position, another has an infinite motor command.
abbrev lost : Robot Fixed
lost = record {
  joints =
      joint nan (degrees 10) (degrees 90) (degrees 5)
      ∷ joint (degrees 170) (degrees 60) (degrees 90) above
      ∷ [];
  controller = controller;
}

update-IsSafe_example : All IsSafe (Robot.update lost (duration (degrees 1))).joints
update-IsSafe_example =
    update-IsSafe Fixed-IsOrdered lost (duration (degrees 1))
      (joint-IsConfigured _ _ _ _, (joint-IsConfigured _ _ _ _, tt))

abbrev moved : Robot Fixed
moved =
    Robot.update (set_joint_target_position new_robot (record { value = 1 }) (angle (degrees 90))).0
      (duration (degrees 1))

Reach-IsBounded_example :
    (length moved.joints ≡ 6) × All (λ (j : Joint Fixed). IsConfigured j × IsBounded j) moved.joints
Reach-IsBounded_example =
    Reach-IsBounded Fixed-IsOrdered
      (later (later start (target (record { value = 1 }) (angle (degrees 90)))) (tick _))

control-eq_example :
    control controller (joint (degrees 0) (degrees 10) (degrees 90) (degrees 0))
    ≡ joint (degrees 0) (degrees 10) (degrees 90) (degrees 30)
unfolding unlimited calculate ◌+ℤ◌ ◌*ℤ◌ quot Joint.state
control-eq_example =
    control-eq Fixed-IsOrdered controller (joint (degrees 0) (degrees 10) (degrees 90) (degrees 0))
      (joint-IsConfigured _ _ _ _) (Fits-joint _ _ _ _)

-- A joint that has lost its position gets no acceleration.
control_lost :
    control controller (joint nan (degrees 10) (degrees 90) (degrees 5))
    ≡ joint nan (degrees 10) (degrees 90) (degrees 0)
unfolding control calculate unlimited validate set_acceleration Joint.state ◌*ℤ◌ quot
control_lost = refl

validate-calculate_example :
    let j = joint (degrees 0) (degrees 10) (degrees 90) (degrees 0) in
    (validate j (calculate controller j.command (Joint.state j)) ≡ true)
    ↔ (fixed_double.le (degrees 85) (degrees 85) ≡ true)
unfolding unlimited ◌+ℤ◌ ◌*ℤ◌ quot Joint.state
validate-calculate_example =
    validate-calculate Fixed-IsOrdered controller
      (joint (degrees 0) (degrees 10) (degrees 90) (degrees 0))
      (record { target_position = angle (degrees 90) })
      (Joint.state (joint (degrees 0) (degrees 10) (degrees 90) (degrees 0)))
      (joint-IsConfigured _ _ _ _) (Fits-joint _ _ _ _)

-- The joint runs into its upper limit within the second.
advance-Stops_example :
    let j = joint (degrees 170) (degrees 50) (degrees 180) (degrees 20) in
    Stops Fixed-IsOrdered j
      (final_velocity j (degrees 1))
      (new_position j (degrees 1))
      (advance (duration (degrees 1)) j)
advance-Stops_example =
    advance-Stops Fixed-IsOrdered (duration (degrees 1))
      (joint (degrees 170) (degrees 50) (degrees 180) (degrees 20)) (joint-IsConfigured _ _ _ _)

stopped_at_limit :
    advance (duration (degrees 1)) (joint (degrees 170) (degrees 50) (degrees 180) (degrees 20))
    ≡ joint (degrees 180) (degrees 0) (degrees 180) (degrees 0)
unfolding advance Simulator.settle Simulator.displacement Simulator.free_distance Joint.simulate
    set_acceleration ◌+ℤ◌ ◌*ℤ◌ quot
stopped_at_limit = refl

-- Half a second at 20 degrees/s² from 50 degrees/s reaches the speed limit just at its end.
speed_limit :
    advance (duration (degrees 1)) (joint (degrees 0) (degrees 50) (degrees 0) (degrees 20))
    ≡ record (joint (degrees 57) (degrees 60) (degrees 0) (degrees 20)) {
      position = angle (fin (pos 57_500));
    }
unfolding advance Simulator.settle Simulator.displacement Simulator.free_distance Joint.simulate
    set_acceleration ◌+ℤ◌ ◌*ℤ◌ quot
speed_limit = refl

nan_accepted_example :
    let j = joint (degrees 0) (degrees 0) (degrees 0) (degrees 0) in
    (initialize_position j (angle nan) ≡ (joint nan (degrees 0) (degrees 0) (degrees 0), true))
    × (set_acceleration j (angular_acceleration nan)
        ≡ (joint (degrees 0) (degrees 0) (degrees 0) nan, true))
    × (fixed_double.le j.min_position.degrees nan ≡ false)
    × (fixed_double.le nan j.max_acceleration.degrees_per_second_squared ≡ false)
nan_accepted_example =
    nan_accepted Fixed-IsOrdered (joint (degrees 0) (degrees 0) (degrees 0) (degrees 0)) nan refl

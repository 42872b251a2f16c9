-- ===== src/Robot/Cases.antt =====
-- What has to be shown of a joint after the control step, and after the end of a simulated step.
use robot_controller.Prelude.{inl, inr, Bool-cases}
use robot_controller.Double.{Double}
use robot_controller.Types.{
  Angle, AngularAcceleration, angle, angular_velocity, angular_acceleration, nought,
}
use robot_controller.Joint
use robot_controller.Joint.{Joint, set_acceleration, simulate}
use robot_controller.Safety.{validate}
use robot_controller.Controller.{PdController, calculate}
use robot_controller.Simulator.{settle}
use robot_controller.Robot.{control}

module _ {W : Type 0} ⦃d : Double W⦄ (P : Joint W → Type 0) where
  open d use {le}

  -- The control step only hands the motor some command.
  pub control_cases :
      (c : PdController W) (j : Joint W)
      → ((a : AngularAcceleration W) → P (set_acceleration j a).0)
      → P (control c j)
  unfolding control
  control_cases c j given =
      let requested = calculate c j.command (Joint.state j) in
      elim (Bool-cases (validate j requested)) [
        | inl h ↦ rw h (given requested)
        | inr h ↦ rw h (given (angular_acceleration nought))
      ]

  -- The end of a step stops the joint somewhere or moves it.
  pub settle_cases :
      (j : Joint W) (v p : W)
      → ((q : Angle W)
          → P
              (set_acceleration
                (simulate j (angular_velocity nought) q)
                (angular_acceleration nought)).0)
      → P (simulate j (angular_velocity v) (angle p))
      → P (settle j v p)
  unfolding settle
  settle_cases j v p stops moves = elim (Bool-cases (le p j.min_position.degrees)) [
    | inl h ↦ rw h (stops j.min_position)
    | inr h ↦ elim (Bool-cases (le j.max_position.degrees p)) [
      | inl k ↦ rw (h, k) (stops j.max_position)
      | inr k ↦ rw (h, k) moves
    ]
  ]

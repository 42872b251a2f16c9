-- ===== src/Robot/Safe.antt =====
-- What an update may send to a motor, whatever state the robot is in.
use robot_controller.Prelude.{
  ◌≡◌, ap, true, inl, inr, Bool-cases, All, All-map, All-weaken, map, arith, if◌then◌else◌,
}
use robot_controller.Double.{Double, IsOrdered}
use robot_controller.Types.{Duration, AngularAcceleration, angular_acceleration, nought}
use robot_controller.Joint
use robot_controller.Joint.{Joint, set_acceleration}
use robot_controller.Joint.Limits.{
  IsConfigured, le-neg_nonpos, set_acceleration_zero, set_acceleration-IsConfigured,
}
use robot_controller.Safety.{validate}
use robot_controller.Safety.Accept.{set_acceleration-validate}
use robot_controller.Simulator
use robot_controller.Simulator.{advance}
use robot_controller.Simulator.Stops.{Settled, lower, upper, inside, settle-Settled}
use robot_controller.Controller.{PdController, calculate, unlimited}
use robot_controller.Controller.Request.{Fits, validate-calculate}
use robot_controller.Robot.{Robot, control, update}
use robot_controller.Robot.Cases.{control_cases}

module _ {W : Type 0} ⦃d : Double W⦄ where
  open d use {le, neg, is_finite}

  -- A command that may be on a motor: finite, and within the joint's limits.
  pub record IsSafe (j : Joint W) : Type 0 where
    pub finite : is_finite j.motor.acceleration.degrees_per_second_squared ≡ true
    pub above :
        le
          (neg j.max_acceleration.degrees_per_second_squared)
          j.motor.acceleration.degrees_per_second_squared
        ≡ true
    pub below :
        le j.motor.acceleration.degrees_per_second_squared
          j.max_acceleration.degrees_per_second_squared
        ≡ true

  abbrev IsReady : Joint W → Type 0
  IsReady j = IsConfigured j × IsSafe j

module _ {W : Type 0} ⦃d : Double W⦄ (laws : IsOrdered W) where
  open d use {le, neg}

  -- For a joint with well-formed limits, and a controller whose own limit is finite, not negative and
  -- allowed by the joint, the control step sends the controller's request to the motor, unless the
  -- controller's arithmetic gave NaN: then it sends zero. It changes nothing else.
  pub control-eq :
      (c : PdController W) (j : Joint W)
      → IsConfigured j
      → Fits c j
      → let raw = unlimited c j.command (Joint.state j) in
        control c j ≡ record j {
          motor = record {
            acceleration =
                if le raw raw
                then calculate c j.command (Joint.state j)
                else angular_acceleration nought;
          };
        }
  unfolding control
  control-eq c j conf fits =
      let (forth, back) = validate-calculate laws c j j.command (Joint.state j) conf fits in
      let raw = unlimited c j.command (Joint.state j) in
      elim (Bool-cases (validate j (calculate c j.command (Joint.state j)))) [
        | inl h ↦ rw (h, forth h) (ap (λ r. r.0) (set_acceleration-validate laws j _ h))
        | inr h ↦ elim (Bool-cases (le raw raw)) [
          | inl n ↦ absurd (cc (back n))
          | inr n ↦ rw (h, n) (ap (λ r. r.0) (set_acceleration_zero laws j conf))
        ]
      ]

  validate-IsSafe :
      (j : Joint W) (a : AngularAcceleration W)
      → validate j a ≡ true
      → IsSafe (record j { motor = record { acceleration = a } })
  unfolding validate
  validate-IsSafe j a h = ground arith

  pub zero-IsSafe :
      (j : Joint W)
      → IsConfigured j
      → IsSafe (record j { motor = record { acceleration = angular_acceleration nought } })
  zero-IsSafe j conf = record {
    finite = laws.decimal_finite 0 (omega arith);
    above = le-neg_nonpos laws _ conf.acceleration;
    below = conf.acceleration;
  }

  -- The command that the control step leaves on the motor is finite and within the joint's limits,
  -- whatever the target, the state and the controller are.
  pub control-IsSafe : (c : PdController W) (j : Joint W) → IsConfigured j → IsSafe (control c j)
  unfolding control
  control-IsSafe c j conf = elim (Bool-cases (validate j (calculate c j.command (Joint.state j)))) [
    | inl h ↦ rw (h, set_acceleration-validate laws j _ h) (validate-IsSafe j _ h)
    | inr h ↦ rw (h, set_acceleration_zero laws j conf) (zero-IsSafe j conf)
  ]

  Settled-IsSafe :
      {j next : Joint W} {v p : W}
      → IsConfigured j
      → IsSafe j
      → Settled laws j v p next
      → IsSafe next
  Settled-IsSafe {j} c s (lower h) = ground (arith, zero-IsSafe j c)
  Settled-IsSafe {j} c s (upper h) = ground (arith, zero-IsSafe j c)
  Settled-IsSafe c s (inside a b) = ground arith

  pub control-IsConfigured :
      (c : PdController W) (j : Joint W) → IsConfigured j → IsConfigured (control c j)
  control-IsConfigured c j conf =
      control_cases IsConfigured c j (λ a. set_acceleration-IsConfigured j a conf)

  advance-IsSafe :
      (dt : Duration W) (j : Joint W) → IsConfigured j → IsSafe j → IsSafe (advance dt j)
  unfolding advance
  advance-IsSafe dt j c s = Settled-IsSafe c s (settle-Settled laws j _ _ c)

  -- After an update of any length every motor command is finite and within its joint's limits,
  -- whatever the targets, the states and the motor commands were before, NaN and the infinities
  -- included, if the joints' limits are well formed.
  pub update-IsSafe :
      (r : Robot W) (dt : Duration W) → All IsConfigured r.joints → All IsSafe (update r dt).joints
  unfolding update Simulator.update
  update-IsSafe r dt confs =
      let controlled : All IsReady (map (control r.controller) r.joints) =
        All-map IsConfigured IsReady (control r.controller)
          (λ j c. (control-IsConfigured r.controller j c, control-IsSafe r.controller j c)) r.joints
          confs in
      elim (Bool-cases (le dt.seconds nought)) [
        | inl h ↦ rw h (All-weaken IsReady IsSafe (λ j p. p.1) _ controlled)
        | inr h ↦
            rw h (
              All-map IsReady IsSafe (advance dt) (λ j p. advance-IsSafe dt j p.0 p.1) _ controlled)
      ]

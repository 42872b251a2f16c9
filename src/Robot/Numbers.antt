-- ===== src/Robot/Numbers.antt =====
-- A robot whose state is numbers.
use robot_controller.Prelude.{
  true, inl, inr, Bool-cases, Option-cases, Bool, All, All-map, All-set, All-get_elem?, map, length,
  get_elem?, leb, ◌≤◌, ℕ, arith,
}
use robot_controller.Double.{Double, IsOrdered, IsRounding, Within}
use robot_controller.Types.{Angle, AngularAcceleration, Duration, JointIndex, angle, nought}
use robot_controller.Joint.{
  Joint, new_joint, set_acceleration, set_target_position, initialize_position,
}
use robot_controller.Joint.Limits.{IsConfigured}
use robot_controller.Simulator
use robot_controller.Simulator.{advance}
use robot_controller.Simulator.Numbers.{
  IsMeasured, IsNumeric, zero-Within, Within_between, advance-IsNumeric,
}
use robot_controller.Controller.{PdController}
use robot_controller.Robot.{
  Robot, new_robot, standard_joint, on_joint, initialize_joint_position, set_joint_target_position,
  control, update,
}
use robot_controller.Robot.Cases.{control_cases}
use robot_controller.Robot.Safe.{control-IsSafe}
use robot_controller.Robot.Reach.{Reach-IsValid, start}

module _ {W : Type 0} ⦃d : Double W⦄ (laws : IsOrdered W) (rounding : IsRounding W) where
  open d use {le}

  set_acceleration-IsMeasured :
      (j : Joint W) (a : AngularAcceleration W) → IsMeasured j → IsMeasured (set_acceleration j a).0
  unfolding set_acceleration
  set_acceleration-IsMeasured j a m = ground arith

  -- Whatever the controller asks for.
  control-IsNumeric : (c : PdController W) (j : Joint W) → IsMeasured j → IsNumeric (control c j)
  control-IsNumeric c j m =
      let measured : IsMeasured (control c j) =
        control_cases IsMeasured c j (λ a. set_acceleration-IsMeasured j a m) in
      let safe = control-IsSafe laws c j m.configured in
      let limit = measured.limit in
      record {
        measured = measured;
        command =
            Within_between laws rounding 30 _ _ _ (rounding.neg_within _ 30 (omega arith) limit)
              limit safe.above safe.below;
      }

  pub update-IsNumeric :
      (r : Robot W) (dt : Duration W)
      → Within 1 dt.seconds
      → All IsMeasured r.joints
      → All IsNumeric (update r dt).joints
  unfolding update Simulator.update
  update-IsNumeric r dt time m =
      let controlled : All IsNumeric (map (control r.controller) r.joints) =
        All-map IsMeasured IsNumeric (control r.controller) (control-IsNumeric r.controller) _ m in
      elim (Bool-cases (le dt.seconds nought)) [
        | inl h ↦ rw h controlled
        | inr h ↦ rw h (
            All-map IsNumeric IsNumeric (advance dt)
              (λ j n. advance-IsNumeric laws rounding dt j time n) _ controlled)
      ]

  on_joint-IsNumeric :
      (r : Robot W) (i : JointIndex) (method : Joint W → Joint W × Bool)
      → ((j : Joint W) → IsNumeric j → IsNumeric (method j).0)
      → All IsNumeric r.joints
      → All IsNumeric (on_joint r i method).0.joints
  unfolding on_joint
  on_joint-IsNumeric r i method keep n = elim (Bool-cases (leb (length r.joints) i.value)) [
    | inl h ↦ rw h n
    | inr h ↦ elim (Option-cases (get_elem? r.joints i.value)) [
      | inl e ↦ rw (h, e) n
      | inr (j, e) ↦
          rw (h, e)
            (All-set IsNumeric r.joints i.value (method j).0 n
              (keep j (All-get_elem? IsNumeric r.joints i.value n e)))
    ]
  ]

  pub set_joint_target_position-IsNumeric :
      (r : Robot W) (i : JointIndex) (p : Angle W)
      → All IsNumeric r.joints
      → All IsNumeric (set_joint_target_position r i p).0.joints
  unfolding set_joint_target_position set_target_position
  set_joint_target_position-IsNumeric r i p n =
      on_joint-IsNumeric r i (λ j. (set_target_position j p, true)) (λ j m. ground arith) n

  standard_joint-IsNumeric :
      (reach : ℕ)
      → reach ≤ 180
      → IsConfigured (standard_joint {W = W} reach)
      → IsNumeric (standard_joint {W = W} reach)
  unfolding standard_joint new_joint
  standard_joint-IsNumeric reach small configured =
      let far = rounding.decimal_within reach 0 180 (omega arith) (omega arith) in
      record {
        measured = record {
          configured = configured;
          lowest = rounding.neg_within _ 180 (omega arith) far;
          highest = far;
          top = rounding.decimal_within 60 0 60 (omega arith) (omega arith);
          limit = rounding.decimal_within 30 0 30 (omega arith) (omega arith);
          position = zero-Within laws rounding 180 (omega arith);
          velocity = zero-Within laws rounding 60 (omega arith);
        };
        command = zero-Within laws rounding 30 (omega arith);
      }

  pub new_robot-IsNumeric : All IsNumeric (new_robot {W = W}).joints
  unfolding new_robot
  new_robot-IsNumeric =
      let (a, (b, (c, (e, (f, (g, _)))))) =
        (Reach-IsValid laws {r = new_robot {W = W}} start).fit in
      let joint = standard_joint-IsNumeric in
      (
        joint 180 (omega arith) a.0,
        (
          joint 90 (omega arith) b.0,
          (
            joint 180 (omega arith) c.0,
            (
              joint 180 (omega arith) e.0,
              (joint 90 (omega arith) f.0, (joint 180 (omega arith) g.0, tt)),
            ),
          ),
        ),
      )

  pub initialize_joint_position-IsNumeric :
      (r : Robot W) (i : JointIndex)
      → All IsNumeric r.joints
      → All IsNumeric (initialize_joint_position r i (angle nought)).0.joints
  unfolding initialize_joint_position initialize_position
  initialize_joint_position-IsNumeric r i m =
      let zero = zero-Within laws rounding 180 (omega arith) in
      on_joint-IsNumeric r i (λ j. initialize_position j (angle nought)) (λ j n. ground arith) m

-- ===== src/Robot.antt =====
-- src/core/Robot.cpp: six joints under one controller, one safety layer and one simulator.
pub mod Cases
pub mod Safe
pub mod Reach
pub mod Index
pub mod Still
pub mod Config
pub mod Numbers
use robot_controller.Prelude.{
  ℕ, Bool, true, false, Option, none, some, List, [], ◌∷◌, map, length, leb, get_elem?, set,
  if◌then◌else◌,
}
use robot_controller.Double.{Double}
use robot_controller.Types.{
  Angle, AngularAcceleration, Duration, JointIndex, RobotState, angle, angular_velocity,
  angular_acceleration, nought,
}
use robot_controller.Joint
use robot_controller.Joint.{Joint, new_motor, new_joint, set_target_position, set_acceleration}
use robot_controller.Safety.{validate}
use robot_controller.Controller.{PdController, new_controller, calculate}
use robot_controller.Simulator

pub record Robot (W : Type 0) : Type 0 where
  pub joints : List (Joint W)
  pub controller : PdController W

module _ {W : Type 0} ⦃d : Double W⦄ where
  open d use {decimal, neg}

  -- A joint between -reach and reach degrees, at most 60 degrees/s and 30 degrees/s².
  unfoldable pub standard_joint : ℕ → Joint W
  standard_joint reach =
      new_joint (angle (neg (decimal reach 0))) (angle (decimal reach 0))
        (angular_velocity (decimal 60 0)) (angular_acceleration (decimal 30 0)) new_motor

  -- The robot as declared.
  unfoldable pub new_robot : Robot W
  new_robot = record {
    joints =
        standard_joint 180
        ∷ standard_joint 90
        ∷ standard_joint 180
        ∷ standard_joint 180
        ∷ standard_joint 90
        ∷ standard_joint 180
        ∷ [];
    controller = new_controller (record {
      position_gain = decimal 1 0;
      velocity_gain = decimal 5 1;
      max_acceleration = angular_acceleration (decimal 30 0);
    });
  }

  unfoldable pub state : Robot W → RobotState W
  state r = map Joint.state r.joints

  -- `joints_[index]` with the guard before it, and the method that is called on the joint.
  unfoldable pub on_joint : Robot W → JointIndex → (Joint W → Joint W × Bool) → Robot W × Bool
  on_joint r index method =
      if leb (length r.joints) index.value
      then (r, false)
      else elim (get_elem? r.joints index.value) [
        | none ↦ (r, false)
        | some j ↦
            let (j', done) = method j in (record r { joints = set r.joints index.value j' }, done)
      ]

  unfoldable pub initialize_joint_position : Robot W → JointIndex → Angle W → Robot W × Bool
  initialize_joint_position r index position =
      on_joint r index λ j. Joint.initialize_position j position

  unfoldable pub set_joint_target_position : Robot W → JointIndex → Angle W → Robot W × Bool
  set_joint_target_position r index target =
      on_joint r index λ j. (set_target_position j target, true)

  unfoldable pub set_joint_acceleration :
      Robot W → JointIndex → AngularAcceleration W → Robot W × Bool
  set_joint_acceleration r index acceleration =
      on_joint r index λ j. set_acceleration j acceleration

  -- The body of the loop of `update`.
  unfoldable pub control : PdController W → Joint W → Joint W
  control c j =
      let requested = calculate c j.command (Joint.state j) in
      if validate j requested
      then (set_acceleration j requested).0
      else (set_acceleration j (angular_acceleration nought)).0

  unfoldable pub update : Robot W → Duration W → Robot W
  update r dt = record r { joints = Simulator.update dt (map (control r.controller) r.joints) }

-- ===== src/Robot/Still.antt =====
-- A time step that is not positive.
use robot_controller.Prelude.{◌≡◌, refl, ap₂, true, List, [], ◌∷◌, map, arith}
use robot_controller.Double.{Double}
use robot_controller.Types.{Duration, AngularAcceleration, nought}
use robot_controller.Joint
use robot_controller.Joint.{Joint, set_acceleration}
use robot_controller.Controller.{PdController}
use robot_controller.Simulator
use robot_controller.Robot
use robot_controller.Robot.{Robot, control}
use robot_controller.Robot.Cases.{control_cases}

module _ {W : Type 0} ⦃d : Double W⦄ where
  set_acceleration-state :
      (j : Joint W) (a : AngularAcceleration W)
      → Joint.state (set_acceleration j a).0 ≡ Joint.state j
  unfolding set_acceleration Joint.state
  set_acceleration-state j a = ground arith

  control-state : (c : PdController W) (j : Joint W) → Joint.state (control c j) ≡ Joint.state j
  control-state c j =
      control_cases (λ k. Joint.state k ≡ Joint.state j) c j (set_acceleration-state j)

  map-state :
      (c : PdController W) (joints : List (Joint W))
      → map Joint.state (map (control c) joints) ≡ map Joint.state joints
  map-state c [] = refl
  map-state c (j ∷ rest) = ap₂ ◌∷◌ (control-state c j) (map-state c rest)

  -- An update by a time that is zero or negative changes no position and no velocity.
  update-state :
      (r : Robot W) (dt : Duration W)
      → d.le dt.seconds nought ≡ true
      → Robot.state (Robot.update r dt) ≡ Robot.state r
  unfolding Robot.update Simulator.update Robot.state
  update-state r dt still = rw still (map-state r.controller r.joints)

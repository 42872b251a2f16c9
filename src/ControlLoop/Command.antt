-- ===== src/ControlLoop/Command.antt =====
-- The command of the CAN side within a cycle.
use mathlib.Core.Option
use robot_controller.Prelude.{
  ℕ, ◌≡◌, refl, ap, ap₂, ◌∙◌, inl, inr, Bool-cases, Option, none, some, List, [], ◌∷◌, map, arith,
}
use robot_controller.Double.{Double}
use robot_controller.Types.{JointCommand, default_command, nought, Duration, AngularAcceleration}
use robot_controller.Joint.{Joint, set_acceleration, set_target_position, simulate}
use robot_controller.Controller.{PdController}
use robot_controller.Simulator
use robot_controller.Simulator.{settle, advance}
use robot_controller.Robot
use robot_controller.Robot.{Robot, control, on_joint, set_joint_target_position}
use robot_controller.Robot.Cases.{control_cases, settle_cases}
use robot_controller.Seqlock
use robot_controller.CanBuffers.{new_command_buffer, command_of_cells, read_command}
use robot_controller.ControlLoop.Cycle.{
  ControlLoop, Inputs, dt, update, command_robot, control_robot,
}
use robot_controller.ControlLoop.Statistics.{Timing}

module _ {W : Type 0} ⦃d : Double W⦄ where
  set_acceleration-command :
      (j : Joint W) (a : AngularAcceleration W) → (set_acceleration j a).0.command ≡ j.command
  unfolding set_acceleration
  set_acceleration-command j a = ground arith

  control-command : (c : PdController W) (j : Joint W) → (control c j).command ≡ j.command
  control-command c j = control_cases (λ k. k.command ≡ j.command) c j (set_acceleration-command j)

  settle-command : (j : Joint W) (v p : W) → (settle j v p).command ≡ j.command
  unfolding simulate
  settle-command j v p =
      settle_cases (λ k. k.command ≡ j.command) j v p (λ q. set_acceleration-command _ _) refl

  advance-command : (t : Duration W) (j : Joint W) → (advance t j).command ≡ j.command
  unfolding advance
  advance-command t j = settle-command j _ _

  -- The commands of some joints.
  abbrev pub commands : List (Joint W) → List (JointCommand W)
  commands = map λ j. j.command

  map-commands :
      (f : Joint W → Joint W)
      → ((j : Joint W) → (f j).command ≡ j.command)
      → (joints : List (Joint W)) → commands (map f joints) ≡ commands joints
  map-commands f same [] = refl
  map-commands f same (j ∷ rest) = ap₂ ◌∷◌ (same j) (map-commands f same rest)

  update-commands :
      (r : Robot W) (t : Duration W) → commands (Robot.update r t).joints ≡ commands r.joints
  unfolding Robot.update Simulator.update
  update-commands r t =
      let controlled =
        map-commands (control r.controller) (control-command r.controller) r.joints in
      elim (Bool-cases (d.le t.seconds nought)) [
        | inl h ↦ rw h controlled
        | inr h ↦ rw h (map-commands (advance t) (advance-command t) _ ∙ controlled)
      ]

  -- The commands with the first one replaced.
  abbrev pub retarget : Option (JointCommand W) → List (JointCommand W) → List (JointCommand W)
  retarget none cs = cs
  retarget (some c) [] = []
  retarget (some c) (old ∷ cs) = c ∷ cs

  command_robot-commands :
      (controller : PdController W) (joints : List (Joint W)) (command : Option (JointCommand W))
      → commands
          (command_robot (record { joints = joints; controller = controller }) command).joints
        ≡ retarget command (commands joints)
  unfolding set_joint_target_position on_joint set_target_position
  command_robot-commands controller joints none = refl
  command_robot-commands controller [] (some c) = refl
  command_robot-commands controller (j ∷ rest) (some c) = ground arith

  -- A cycle leaves every joint's target as it was, but for the command that was read, which becomes
  -- the target of joint 1.
  pub control_robot-commands :
      (r : Robot W) (command : Option (JointCommand W))
      → commands (control_robot r command).joints ≡ retarget command (commands r.joints)
  unfolding control_robot
  control_robot-commands r command =
      update-commands (command_robot r command) dt
      ∙ command_robot-commands r.controller r.joints command

  read_unpublished :
      (t : ℕ) → read_command (λ _. new_command_buffer) t ≡ some (default_command {W = W})
  unfolding read_command Option.bind
  read_unpublished t =
      ap (λ o. Option.bind o command_of_cells)
        (Seqlock.Quiet.read_at_rest nought new_command_buffer 2 t refl)

  -- A cycle that reads a command buffer in which nothing has been published yet finds a command all
  -- the same, zero degrees, and overwrites the target of joint 1 with it, whatever that was.
  pub unpublished_command_lem :
      (scheduler : Timing W) (i : Inputs W) (l : ControlLoop W) (t : ℕ)
      → i.can_command ≡ read_command (λ _. new_command_buffer) t
      → commands (update scheduler i l).robot.joints
        ≡ retarget (some default_command) (commands l.robot.joints)
  unfolding update
  unpublished_command_lem scheduler i l t c =
      control_robot-commands l.robot i.can_command
      ∙ ap (λ o. retarget o (commands l.robot.joints)) (c ∙ read_unpublished t)

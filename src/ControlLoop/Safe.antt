-- ===== src/ControlLoop/Safe.antt =====
-- The robot in the hands of the control loop.
use robot_controller.Prelude.{All, All-weaken, Option, none, some}
use robot_controller.Double.{Double, IsOrdered}
use robot_controller.Types.{JointCommand}
use robot_controller.Robot.{Robot}
use robot_controller.Robot.Safe.{IsSafe, update-IsSafe}
use robot_controller.Robot.Reach.{Reach, later, target, tick, IsValid, Reach-IsValid}
use robot_controller.ControlLoop.Statistics.{Timing}
use robot_controller.ControlLoop.Cycle.{
  ControlLoop, Inputs, update, control_robot, command_robot, dt,
}

module _ {W : Type 0} ⦃d : Double W⦄ where
  command_robot-Reach :
      (r : Robot W) (c : Option (JointCommand W)) → Reach r → Reach (command_robot r c)
  command_robot-Reach r none reached = reached
  command_robot-Reach r (some c) reached =
      later reached (target (record { value = 0 }) c.target_position)

  pub control_robot-Reach :
      (r : Robot W) (c : Option (JointCommand W)) → Reach r → Reach (control_robot r c)
  unfolding control_robot
  control_robot-Reach r c reached = later (command_robot-Reach r c reached) (tick dt)

module _ {W : Type 0} ⦃d : Double W⦄ (laws : IsOrdered W) where
  -- A cycle of the control loop, whatever command and times it gets, takes a robot that the public
  -- operations can make to another such robot, with all that holds of these, and with motor commands
  -- that are finite and within the limits of their joints.
  update-Reach :
      (scheduler : Timing W) (i : Inputs W) (l : ControlLoop W)
      → Reach l.robot
      → let next = (update scheduler i l).robot in
        Reach next × IsValid next × All IsSafe next.joints
  unfolding update control_robot
  update-Reach scheduler i l reached =
      let next = control_robot-Reach l.robot i.can_command reached in
      let commanded = command_robot-Reach l.robot i.can_command reached in
      (
        next,
        Reach-IsValid laws next,
        update-IsSafe laws (command_robot l.robot i.can_command) dt
            (All-weaken _ _ (λ j fit. fit.0) _ (Reach-IsValid laws commanded).fit),
      )

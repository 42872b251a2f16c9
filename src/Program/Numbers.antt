-- ===== src/Program/Numbers.antt =====
-- The program computes with numbers alone.
use robot_controller.Prelude.{
  ◌≡◌, sym, true, none, some, Option, List, [], ◌∷◌, All, All-weaken, map, arith,
}
use robot_controller.Double.{Double, IsOrdered, IsRounding}
use robot_controller.Types.{JointCommand, JointState}
use robot_controller.Joint
use robot_controller.Joint.{Joint}
use robot_controller.Robot
use robot_controller.Robot.{Robot}
use robot_controller.Robot.Reach.{IsValid, Reach-IsValid}
use robot_controller.Simulator.Numbers.{IsNumeric, zero-Within, Within-number}
use robot_controller.Robot.Numbers.{
  update-IsNumeric, set_joint_target_position-IsNumeric, initialize_joint_position-IsNumeric,
  new_robot-IsNumeric,
}
use robot_controller.ControlLoop.Statistics.{Timing}
use robot_controller.ControlLoop.Cycle.{
  ControlLoop, Inputs, first_state, update, control_robot, command_robot, dt,
}
use robot_controller.Scheduler.Platform.{Platform, Boot}
use robot_controller.Program.{Program, Reach, initial_loop}
use robot_controller.Program.Run
use robot_controller.Program.Trace.{cycles_of}
use robot_controller.Program.Sequential.{sequence, every_millisecond, Reach-IsSequential}
use mathlib.Core.Path.{subst}

module _ {W : Type 0} ⦃d : Double W⦄ (laws : IsOrdered W) (rounding : IsRounding W) where
  command_robot-IsNumeric :
      (r : Robot W) (c : Option (JointCommand W))
      → All IsNumeric r.joints
      → All IsNumeric (command_robot r c).joints
  command_robot-IsNumeric r none n = n
  command_robot-IsNumeric r (some c) n =
      set_joint_target_position-IsNumeric laws rounding r (record { value = 0 }) c.target_position n

  control_robot-IsNumeric :
      (r : Robot W) (c : Option (JointCommand W))
      → All IsNumeric r.joints
      → All IsNumeric (control_robot r c).joints
  unfolding control_robot
  control_robot-IsNumeric r c n =
      update-IsNumeric laws rounding (command_robot r c) dt
        (rounding.decimal_within 1 3 1 (omega arith) (omega arith))
        (All-weaken IsNumeric _ (λ j m. m.measured) _ (command_robot-IsNumeric r c n))

  sequence-IsNumeric :
      (scheduler : Timing W) (cycles : List (Inputs W)) (l : ControlLoop W)
      → All IsNumeric l.robot.joints
      → All IsNumeric (sequence scheduler cycles l).robot.joints
  unfolding update
  sequence-IsNumeric scheduler [] l n = n
  sequence-IsNumeric scheduler (i ∷ rest) l n =
      sequence-IsNumeric scheduler rest (update scheduler i l)
        (control_robot-IsNumeric l.robot i.can_command n)

  initial-IsNumeric : All IsNumeric (initial_loop {W = W}).robot.joints
  initial-IsNumeric =
      initialize_joint_position-IsNumeric laws rounding _ (record { value = 0 })
        (new_robot-IsNumeric laws rounding)

  joints-IsNumeric :
      {platform : Platform} {b : Boot} {p : Program W}
      → Reach platform b p
      → All IsNumeric p.loop.robot.joints
  joints-IsNumeric {p} reached =
      let run = Reach-IsSequential reached in
      subst (λ l. All IsNumeric l.robot.joints) (sym run.same)
        (sequence-IsNumeric every_millisecond (cycles_of reached) initial_loop initial-IsNumeric)

  -- In every interleaving of the program's threads, and whatever frames and times it gets, no position,
  -- no velocity and no motor command of a joint is ever NaN or an infinity: they are numbers between
  -- -180 and 180 degrees, -60 and 60 degrees/s, and -30 and 30 degrees/s². There are six joints, each
  -- with well-formed limits and not outside them.
  pub Reach-IsNumeric :
      {platform : Platform} {b : Boot} {p : Program W}
      → Reach platform b p
      → All IsNumeric p.loop.robot.joints × IsValid p.loop.robot
  Reach-IsNumeric reached =
      (joints-IsNumeric reached, Reach-IsValid laws (Run.Reach-Inv reached).sound.robot)

  -- A position and a velocity that are numbers.
  abbrev pub AreNumbers : JointState W → Type 0
  AreNumbers s =
      (d.le s.position.degrees s.position.degrees ≡ true)
      × (d.le s.velocity.degrees_per_second s.velocity.degrees_per_second ≡ true)

  first_state-AreNumbers :
      (joints : List (Joint W))
      → All IsNumeric joints
      → AreNumbers (first_state (map Joint.state joints))
  unfolding Joint.state
  first_state-AreNumbers [] n =
      let zero = Within-number laws rounding 0 _ (zero-Within laws rounding 0 (omega arith)) in
      (zero, zero)
  first_state-AreNumbers (j ∷ rest) (n, ns) = (
    Within-number laws rounding 180 _ n.measured.position,
    Within-number laws rounding 60 _ n.measured.velocity,
  )

  pub Reach-AreNumbers :
      {platform : Platform} {b : Boot} {p : Program W}
      → Reach platform b p
      → AreNumbers (first_state (Robot.state p.loop.robot))
  unfolding Robot.state
  Reach-AreNumbers {p} reached =
      first_state-AreNumbers p.loop.robot.joints (joints-IsNumeric reached)

-- ===== src/ControlLoop/Published.antt =====
-- What the two readers of a cycle's state find when the cycle is over.
use mathlib.Core.Option
use robot_controller.Prelude.{
  ℕ, ◌%◌, ◌≡◌, refl, ap, ◌∙◌, sym, Option, none, some, List, [], ◌∷◌, length, length-map, map,
  arith,
}
use robot_controller.Double.{Double}
use robot_controller.Types.{JointCommand, JointState, RobotState, joint_count, nought}
use robot_controller.Joint
use robot_controller.Robot
use robot_controller.Robot.{Robot}
use robot_controller.Seqlock
use robot_controller.Seqlock.{Memory, perform_all}
use robot_controller.Seqlock.Quiet.{read-publish, perform_all-publish}
use robot_controller.CanBuffers
use robot_controller.CanBuffers.{publish_state, read_state, state_of_cells}
use robot_controller.Snapshot
use robot_controller.Snapshot.{cell_count, cells_of_state}
use robot_controller.Snapshot.Read.{read-publish_state, length-cells_of_state}
use robot_controller.ControlLoop.Statistics.{Timing}
use robot_controller.ControlLoop.Cycle.{
  ControlLoop, Inputs, update, state, first_state, control_robot,
}
use robot_controller.ControlLoop.Command.{commands, control_robot-commands, retarget}

-- A buffer of some size in which no publication is under way.
abbrev pub IsAtRest : {W : Type 0} → ℕ → Memory W → Type 0
IsAtRest size m = (length m.cells ≡ size) × (m.sequence % 2 ≡ 0)

module _ {W : Type 0} ⦃d : Double W⦄ where
  publish-IsAtRest :
      {n : ℕ} (values : List W) (m : Memory W)
      → length values ≡ n
      → IsAtRest n m
      → IsAtRest n (perform_all (Seqlock.publish values) m)
  publish-IsAtRest values m count (size, even) =
      rw (perform_all-publish values m (size ∙ sym count)) (count, omega arith)

  length-retarget :
      (c : Option (JointCommand W)) (cs : List (JointCommand W))
      → length (retarget c cs) ≡ length cs
  length-retarget none cs = refl
  length-retarget (some c) [] = refl
  length-retarget (some c) (old ∷ cs) = refl

  -- A cycle neither adds nor removes joints.
  length-control_robot :
      (r : Robot W) (c : Option (JointCommand W))
      → length (control_robot r c).joints ≡ length r.joints
  length-control_robot r c =
      sym (length-map (λ j. j.command) (control_robot r c).joints)
      ∙ ap length (control_robot-commands r c)
      ∙ length-retarget c (commands r.joints)
      ∙ length-map (λ j. j.command) r.joints

  pub read_state-publish :
      (s : JointState W) (m : Memory W) (t : ℕ)
      → IsAtRest 2 m
      → read_state (λ _. perform_all (publish_state s) m) t ≡ some s
  unfolding read_state publish_state Option.bind
  read_state-publish s m t (size, even) =
      ap (λ o. Option.bind o state_of_cells)
        (read-publish nought (CanBuffers.cells_of_state s) m 2 t size even)

  -- For a robot of six joints and buffers in which no publication is under way: after a cycle, a read
  -- of the CAN side's buffer finds the state of joint 1, the monitoring side's `state` gives the state
  -- of the whole robot, whatever it gave last, and the same conditions hold for the next cycle.
  pub update-published :
      (scheduler : Timing W) (i : Inputs W) (l : ControlLoop W) (last_state : RobotState W) (t : ℕ)
      → length l.robot.joints ≡ joint_count
      → IsAtRest 2 l.can_state
      → IsAtRest cell_count l.state_snapshot
      → let next = update scheduler i l in
        (state last_state (Snapshot.read (λ _. next.state_snapshot) t) ≡ Robot.state next.robot)
        × (read_state (λ _. next.can_state) t ≡ some (first_state (Robot.state next.robot)))
        × (length next.robot.joints ≡ joint_count)
        × IsAtRest 2 next.can_state
        × IsAtRest cell_count next.state_snapshot
  unfolding update publish_state Snapshot.publish Robot.state
  update-published scheduler i l last_state t six can_rest snapshot_rest =
      let moved = control_robot l.robot i.can_command in
      let all = map Joint.state moved.joints in
      let six' : length moved.joints ≡ joint_count =
        length-control_robot l.robot i.can_command ∙ six in
      let six_states : length all ≡ joint_count = length-map Joint.state moved.joints ∙ six' in
      let size : length (cells_of_state all) ≡ cell_count =
        omega (arith, length-cells_of_state all, six_states) in
      (
        ap (state last_state)
            (read-publish_state all l.state_snapshot t six_states snapshot_rest.0 snapshot_rest.1),
        read_state-publish (first_state all) l.can_state t can_rest,
        six',
        publish-IsAtRest (CanBuffers.cells_of_state (first_state all)) l.can_state refl can_rest,
        publish-IsAtRest (cells_of_state all) l.state_snapshot size snapshot_rest,
      )

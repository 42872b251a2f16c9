-- ===== src/Program/Cycles.antt =====
-- What holds of the control loop's data after any cycles.
use robot_controller.Prelude.{
  ℕ, ◌+◌, ◌≡◌, ◌⊎◌, refl, sym, ap, some, arith, ◌∙◌, inl, inr, [], length, length-map,
}
use robot_controller.Double.{Double}
use robot_controller.Types.{RobotState, default_state, angle, nought, joint_count}
use robot_controller.Robot
use robot_controller.Robot.{Robot, new_robot, standard_joint, on_joint, initialize_joint_position}
use robot_controller.Robot.Reach
use robot_controller.Robot.Config.{config, Reach-config}
use robot_controller.Snapshot
use robot_controller.Snapshot.{cell_count}
use robot_controller.ControlLoop.Statistics.{Timing}
use robot_controller.ControlLoop.Counts.{
  IsCounted, new_statistics-IsCounted, update_statistics-IsCounted,
  measured_cycles-update_statistics,
}
use robot_controller.ControlLoop.Cycle.{ControlLoop, Inputs, update, state, first_state}
use robot_controller.ControlLoop.Published.{IsAtRest, update-published}
use robot_controller.ControlLoop.Safe.{control_robot-Reach}
use robot_controller.Joint
use robot_controller.Joint.{new_joint, initialize_position}
use robot_controller.CanBuffers.{new_state_buffer, state_of_cells, read_state}
use robot_controller.Seqlock.Quiet.{read_at_rest}
use robot_controller.Scheduler.Platform.{ControlScheduler}
use robot_controller.Program.{new_program}
use mathlib.Core.Option
use robot_controller.CanFrame.{CanFrame}

module _ {W : Type 0} ⦃d : Double W⦄ where
  pub record IsSound (l : ControlLoop W) : Type 0 where
    pub robot : Robot.Reach.Reach l.robot
    pub counted : IsCounted l.statistics
    pub measured : l.statistics.measured_cycles ≡ l.completed_cycles
    pub can_rest : IsAtRest 2 l.can_state
    pub snapshot_rest : IsAtRest cell_count l.state_snapshot
    -- After the first cycle a read of the snapshot gives the state of the robot.
    pub shown :
        (l.completed_cycles ≡ 0)
        ⊎ ((last : RobotState W) (t : ℕ)
            → state last (Snapshot.read (λ _. l.state_snapshot) t) ≡ Robot.state l.robot)
    -- The buffer of the CAN side has the state of joint 1.
    pub sent : (t : ℕ) → read_state (λ _. l.can_state) t ≡ some (first_state (Robot.state l.robot))

  length-Reach : {r : Robot W} → Robot.Reach.Reach r → length r.joints ≡ joint_count
  unfolding new_robot
  length-Reach {r} reached = sym (length-map config r.joints) ∙ ap length (Reach-config reached)

  pub update-IsSound :
      (scheduler : Timing W) (i : Inputs W) (l : ControlLoop W)
      → IsSound l
      → IsSound (update scheduler i l)
  unfolding update
  update-IsSound scheduler i l sound =
      let six = length-Reach sound.robot in
      let published = λ (last : RobotState W) (t : ℕ).
        update-published scheduler i l last t six sound.can_rest sound.snapshot_rest in
      let now = published [] 0 in
      record {
        robot = control_robot-Reach l.robot i.can_command sound.robot;
        counted = update_statistics-IsCounted scheduler i l.statistics sound.counted;
        measured =
            measured_cycles-update_statistics scheduler i l.statistics sound.counted
            ∙ ap (λ n. n + 1) sound.measured;
        can_rest = now.3;
        snapshot_rest = now.4;
        shown = inr (λ last t. (published last t).0);
        sent = λ t. (published [] t).1;
      }

  read_unpublished : (t : ℕ) → read_state (λ _. new_state_buffer) t ≡ some (default_state {W = W})
  unfolding read_state Option.bind
  read_unpublished t =
      ap (λ o. Option.bind o state_of_cells) (read_at_rest nought new_state_buffer 2 t refl)

  first_state-new_program :
      first_state {W = W}
        (Robot.state (initialize_joint_position new_robot (record { value = 0 }) (angle nought)).0)
      ≡ default_state
  unfolding Robot.state new_robot standard_joint new_joint initialize_joint_position on_joint
      initialize_position Joint.state
  first_state-new_program = ground arith

  pub new_program-IsSound :
      (scheduler : ControlScheduler W) (tx : CanFrame) → IsSound (new_program scheduler tx).loop
  unfolding new_program
  new_program-IsSound scheduler tx = record {
    robot =
        Robot.Reach.later Robot.Reach.start
          (Robot.Reach.initialize (record { value = 0 }) (angle nought));
    counted = new_statistics-IsCounted;
    measured = refl;
    can_rest = (refl, refl);
    snapshot_rest = (refl, refl);
    shown = inl refl;
    sent = λ t. read_unpublished t ∙ ap some (sym first_state-new_program);
  }

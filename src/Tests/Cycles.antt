-- ===== src/Tests/Cycles.antt =====
-- The control loop and its thread at concrete inputs.
use robot_controller.Prelude.{
  All, ◌∷◌, length, ◌+◌, ◌≤◌, ◌≡◌, refl, false, [], pos, ◌+ℤ◌, ◌-ℤ◌, quot, ◌*ℤ◌, Option, some, none,
}
use robot_controller.Double.Fixed.{Fixed, fixed_double, Fixed-IsOrdered}
use robot_controller.Types.{JointCommand, angle, default_command, joint_count}
use robot_controller.Robot.{Robot, new_robot, set_joint_target_position}
use robot_controller.Robot
use robot_controller.CanBuffers.{new_command_buffer, new_state_buffer, read_command, read_state}
use robot_controller.Snapshot
use robot_controller.Snapshot.{cell_count, new_snapshot_buffer}
use robot_controller.ControlLoop.Cycle
use robot_controller.ControlLoop.Published.{IsAtRest, update-published}
use robot_controller.ControlLoop.Extremes.{marks, Spaced, Kept}
use robot_controller.ControlLoop.Extremes.Bounds.{measure-Spaced}
use robot_controller.ControlLoop.Maxima.{maxima, times, measure, IsBound, measure-IsBound}
use robot_controller.Scheduler.Portable
use robot_controller.Scheduler.Portable.{new_scheduler}
use robot_controller.ControlLoop.Statistics.{
  timing, Statistics, Timing, new_statistics, update_miss_statistics, update_execution_statistics,
  update_deadline_statistics, update_scheduling_statistics, update_inter_cycle_statistics,
  update_snapshot_statistics, update_control_statistics, update_delay_statistics,
  update_period_statistics, update_processor_statistics,
}
use robot_controller.ControlLoop.Cycle.{
  first_state, ControlLoop, Inputs, update, update_statistics, control_robot,
}
use robot_controller.ControlLoop.Command.{commands, retarget, unpublished_command_lem}
use robot_controller.ControlLoop.Lifecycle.{
  LifecycleState, Loop, new_loop, run, request_stop, begin_destroy, work, IsJoinable, running,
  stopping, working, Reach, fresh, later,
}
use robot_controller.ControlLoop.Threads.{run_refused, ended_complete, Onward, stop_bound}

abbrev scheduler : Timing Fixed
scheduler = timing (new_scheduler 1 (pos 0))

-- A cycle that starts 2 ms late and misses its deadline.
abbrev inputs : Option (JointCommand Fixed) → Inputs Fixed
inputs c = record {
  scheduled_start = pos 1_000_000;
  cycle_start = pos 3_000_000;
  processor = pos 2;
  control_start = pos 3_000_100;
  can_command = c;
  control_end = pos 3_050_000;
  snapshot_start = pos 3_050_000;
  snapshot_end = pos 3_060_000;
  actual_end = pos 3_070_000;
}

-- The same cycle twice, so that the second one finds the state that the first one has left.
abbrev once : Statistics Fixed
once = update_statistics scheduler (inputs none) new_statistics

late_cycle :
    (once.measured_cycles ≡ 1)
    × (once.delayed_cycles ≡ 1)
    × (once.deadline_misses ≡ 1)
    × (once.scheduling_misses ≡ 1)
    × (once.delay_1ms_to_5ms ≡ 1)
unfolding update_statistics update_miss_statistics ◌+ℤ◌ Portable.scheduling_delay quot ◌*ℤ◌ ◌-ℤ◌
    update_execution_statistics update_deadline_statistics update_scheduling_statistics
    update_inter_cycle_statistics update_snapshot_statistics update_control_statistics
    update_delay_statistics Portable.has_backlog new_scheduler update_period_statistics
    update_processor_statistics Portable.backlog
late_cycle = (refl, refl, refl, refl, refl)

abbrev forty : JointCommand Fixed
forty = record { target_position = angle (fixed_double.decimal 40 0) }

abbrev aimed : Robot Fixed
aimed =
    (set_joint_target_position new_robot (record { value = 0 })
      (angle (fixed_double.decimal 90 0))).0

abbrev loop : ControlLoop Fixed
loop = record {
  robot = aimed;
  can_state = new_state_buffer;
  state_snapshot = new_snapshot_buffer;
  statistics = new_statistics;
  completed_cycles = 0;
}

unpublished_command_lem_example :
    commands
      (update scheduler (inputs (read_command (λ _. new_command_buffer) 3)) loop).robot.joints
    ≡ retarget (some default_command) (commands aimed.joints)
unpublished_command_lem_example =
    unpublished_command_lem scheduler (inputs (read_command (λ _. new_command_buffer) 3)) loop 3
      refl

-- One cycle of two, with a stop request during the first one.
abbrev in_first : Loop
in_first = work (run 2 new_loop)

abbrev stopped : Loop
stopped = work (work (request_stop in_first))

stopped-Reach : Reach stopped 2
unfolding run work request_stop
stopped-Reach =
    later
      (later (later (later (later fresh (running 2 refl refl)) working) (stopping refl)) working)
      working

ended_complete_example :
    (stopped.lifecycle_state ≡ LifecycleState.finished)
    × (stopped.completed_cycles ≤ 2)
    × (stopped.stop_requested ≡ false → stopped.stop_token ≡ false → stopped.completed_cycles ≡ 2)
unfolding run work request_stop
ended_complete_example = ended_complete stopped-Reach refl

run_refused_example : run 5 stopped ≡ stopped
unfolding run work request_stop
run_refused_example = run_refused 5 stopped-Reach (λ e. absurd (cc))

-- The same loop destroyed within the cycle, with no stop request.
abbrev destroyed : Loop
destroyed = work (begin_destroy in_first)

stop_bound_example :
    (destroyed.completed_cycles ≤ 0 + 1) × IsJoinable (work (work destroyed)).worker
unfolding run work begin_destroy
stop_bound_example = stop_bound {l = begin_destroy in_first} refl (Onward.go Onward.here)

measure-IsBound_example :
    All
      (λ i.
        IsBound
          (maxima (measure scheduler (inputs none ∷ inputs (some forty) ∷ []) new_statistics))
          (times scheduler i))
      (inputs none ∷ inputs (some forty) ∷ [])
measure-IsBound_example =
    measure-IsBound Fixed-IsOrdered scheduler (inputs none ∷ inputs (some forty) ∷ [])
      new_statistics

measure-Spaced_example :
    let cycles = inputs none ∷ inputs (some forty) ∷ inputs none ∷ [] in
    let m = marks (measure scheduler cycles new_statistics) in Spaced m cycles × All (Kept m) cycles
measure-Spaced_example =
    measure-Spaced Fixed-IsOrdered scheduler (inputs none ∷ inputs (some forty) ∷ inputs none ∷ [])
      new_statistics

-- The loop of a new robot.
abbrev new_control_loop : ControlLoop Fixed
new_control_loop = record {
  robot = new_robot;
  can_state = new_state_buffer;
  state_snapshot = new_snapshot_buffer;
  statistics = new_statistics;
  completed_cycles = 0;
}

update-published_example :
    let next = update scheduler (inputs (some forty)) new_control_loop in
    (Cycle.state [] (Snapshot.read (λ _. next.state_snapshot) 5) ≡ Robot.state next.robot)
    × (read_state (λ _. next.can_state) 5 ≡ some (first_state (Robot.state next.robot)))
    × (length next.robot.joints ≡ joint_count)
    × IsAtRest 2 next.can_state
    × IsAtRest cell_count next.state_snapshot
unfolding new_robot
update-published_example =
    update-published scheduler (inputs (some forty)) new_control_loop [] 5 refl (refl, refl)
      (refl, refl)

-- ===== src/ControlLoop/Cycle.antt =====
-- One control cycle, `ControlLoop::update`, and the monitoring side's `state`.
use robot_controller.Prelude.{ℕ, ◌+◌, Option, none, some, [], ◌∷◌, ℤ, pos, ◌+ℤ◌}
use robot_controller.Double.{Double}
use robot_controller.Types.{JointCommand, JointState, RobotState, Duration, duration, default_state}
use robot_controller.Robot
use robot_controller.Robot.{Robot, set_joint_target_position}
use robot_controller.Seqlock.{Memory, perform_all}
use robot_controller.CanBuffers.{publish_state}
use robot_controller.Snapshot
use robot_controller.ControlLoop.Statistics.{
  Statistics, Timing, update_processor_statistics, update_period_statistics,
  update_delay_statistics, update_control_statistics, update_snapshot_statistics,
  update_inter_cycle_statistics, update_scheduling_statistics, update_deadline_statistics,
  update_execution_statistics, update_miss_statistics,
}

pub record ControlLoop (W : Type 0) : Type 0 where
  pub robot : Robot W
  pub can_state : Memory W
  pub state_snapshot : Memory W
  pub statistics : Statistics W
  pub completed_cycles : ℕ

-- What the clock, the scheduler and the command buffer give during one cycle, in this order.
pub record Inputs (W : Type 0) : Type 0 where
  pub scheduled_start : ℤ  -- waitForNextCycle
  pub cycle_start : ℤ
  pub processor : ℤ
  pub control_start : ℤ
  pub can_command : Option (JointCommand W)  -- what `read` gave
  pub control_end : ℤ
  pub snapshot_start : ℤ
  pub snapshot_end : ℤ
  pub actual_end : ℤ

-- `control_period_`
abbrev pub control_period : ℤ
control_period = pos 1_000_000

module _ {W : Type 0} ⦃d : Double W⦄ where
  -- `dt_`
  abbrev pub dt : Duration W
  dt = duration (d.decimal 1 3)

  -- The part of the cycle that moves the robot: the command of the CAN side, if there is one, goes to
  -- joint 1.
  abbrev pub command_robot : Robot W → Option (JointCommand W) → Robot W
  command_robot r none = r
  command_robot r (some c) =
      (set_joint_target_position r (record { value = 0 }) c.target_position).0

  unfoldable pub control_robot : Robot W → Option (JointCommand W) → Robot W
  control_robot r can_command = Robot.update (command_robot r can_command) dt

  -- `robot_state[0]`
  abbrev pub first_state : RobotState W → JointState W
  first_state [] = default_state
  first_state (s ∷ rest) = s

  -- The statistics of a cycle, in the order in which `update` brings them up to date.
  unfoldable pub update_statistics : Timing W → Inputs W → Statistics W → Statistics W
  update_statistics scheduler i s =
      let deadline = i.scheduled_start +ℤ control_period in
      let behind_schedule = scheduler.has_backlog i.cycle_start i.scheduled_start in
      let delay_ms = scheduler.scheduling_delay i.cycle_start i.scheduled_start in
      let s1 = update_processor_statistics s i.processor in
      let s2 = update_period_statistics s1 i.cycle_start in
      let s3 =
        update_delay_statistics scheduler s2 behind_schedule i.cycle_start i.scheduled_start in
      let s4 = update_control_statistics s3 i.control_start i.control_end in
      let s5 = update_snapshot_statistics s4 i.snapshot_start i.snapshot_end in
      let s6 = update_inter_cycle_statistics s5 i.cycle_start i.actual_end in
      let s7 = update_scheduling_statistics s6 delay_ms in
      let s8 = update_deadline_statistics s7 deadline i.actual_end s7.measured_cycles in
      let (s9, execution_ms) = update_execution_statistics s8 i.cycle_start i.actual_end in
      let s10 = update_miss_statistics s9 i.actual_end deadline delay_ms execution_ms in
      record s10 { measured_cycles = s10.measured_cycles + 1 }

  -- `ControlLoop::update`. Both publications take place as a whole; Seqlock has what other threads may
  -- see of them meanwhile.
  unfoldable pub update : Timing W → Inputs W → ControlLoop W → ControlLoop W
  update scheduler i l =
      let robot = control_robot l.robot i.can_command in
      let robot_state = Robot.state robot in
      record {
        robot = robot;
        can_state = perform_all (publish_state (first_state robot_state)) l.can_state;
        state_snapshot = perform_all (Snapshot.publish robot_state) l.state_snapshot;
        statistics = update_statistics scheduler i l.statistics;
        completed_cycles = l.completed_cycles + 1;
      }

  -- `ControlLoop::state`, from the last state and what the read of the snapshot gave: the new last
  -- state, which is also the result.
  abbrev pub state : RobotState W → Option (RobotState W) → RobotState W
  state last_state none = last_state
  state last_state (some fresh) = fresh

-- ===== src/Report.antt =====
-- What the program prints: `printTimingStatistics` and `printSnapshot` of src/control/ControlLoop.cpp,
-- and `printState` of src/core/Robot.cpp, as the sequence of what goes into `std::cout`. How a number
-- is written in digits is the stream's affair.
pub mod Counters
use Prim.Native.String.{String}
use robot_controller.Prelude.{
  ℕ, suc, ◌+◌, ◌-◌, List, [], ◌∷◌, ◌++◌, ℤ, pos, ltb, length, if◌then◌else◌,
}
use robot_controller.Double.{Double}
use robot_controller.Types.{JointState, RobotState}
use robot_controller.Joint.{Joint}
use robot_controller.Robot.{Robot}
use robot_controller.ControlLoop.Statistics.{Statistics}
use robot_controller.ControlLoop.Cycle.{first_state}

pub data Token (W : Type 0) : Type 0 where
  text : String → Token W
  number : W → Token W
  count : ℕ → Token W

module _ {W : Type 0} where
  abbrev pub milliseconds_line : String → W → List (Token W)
  milliseconds_line label x = Token.text label ∷ Token.number x ∷ Token.text " ms\n" ∷ []

  abbrev pub count_line : String → ℕ → List (Token W)
  count_line label n = Token.text label ∷ Token.count n ∷ Token.text "\n" ∷ []

module _ {W : Type 0} ⦃d : Double W⦄ where
  abbrev pub average_period : Statistics W → W
  average_period s = d.div s.total_period (d.of_int (pos (s.measured_cycles - 1)))

  -- `max_wake_lateness` is what the scheduler gives.
  unfoldable pub print_timing_statistics : W → Statistics W → List (Token W)
  print_timing_statistics max_wake_lateness s =
      if ltb s.measured_cycles 2
      then []
      else milliseconds_line "\nMinimum cycle period: " s.min_period
        ++ (milliseconds_line "Maximum cycle period: " s.max_period
            ++ (milliseconds_line "Average cycle period: " (average_period s)
                ++ (milliseconds_line "Maximum execution time: " s.max_execution_time
                    ++ (milliseconds_line "Maximum control time: " s.max_control_time
                        ++ (milliseconds_line "Maximum snapshot time: " s.max_snapshot_time
                            ++ (milliseconds_line "Maximum inter-cycle gap: " s.max_inter_cycle_gap
                                ++ (count_line "Delayed cycles: " s.delayed_cycles
                                    ++ (count_line "Deadline misses: " s.deadline_misses
                                        ++ (count_line "Scheduling misses: " s.scheduling_misses
                                            ++ (count_line "Execution misses: " s.execution_misses
                                                ++ (count_line "Combined misses: " s.combined_misses
                                                    ++ (milliseconds_line
                                                          "Maximum scheduling delay: "
                                                          s.max_scheduling_delay
                                                        ++ (milliseconds_line
                                                            "Maximum scheduler wake lateness: "
                                                            max_wake_lateness
                                                            ++ (count_line
                                                            "Scheduling delay < 0.1 ms: "
                                                            s.delay_under_100us
                                                            ++ (count_line
                                                            "Scheduling delay 0.1-1 ms: "
                                                            s.delay_100us_to_1ms
                                                            ++ (count_line
                                                            "Scheduling delay 1-5 ms: "
                                                            s.delay_1ms_to_5ms
                                                            ++ (count_line
                                                            "Scheduling delay 5-10 ms: "
                                                            s.delay_5ms_to_10ms
                                                            ++ (count_line
                                                            "Scheduling delay >= 10 ms: "
                                                            s.delay_over_10ms
                                                            ++ (count_line
                                                            "Maximum consecutive delayed cycles: "
                                                            s.max_consecutive_delayed_cycles
                                                            ++ (count_line "Processor changes: "
                                                            s.processor_changes
                                                            ++ (milliseconds_line
                                                            "Maximum schedule backlog: "
                                                            s.max_backlog
                                                            ++ (count_line
                                                            "Cycles with >= 1 ms backlog: "
                                                            s.backlog_cycles
                                                            ++ milliseconds_line
                                                            "Minimum deadline margin: "
                                                            s.min_deadline_margin))))))))))))))))))))))

  unfoldable pub print_snapshot : RobotState W → List (Token W)
  print_snapshot state =
      Token.text "Snapshot joint 1: "
      ∷ Token.number (first_state state).position.degrees
      ∷ Token.text " degrees\n"
      ∷ []

  -- The lines of the joints from the one with index `i` on.
  unfoldable pub print_joints : ℕ → List (Joint W) → List (Token W)
  print_joints i [] = []
  print_joints i (j ∷ rest) =
      Token.text "\n\nJoint "
      ∷ Token.count (i + 1)
      ∷ Token.text ":\n"
      ∷ Token.text "Position: "
      ∷ Token.number j.position.degrees
      ∷ Token.text " degrees"
      ∷ Token.text "\nTarget: "
      ∷ Token.number j.command.target_position.degrees
      ∷ Token.text " degrees"
      ∷ Token.text "\nVelocity: "
      ∷ Token.number j.velocity.degrees_per_second
      ∷ print_joints (suc i) rest

  unfoldable pub print_state : Robot W → List (Token W)
  print_state r =
      Token.text "Robot has "
      ∷ Token.count (length r.joints)
      ∷ Token.text " joints"
      ∷ print_joints 0 r.joints

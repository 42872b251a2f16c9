-- ===== src/Tests/Programs.antt =====
-- The whole program, from its start to its end.
use robot_controller.Prelude.{
  All, ◌⊎◌, map, length, ◌≡◌, refl, false, none, some, [], ◌*◌, ◌+ℤ◌, ℤ, pos, ◌*ℤ◌, quot, ℕ, ◌∷◌,
  ◌<◌, ◌^◌,
}
use robot_controller.Double.Fixed.{Fixed, fixed_double, Fixed-IsOrdered, Fixed-IsTruncating}
use robot_controller.Codec.Command
use robot_controller.Word.{int32_of_double}
use robot_controller.Communication.Thread.{Place}
use robot_controller.Robot
use robot_controller.Report.{print_timing_statistics}
use robot_controller.Report.Counters.{IsReport}
use robot_controller.ControlLoop.Lifecycle.{Worker}
use mathlib.Core.Option
use robot_controller.Scheduler.Portable
use robot_controller.Scheduler.Portable.{new_scheduler, advance_schedule}
use robot_controller.Scheduler.Platform.{
  Platform, Boot, ControlScheduler, create_control_scheduler, wait_for_next_cycle,
  max_wake_lateness,
}
use robot_controller.ControlLoop.Lifecycle.{run, work}
use robot_controller.Program.Times.{Reach-scheduled}
use robot_controller.Program
use robot_controller.Program.{
  Program, Stage, Reach, start, later, open_can, round, launch, head, wait, new_program,
  cycle_count, output, observed, outgoing_command, begin,
}
use robot_controller.Program.Run.{ended_lem}
use robot_controller.Program.Sequential.{
  IsSequential, timeline, every_millisecond, Reach-IsSequential,
}
use robot_controller.Program.Totals.{Prints, ended_totals}
use robot_controller.Program.Delivered.{Aims}
use robot_controller.Program.Exact.{Reach-Aims, begin-Ends}
use robot_controller.Double.Fixed.Exact.{Fixed-IsExact}
use robot_controller.Types.{default_command}
use robot_controller.Program.Free.{Ends_free}
use robot_controller.Program.Stop.{Ends, Reach-Runs}
use robot_controller.Double.Fixed.Rounding.{Fixed-IsRounding}
use robot_controller.Communication.{SimulatedCan, transmit_state}
use robot_controller.ControlLoop.Cycle.{first_state}
use robot_controller.Robot.Reach.{IsValid}
use robot_controller.Simulator.Numbers.{IsNumeric}
use robot_controller.Program.Numbers.{Reach-IsNumeric}
use robot_controller.Program.Transmits.{Reports, mixed-Reports}
use robot_controller.Program.Trace.{cycles_of, reads_of}
use robot_controller.Types.{JointState}
use robot_controller.Program.Overflow.{counters, Reach-Fits}
use robot_controller.Program.End.{Reach-Ends}
use robot_controller.Communication.Thread
use robot_controller.Communication.Thread.{go}
use robot_controller.Robot.{new_robot, standard_joint, initialize_joint_position, on_joint}

-- 90 degrees.
abbrev pub program : Program Fixed
program =
    new_program (ControlScheduler.portable (new_scheduler 1 (pos 7_000)))
      (Command.frame_of (pos 9_000))

-- A platform that is neither Windows nor Linux, started at 7 µs.
abbrev pub boot : Boot
boot = record { base_now = pos 7_000; now = pos 7_250; linux_now = none; timer = none }

pub program-Reach : Reach Platform.other boot program
unfolding create_control_scheduler Option.bind Program.begin Command.encode int32_of_double ◌*ℤ◌
    quot
program-Reach = start refl

-- The communication thread in its first round.
abbrev in_round : Program Fixed
in_round = record program { service = go (Thread.start program.service); stage = Stage.launching }

in_round-Reach : Reach Platform.other boot in_round
unfolding new_program go Thread.start
in_round-Reach = later (later program-Reach (open_can refl)) (round refl)

Reach-Ends_example : Ends in_round
Reach-Ends_example = Reach-Ends Fixed-IsOrdered Fixed-IsTruncating Fixed-IsRounding in_round-Reach

-- A run of the whole program.
to_end : Ends program
unfolding new_program
to_end = Ends_free program-Reach (λ e. absurd (cc))

ended_lem_example :
    (to_end.last.loop.completed_cycles ≡ cycle_count)
    × (to_end.last.lifecycle.worker ≡ Worker.ended)
    × (to_end.last.service.place ≡ Place.no_thread)
    × (to_end.read ≡ Robot.state to_end.last.loop.robot)
    × (elapsed : ℤ) × (to_end.out
        ≡ output to_end.last.loop to_end.read (max_wake_lateness to_end.last.scheduler) elapsed)
    × IsReport cycle_count (
        print_timing_statistics
          (max_wake_lateness to_end.last.scheduler)
          to_end.last.loop.statistics)
ended_lem_example =
    ended_lem to_end.read to_end.out (Reach-Runs program-Reach to_end.runs) to_end.ended

Reach-Aims_example :
    Aims to_end.last.loop.robot default_command ⊎ Aims to_end.last.loop.robot outgoing_command
Reach-Aims_example = Reach-Aims Fixed-IsExact (Reach-Runs program-Reach to_end.runs)

-- The first cycle, after its wait.
abbrev in_cycle : Program Fixed
in_cycle = record program {
  service = Thread.start program.service;
  lifecycle = work (run cycle_count program.lifecycle);
  stage = Stage.polling;
  scheduler = ControlScheduler.portable (advance_schedule (new_scheduler 1 (pos 7_000)));
  scheduled = some (pos 7_000);
}

in_cycle-Reach : Reach Platform.other boot in_cycle
unfolding new_program Thread.start run work wait_for_next_cycle Portable.wait_for_next_cycle
    new_scheduler
in_cycle-Reach =
    later (later (later (later program-Reach (open_can refl)) (launch refl)) (head 2_500 refl)) (
      wait 2_499
        (record {
          eintr = 4;
          clock_nanosleep = λ _. [];
          calls = record {
            now = pos 0;
            set_timer = λ _. false;
            signalled = false;
            wake_time = pos 0;
            readings = [];
          };
        })
        (ControlScheduler.portable (advance_schedule (new_scheduler 1 (pos 7_000)))) (pos 7_000)
        refl refl refl)

Reach-scheduled_example : pos 7_000 ≡ pos 7_000 +ℤ pos (in_cycle.loop.completed_cycles * 1_000_000)
Reach-scheduled_example = Reach-scheduled (pos 7_000) in_cycle-Reach refl

abbrev reached_end : Reach Platform.other boot to_end.last
reached_end = Reach-Runs program-Reach to_end.runs

Reach-IsSequential_example :
    IsSequential boot
      (cycles_of reached_end)
      (reads_of reached_end)
      to_end.last.taken
      to_end.last.loop
Reach-IsSequential_example = Reach-IsSequential reached_end

-- A state that is the position in the first cycle and the velocity at the end.
mixed-Reports_example :
    let s : JointState Fixed = record {
      position = (first_state (Robot.state in_cycle.loop.robot)).position;
      velocity = (first_state (Robot.state to_end.last.loop.robot)).velocity;
    } in
    (after : SimulatedCan) × (transmit_state in_cycle.communication.can (some s) ≡ some after)
    × Reports s in_cycle.communication.can after
mixed-Reports_example =
    mixed-Reports Fixed-IsOrdered Fixed-IsTruncating Fixed-IsRounding in_cycle.communication.can
      in_cycle-Reach reached_end

ended_totals_example :
    let cycles = cycles_of reached_end in
    (length cycles ≡ cycle_count)
    × (map (λ i. i.scheduled_start) cycles ≡ timeline (pos 7_000) cycle_count)
    × (elapsed : ℤ) × (to_end.out
        ≡ output to_end.last.loop to_end.read (max_wake_lateness to_end.last.scheduler) elapsed)
    × Prints every_millisecond cycles (
        print_timing_statistics
          (max_wake_lateness to_end.last.scheduler)
          to_end.last.loop.statistics)
ended_totals_example = ended_totals to_end.read to_end.out reached_end to_end.ended

Reach-IsNumeric_example :
    All IsNumeric to_end.last.loop.robot.joints × IsValid to_end.last.loop.robot
Reach-IsNumeric_example =
    Reach-IsNumeric Fixed-IsOrdered Fixed-IsRounding (Reach-Runs program-Reach to_end.runs)

Reach-Fits_example :
    let n = to_end.last.loop.completed_cycles in
    All (λ (k : ℕ). k < 2 ^ 31) (n ∷ counters to_end.last.loop.statistics)
    × (to_end.last.loop.state_snapshot.sequence ≡ 2 * n)
    × (to_end.last.loop.can_state.sequence ≡ 2 * n)
Reach-Fits_example = Reach-Fits (Reach-Runs program-Reach to_end.runs)

begin-Ends_example :
    (p : Program Fixed) × (begin Platform.other boot ≡ some p)
    × (p.communication.can ≡ Command.frame_of (pos 9_000) ∷ [])
    × Ends p
unfolding create_control_scheduler
begin-Ends_example =
    begin-Ends Fixed-IsExact Fixed-IsOrdered Fixed-IsTruncating Fixed-IsRounding Platform.other boot
      (ControlScheduler.portable (new_scheduler 1 (pos 7_000))) refl

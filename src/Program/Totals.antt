-- ===== src/Program/Totals.antt =====
-- The numbers that the program prints of its cycles.
use robot_controller.Prelude.{
  ◌≤◌, ◌≡◌, ◌∙◌, ap, false, ◌&&◌, not, some, List, length, map, ltb, ℤ, arith,
}
use robot_controller.Double.{Double}
use robot_controller.Types.{RobotState}
use robot_controller.Scheduler.Platform.{Platform, Boot, max_wake_lateness}
use robot_controller.ControlLoop.Statistics.{Statistics, Timing}
use robot_controller.ControlLoop.Cycle.{Inputs}
use robot_controller.ControlLoop.Tally.{
  under_100us, up_to_1ms, up_to_5ms, up_to_10ms, over_10ms, behind_schedule, far, delay, missed,
  started_late, overran,
}
use robot_controller.ControlLoop.Tally.Sums.{count, longest, changes, known_processors}
use robot_controller.ControlLoop.Tally.Totals.{IsTotal}
use robot_controller.Report.{Token, print_timing_statistics}
use robot_controller.Report.Counters.{Shows}
use robot_controller.Program.{Program, Stage, Reach, cycle_count, output}
use robot_controller.Program.Run
use robot_controller.Program.Run.{ended_lem}
use robot_controller.Program.Trace.{cycles_of}
use robot_controller.Program.Sequential.{
  timeline, every_millisecond, Reach-IsSequential, Reach-IsTotal,
}

module _ {W : Type 0} ⦃d : Double W⦄ (scheduler : Timing W) where
  -- An output that has each counter after its label, as the count over some cycles.
  pub record Prints (cycles : List (Inputs W)) (out : List (Token W)) : Type 0 where
    pub delayed : Shows out "Delayed cycles: " (count (behind_schedule scheduler) cycles)
    pub in_a_row :
        Shows out "Maximum consecutive delayed cycles: "
          (longest (behind_schedule scheduler) cycles)
    pub backlog :
        Shows out "Cycles with >= 1 ms backlog: "
          (count (λ i. behind_schedule scheduler i && far scheduler i) cycles)
    pub misses : Shows out "Deadline misses: " (count (missed scheduler) cycles)
    pub combined :
        Shows out "Combined misses: " (
          count (λ i. missed scheduler i && started_late scheduler i && overran scheduler i) cycles)
    pub scheduling : Shows out "Scheduling misses: " (
        count
          (λ i. missed scheduler i && started_late scheduler i && not (overran scheduler i))
          cycles)
    pub execution :
        Shows out "Execution misses: "
          (count (λ i. missed scheduler i && not (started_late scheduler i)) cycles)
    pub under :
        Shows out "Scheduling delay < 0.1 ms: "
          (count (λ i. under_100us (delay scheduler i)) cycles)
    pub to_1ms :
        Shows out "Scheduling delay 0.1-1 ms: " (count (λ i. up_to_1ms (delay scheduler i)) cycles)
    pub to_5ms :
        Shows out "Scheduling delay 1-5 ms: " (count (λ i. up_to_5ms (delay scheduler i)) cycles)
    pub to_10ms :
        Shows out "Scheduling delay 5-10 ms: " (count (λ i. up_to_10ms (delay scheduler i)) cycles)
    pub over :
        Shows out "Scheduling delay >= 10 ms: " (count (λ i. over_10ms (delay scheduler i)) cycles)
    pub processors : Shows out "Processor changes: " (changes (known_processors cycles))

  total-Prints :
      (cycles : List (Inputs W)) (lateness : W) (s : Statistics W)
      → 2 ≤ s.measured_cycles
      → IsTotal scheduler cycles s
      → Prints cycles (print_timing_statistics lateness s)
  unfolding print_timing_statistics
  total-Prints cycles lateness s enough t =
      let printed : ltb s.measured_cycles 2 ≡ false = ground arith in
      record {
        delayed = rw printed (ap some t.delayed);
        in_a_row = rw printed (ap some t.in_a_row);
        backlog = rw printed (ap some t.backlog);
        misses = rw printed (ap some t.misses);
        combined = rw printed (ap some t.combined);
        scheduling = rw printed (ap some t.scheduling);
        execution = rw printed (ap some t.execution);
        under = rw printed (ap some t.under);
        to_1ms = rw printed (ap some t.to_1ms);
        to_5ms = rw printed (ap some t.to_5ms);
        to_10ms = rw printed (ap some t.to_10ms);
        over = rw printed (ap some t.over);
        processors = rw printed (ap some t.processors);
      }

module _ {W : Type 0} ⦃d : Double W⦄ where
  -- On every platform and in every interleaving: when `main` has returned, the cycles that the control
  -- thread has completed are as many as `main` asked for and were scheduled a millisecond apart, the
  -- first for the time at which the scheduler was made, and the output has the report of the timing in
  -- it, in which each label of a counter is followed by what it says of just these cycles: "delayed" are
  -- those that started a millisecond or more after their scheduled time, in all and in a row, and of
  -- those, the ones with a backlog of a millisecond or more; a cycle that starts later than scheduled by
  -- less is not among them; how many missed their deadline, for each of the three reasons and in all;
  -- how many started with each class of delay; and how often two known processors that follow one
  -- another differ.
  pub ended_totals :
      {platform : Platform} {b : Boot} {p : Program W} (read : RobotState W) (out : List (Token W))
      (reached : Reach platform b p)
      → p.stage ≡ Stage.ended read out
      → let cycles = cycles_of reached in
        (length cycles ≡ cycle_count)
        × (map (λ i. i.scheduled_start) cycles ≡ timeline b.base_now cycle_count)
        × (elapsed : ℤ) × (out ≡ output p.loop read (max_wake_lateness p.scheduler) elapsed)
        × Prints every_millisecond cycles
            (print_timing_statistics (max_wake_lateness p.scheduler) p.loop.statistics)
  ended_totals {b} {p} read out reached e =
      let run = Reach-IsSequential reached in
      let (all, over, gone, shown, elapsed, printed, report) = ended_lem read out reached e in
      let measured = (Run.Reach-Inv reached).sound.measured ∙ all in
      (
        run.many ∙ all,
        run.in_time ∙ ap (timeline b.base_now) all,
        elapsed,
        printed,
        total-Prints every_millisecond (cycles_of reached) _ p.loop.statistics
            (rw measured (omega arith)) (Reach-IsTotal reached),
      )

-- ===== src/Tests/Aborts.antt =====
-- A program that aborts in its first cycle.
use mathlib.Core.Option
use robot_controller.Prelude.{
  ℕ, ◌≡◌, ◌≢◌, ◌<◌, refl, false, none, some, List, [], ◌∷◌, ℤ, pos, negsuc, ◌+ℤ◌, ◌*ℤ◌, ◌≤ℤ◌, ◌<ℤ◌,
  ◌-ℤ◌, quot, rem, ltb, if◌then◌else◌, arith,
}
use robot_controller.Double.Fixed.{Fixed, fixed_double}
use robot_controller.Codec.Command
use robot_controller.Word.{int32_of_double}
use robot_controller.Communication.Thread
use robot_controller.Robot.Reach as Robots
use robot_controller.ControlLoop.Lifecycle.{run, work}
use robot_controller.Scheduler.Linux
use robot_controller.Scheduler.Linux.{TimeSpec, new_linux_scheduler}
use robot_controller.Scheduler.Portable.{new_scheduler}
use robot_controller.Scheduler.Setup.{construct_linux}
use robot_controller.Scheduler.Platform.{
  Platform, Boot, ControlScheduler, WaitCalls, create_control_scheduler, wait_for_next_cycle,
}
use robot_controller.Program
use robot_controller.Program.{
  Program, Stage, Reach, Aborts, throw, start, later, open_can, launch, head, new_program,
  cycle_count,
}
use robot_controller.Program.Abort.{Aborts_lem, first_cycle_Aborts}

-- A `clock_nanosleep` that refuses negative nanoseconds, and seconds' worth of them, with EINVAL, 22.
abbrev answer : ℤ → List ℕ
answer (negsuc n) = 22 ∷ []
answer (pos n) = if ltb n 1_000_000_000 then 0 ∷ [] else 22 ∷ []

abbrev nanosleep : TimeSpec → List ℕ
nanosleep t = answer t.nanoseconds

answer_refuses : (n : ℤ) → ¬ ((pos 0 ≤ℤ n) × (n <ℤ pos 1_000_000_000)) → answer n ≡ 22 ∷ []
answer_refuses (negsuc n) h = refl
answer_refuses (pos n) h = ground arith

abbrev refusing_calls : WaitCalls
refusing_calls = record {
  eintr = 4;
  clock_nanosleep = nanosleep;
  calls = record {
    now = pos 0;
    set_timer = λ _. false;
    signalled = false;
    wake_time = pos 0;
    readings = [];
  };
}

-- On Linux: the second reading of the clock is 250 ns after the first, and CLOCK_MONOTONIC then stands
-- 249 ns into a second.
abbrev linux_boot : Boot
linux_boot = record {
  base_now = pos 7_000;
  now = pos 7_250;
  linux_now = some (record { seconds = pos 12; nanoseconds = pos 249 });
  timer = none;
}

abbrev on_linux : Program Fixed
on_linux =
    new_program
      (ControlScheduler.on_linux (
        new_linux_scheduler 1 (pos 7_000) (pos 7_250)
          (record { seconds = pos 12; nanoseconds = pos 249 })))
      (Command.frame_of (pos 9_000))

abbrev waiting : Program Fixed
waiting = record on_linux {
  service = Thread.start on_linux.service;
  lifecycle = work (run cycle_count on_linux.lifecycle);
  stage = Stage.polling;
}

waiting-Reach : Reach Platform.linux linux_boot waiting
unfolding create_control_scheduler construct_linux Option.bind Program.begin Command.encode
    int32_of_double ◌*ℤ◌ quot new_program Thread.start run work
waiting-Reach = later (later (later (start refl) (open_can refl)) (launch refl)) (head 2_500 refl)

first_cycle_Aborts_example : Aborts waiting
unfolding new_program run work ◌+ℤ◌
first_cycle_Aborts_example =
    first_cycle_Aborts 2_499 22 249 (record { seconds = pos 12; nanoseconds = pos 249 })
      refusing_calls (λ e. absurd (omega (arith, e))) (λ e. absurd (omega (arith, e)))
      (λ t. answer_refuses t.nanoseconds) (omega arith, omega arith) (omega arith) (omega arith)
      refl refl waiting-Reach refl refl refl

-- The same by computation.
waiting-Aborts : Aborts waiting
unfolding new_program run work wait_for_next_cycle Linux.wait_for_next_cycle Linux.sleep
    Linux.wake_target Linux.add_duration ◌+ℤ◌ new_linux_scheduler rem ◌-ℤ◌ new_scheduler
waiting-Aborts = throw 2_499 refusing_calls refl refl refl

Aborts_lem_example :
    (waiting.stage ≡ Stage.polling)
    × (waiting.loop.completed_cycles < cycle_count)
    × Robots.Reach waiting.loop.robot
    × (Platform.linux ≢ Platform.other)
Aborts_lem_example = Aborts_lem waiting-Reach waiting-Aborts

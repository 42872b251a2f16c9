-- ===== src/Scheduler/Linux.antt =====
-- src/scheduler/LinuxControlScheduler.cpp: absolute sleeps on CLOCK_MONOTONIC.
use robot_controller.Prelude.{
  ℕ, List, [], ◌∷◌, ℤ, pos, ◌+ℤ◌, ◌-ℤ◌, leb_ℤ, quot, rem, ◌==◌, if◌then◌else◌,
}
use robot_controller.Double.{Double}
use robot_controller.Types.{nought}
use robot_controller.Scheduler.Portable.{
  PortableControlScheduler, scheduled_cycle, advance_schedule, new_scheduler,
}

-- `timespec`
pub record TimeSpec : Type 0 where
  pub seconds : ℤ
  pub nanoseconds : ℤ

pub record LinuxControlScheduler : Type 0 where
  pub base : PortableControlScheduler
  pub linux_start_time : TimeSpec
  pub chrono_start_time : ℤ

-- The constructor. The base class reads the clock first, for its first cycle; then this class reads
-- it again, and then CLOCK_MONOTONIC.
unfoldable pub new_linux_scheduler : ℕ → ℤ → ℤ → TimeSpec → LinuxControlScheduler
new_linux_scheduler period base_now now linux_now = record {
  base = new_scheduler period base_now;
  linux_start_time = linux_now;
  chrono_start_time = now;
}

abbrev pub second : ℕ
second = 1_000_000_000

-- `/` and `%` truncate toward zero.
unfoldable pub add_duration : TimeSpec → ℤ → TimeSpec
add_duration time total =
    let seconds = time.seconds +ℤ quot total second in
    let nanoseconds = time.nanoseconds +ℤ rem total second in
    if leb_ℤ (pos second) nanoseconds
    then record { seconds = seconds +ℤ pos 1; nanoseconds = nanoseconds -ℤ pos second }
    else record { seconds = seconds; nanoseconds = nanoseconds }

-- How the sleep ends, from the results of `clock_nanosleep`. Where they run out the thread is still
-- asleep.
pub data Sleep : Type 0 where
  asleep : Sleep
  woken : Sleep
  failed : Sleep  -- std::runtime_error

-- The loop, with the value of EINTR.
unfoldable pub sleep : ℕ → List ℕ → Sleep
sleep eintr [] = Sleep.asleep
sleep eintr (result ∷ results) =
    let again = sleep eintr results in
    if result == 0 then Sleep.woken else if result == eintr then again else Sleep.failed

-- The time at which `waitForNextCycle` asks to be woken.
unfoldable pub wake_target : LinuxControlScheduler → TimeSpec
wake_target s = add_duration s.linux_start_time (scheduled_cycle s.base -ℤ s.chrono_start_time)

pub data Wait : Type 0 where
  waiting : Wait
  returned : LinuxControlScheduler → ℤ → Wait
  thrown : LinuxControlScheduler → Wait

-- What follows the loop.
abbrev pub wake : LinuxControlScheduler → Sleep → Wait
wake s Sleep.asleep = Wait.waiting
wake s Sleep.failed = Wait.thrown s
wake s Sleep.woken =
    Wait.returned (record s { base = advance_schedule s.base }) (scheduled_cycle s.base)

-- `clock_nanosleep` is given the target, and gives its results.
unfoldable pub wait_for_next_cycle : ℕ → (TimeSpec → List ℕ) → LinuxControlScheduler → Wait
wait_for_next_cycle eintr clock_nanosleep s = wake s (sleep eintr (clock_nanosleep (wake_target s)))

abbrev pub max_wake_lateness : {W : Type 0} ⦃d : Double W⦄ → LinuxControlScheduler → W
max_wake_lateness s = nought

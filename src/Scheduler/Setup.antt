-- ===== src/Scheduler/Setup.antt =====
-- What the Linux and the Windows scheduler do besides waiting: construction, which may fail,
-- destruction, and the setup of the control thread. The results of the system's calls are arguments.
use robot_controller.Prelude.{
  ℕ, Bool, Option, none, some, List, [], ◌∷◌, ℤ, ◌==◌, not, if◌then◌else◌,
}
use robot_controller.Double.{Double}
use robot_controller.Types.{nought}
use robot_controller.Scheduler.Portable.{new_scheduler}
use robot_controller.Scheduler.Linux.{TimeSpec, LinuxControlScheduler, new_linux_scheduler}
use robot_controller.Scheduler.Windows.{WindowsControlScheduler}

-- The constructor of the Linux scheduler, from what `clock_gettime` gives; `none` is a
-- `std::runtime_error`.
unfoldable pub construct_linux : ℕ → ℤ → ℤ → Option TimeSpec → Option LinuxControlScheduler
construct_linux period base_now now none = none
construct_linux period base_now now (some linux_now) =
    some (new_linux_scheduler period base_now now linux_now)

-- The constructor of the Windows scheduler, from what `CreateWaitableTimer` gives.
unfoldable pub construct_windows :
    {W : Type 0} ⦃d : Double W⦄ → ℕ → ℤ → Option ℕ → Option (WindowsControlScheduler W)
construct_windows period now none = none
construct_windows period now (some timer) =
    some (record { base = new_scheduler period now; timer = timer; max_wake_lateness = nought })

-- What the scheduler asks of the system, and the messages on `stderr` with their error numbers.
pub data Event : Type 0 where
  pin_cpu : ℕ → Event  -- sched_setaffinity, to this CPU alone
  fifo_priority : ℕ → Event  -- pthread_setschedparam with SCHED_FIFO
  affinity_mask : ℕ → Event  -- SetThreadAffinityMask
  close_handle : ℕ → Event  -- CloseHandle
  affinity_failed : ℕ → Event
  fifo_failed : ℕ → Event

-- The destructor of the Windows scheduler.
unfoldable pub destroy_windows : {W : Type 0} → WindowsControlScheduler W → List Event
destroy_windows s = close_handle s.timer ∷ []

abbrev pub control_cpu : ℕ
control_cpu = 0

abbrev pub real_time_priority : ℕ
real_time_priority = 50

abbrev pub control_affinity_mask : ℕ
control_affinity_mask = 1

-- What the two calls give, and `errno` after the first one.
pub record Outcomes : Type 0 where
  pub affinity_set : Bool  -- `sched_setaffinity` gave 0
  pub errno : ℕ
  pub set_priority : ℕ

unfoldable pub configure_realtime_scheduling : Outcomes → List Event
configure_realtime_scheduling o =
    let result = o.set_priority in
    if not o.affinity_set
    then pin_cpu control_cpu ∷ affinity_failed o.errno ∷ []
    else if not (result == 0)
    then pin_cpu control_cpu ∷ fifo_priority real_time_priority ∷ fifo_failed result ∷ []
    else pin_cpu control_cpu ∷ fifo_priority real_time_priority ∷ []

-- ===== src/Scheduler/Platform.antt =====
-- src/scheduler/ControlSchedulerFactory.cpp and IControlScheduler.hpp: the three schedulers behind one
-- interface. A value of the data type is the object that the interface refers to.
pub mod Schedule
pub mod Kind
use robot_controller.Prelude.{ℕ, Bool, Option, none, some, List, [], ◌∷◌, ℤ}
use mathlib.Core.Option
use robot_controller.Double.{Double}
use robot_controller.Scheduler.Portable
use robot_controller.Scheduler.Portable.{PortableControlScheduler, new_scheduler}
use robot_controller.Scheduler.Linux
use robot_controller.Scheduler.Linux.{TimeSpec, LinuxControlScheduler}
use robot_controller.Scheduler.Windows
use robot_controller.Scheduler.Windows.{WindowsControlScheduler, Calls}
use robot_controller.Scheduler.Setup.{
  construct_linux, construct_windows, destroy_windows, Event, affinity_mask, control_affinity_mask,
  Outcomes, configure_realtime_scheduling,
}

-- `_WIN32`, `__linux__`, or neither of them.
pub data Platform : Type 0 where
  windows linux other : Platform

-- `IControlScheduler`
pub data ControlScheduler (W : Type 0) : Type 0 where
  portable : PortableControlScheduler → ControlScheduler W
  on_linux : LinuxControlScheduler → ControlScheduler W
  on_windows : WindowsControlScheduler W → ControlScheduler W

-- What the system gives the constructors: the clock's readings by the base class and by the Linux
-- scheduler, CLOCK_MONOTONIC and the Windows timer.
pub record Boot : Type 0 where
  pub base_now : ℤ
  pub now : ℤ
  pub linux_now : Option TimeSpec
  pub timer : Option ℕ

-- What the system gives one wait: EINTR and `clock_nanosleep`, or the Windows calls.
pub record WaitCalls : Type 0 where
  pub eintr : ℕ
  pub clock_nanosleep : TimeSpec → List ℕ
  pub calls : Calls

pub data Wait (W : Type 0) : Type 0 where
  waiting : Wait W
  returned : ControlScheduler W → ℤ → Wait W
  thrown : Wait W

module _ {W : Type 0} where
  -- The part that all three inherit.
  abbrev pub base : ControlScheduler W → PortableControlScheduler
  base (ControlScheduler.portable s) = s
  base (ControlScheduler.on_linux s) = s.base
  base (ControlScheduler.on_windows s) = s.base

  unfoldable pub reset : ControlScheduler W → ℤ → ControlScheduler W
  reset (ControlScheduler.portable s) now = ControlScheduler.portable (Portable.reset s now)
  reset (ControlScheduler.on_linux s) now =
      ControlScheduler.on_linux (record s { base = Portable.reset s.base now })
  reset (ControlScheduler.on_windows s) now =
      ControlScheduler.on_windows (record s { base = Portable.reset s.base now })

  -- `reported` is what the system says.
  abbrev pub current_processor : ControlScheduler W → ℤ → ℤ
  current_processor (ControlScheduler.portable s) reported = Portable.current_processor s
  current_processor _ reported = reported

  unfoldable pub on_control_thread_start : ControlScheduler W → Outcomes → List Event
  on_control_thread_start (ControlScheduler.portable s) o = []
  on_control_thread_start (ControlScheduler.on_linux s) o = configure_realtime_scheduling o
  on_control_thread_start (ControlScheduler.on_windows s) o =
      affinity_mask control_affinity_mask ∷ []

  -- The destructor, of which only the Windows scheduler has one of its own.
  unfoldable pub destroy_scheduler : ControlScheduler W → List Event
  destroy_scheduler (ControlScheduler.on_windows s) = destroy_windows s
  destroy_scheduler _ = []

module _ {W : Type 0} ⦃d : Double W⦄ where
  -- `createControlScheduler`; `none` is a `std::runtime_error`.
  unfoldable pub create_control_scheduler : Platform → Boot → ℕ → Option (ControlScheduler W)
  create_control_scheduler Platform.windows b period =
      Option.map ControlScheduler.on_windows (construct_windows period b.base_now b.timer)
  create_control_scheduler Platform.linux b period =
      Option.map ControlScheduler.on_linux (construct_linux period b.base_now b.now b.linux_now)
  create_control_scheduler Platform.other b period =
      some (ControlScheduler.portable (new_scheduler period b.base_now))

  abbrev pub max_wake_lateness : ControlScheduler W → W
  max_wake_lateness (ControlScheduler.portable s) = Portable.max_wake_lateness s
  max_wake_lateness (ControlScheduler.on_linux s) = Linux.max_wake_lateness s
  max_wake_lateness (ControlScheduler.on_windows s) = s.max_wake_lateness

  abbrev from_linux : Linux.Wait → Wait W
  from_linux Linux.Wait.waiting = Wait.waiting
  from_linux (Linux.Wait.returned s start) = Wait.returned (ControlScheduler.on_linux s) start
  from_linux (Linux.Wait.thrown s) = Wait.thrown

  abbrev from_windows : Windows.Wait W → Wait W
  from_windows Windows.Wait.waiting = Wait.waiting
  from_windows (Windows.Wait.returned s start) = Wait.returned (ControlScheduler.on_windows s) start
  from_windows Windows.Wait.thrown = Wait.thrown

  abbrev from_portable : PortableControlScheduler × ℤ → Wait W
  from_portable (s, start) = Wait.returned (ControlScheduler.portable s) start

  unfoldable pub wait_for_next_cycle : WaitCalls → ControlScheduler W → Wait W
  wait_for_next_cycle w (ControlScheduler.portable s) =
      from_portable (Portable.wait_for_next_cycle s)
  wait_for_next_cycle w (ControlScheduler.on_linux s) =
      from_linux (Linux.wait_for_next_cycle w.eintr w.clock_nanosleep s)
  wait_for_next_cycle w (ControlScheduler.on_windows s) =
      from_windows (Windows.wait_for_next_cycle w.calls s)

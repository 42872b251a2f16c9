-- ===== src/Scheduler/Windows.antt =====
-- src/scheduler/WindowsControlScheduler.cpp: a waitable timer, then a spin of the last 100 µs.
use robot_controller.Prelude.{
  ℕ, Bool, true, false, not, List, [], ◌∷◌, ℤ, pos, ◌-ℤ◌, ltb_ℤ, quot, if◌then◌else◌,
}
use robot_controller.Double.{Double}
use robot_controller.Scheduler.Portable.{
  PortableControlScheduler, scheduled_cycle, advance_schedule, milliseconds,
}

pub record WindowsControlScheduler (W : Type 0) : Type 0 where
  pub base : PortableControlScheduler
  -- the handle of the waitable timer
  pub timer : ℕ
  pub max_wake_lateness : W

-- What the system's calls give during one wait.
pub record Calls : Type 0 where
  pub now : ℤ
  -- SetWaitableTimer, of the due time in units of 100 ns
  pub set_timer : ℤ → Bool
  -- WaitForSingleObject gave WAIT_OBJECT_0
  pub signalled : Bool
  pub wake_time : ℤ
  -- the clock's readings in the spin
  pub readings : List ℤ

abbrev pub spin_window : ℤ
spin_window = pos 100_000

unfoldable pub to_windows_100ns : ℤ → ℤ
to_windows_100ns duration = quot duration 100

-- `while (Clock::now() < scheduled_start)`: whether one of the readings ends it.
unfoldable pub spin : ℤ → List ℤ → Bool
spin scheduled_start [] = false
spin scheduled_start (now ∷ readings) =
    let again = spin scheduled_start readings in if ltb_ℤ now scheduled_start then again else true

pub data Wait (W : Type 0) : Type 0 where
  waiting : Wait W
  returned : WindowsControlScheduler W → ℤ → Wait W
  thrown : Wait W

module _ {W : Type 0} ⦃d : Double W⦄ where
  -- The update of the greatest lateness.
  abbrev pub woken : WindowsControlScheduler W → ℤ → WindowsControlScheduler W
  woken s wake_time =
      let wake_lateness_ms = milliseconds (wake_time -ℤ scheduled_cycle s.base) in
      if d.lt s.max_wake_lateness wake_lateness_ms
      then record s { max_wake_lateness = wake_lateness_ms }
      else s

  -- The end of `waitForNextCycle`, in which the spin is only where the cycle is still to come.
  abbrev pub finish : WindowsControlScheduler W → Bool → Wait W
  finish s ended =
      if ended
      then Wait.returned (record s { base = advance_schedule s.base }) (scheduled_cycle s.base)
      else Wait.waiting

  unfoldable pub wait_for_next_cycle : Calls → WindowsControlScheduler W → Wait W
  wait_for_next_cycle c s =
      let scheduled_start = scheduled_cycle s.base in
      let remaining = scheduled_start -ℤ c.now in
      let ended = spin scheduled_start c.readings in
      if ltb_ℤ c.now scheduled_start
      then (if ltb_ℤ spin_window remaining
          then if not (c.set_timer (pos 0 -ℤ to_windows_100ns (remaining -ℤ spin_window)))
            then Wait.thrown
            else if not c.signalled
            then Wait.thrown
            else finish (woken s c.wake_time) ended
          else finish s ended)
      else finish s true

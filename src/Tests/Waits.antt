-- ===== src/Tests/Waits.antt =====
-- The schedulers at concrete times.
use robot_controller.Prelude.{
  ℕ, ◌≡◌, refl, true, false, [], ◌∷◌, pos, ◌+ℤ◌, ◌*ℤ◌, ◌-ℤ◌, arith, quot,
}
use robot_controller.Double.Fixed.{Fixed, fin, fixed_double, Fixed-IsOrdered}
use robot_controller.Scheduler.Portable.{new_scheduler, scheduled_cycle, advance_schedule}
use robot_controller.Scheduler.Linux
use robot_controller.Scheduler.Linux.{TimeSpec, new_linux_scheduler, add_duration}
use robot_controller.Scheduler.Windows
use robot_controller.Scheduler.Windows.{WindowsControlScheduler, Calls}
use robot_controller.Scheduler.Sleep.{wait-interrupted}
use robot_controller.Scheduler.Spin.{Reached, returned-Reached}

abbrev time : ℕ → ℕ → TimeSpec
time s n = record { seconds = pos s; nanoseconds = pos n }

abbrev windows : WindowsControlScheduler Fixed
windows = record {
  base = new_scheduler 1 (pos 500_000);
  timer = 7;
  max_wake_lateness = fin (pos 0);
}

-- The timer is 10 µs late for its early waking, and the second reading of the clock ends the spin.
abbrev calls : Calls
calls = record {
  now = pos 0;
  set_timer = λ _. true;
  signalled = true;
  wake_time = pos 410_000;
  readings = pos 410_100 ∷ pos 500_001 ∷ [];
}

abbrev windows' : WindowsControlScheduler Fixed
windows' = record windows { base = advance_schedule windows.base }

returned-Reached_example :
    (pos 500_000 ≡ scheduled_cycle windows.base)
    × (windows'.base ≡ advance_schedule windows.base)
    × (windows'.timer ≡ windows.timer)
    × (fixed_double.lt windows'.max_wake_lateness windows.max_wake_lateness ≡ false)
    × Reached (scheduled_cycle windows.base) (calls.now ∷ calls.readings)
unfolding Windows.wait_for_next_cycle Windows.spin new_scheduler quot ◌-ℤ◌ ◌+ℤ◌ ◌*ℤ◌
returned-Reached_example =
    returned-Reached Fixed-IsOrdered calls windows windows' (pos 500_000) refl

-- Two signals, with EINTR, 4, and then the end of the sleep.
wait-interrupted_example :
    let s = new_linux_scheduler 1 (pos 7_000) (pos 7_250) (time 12 400) in
    Linux.wait_for_next_cycle 4 (λ _. 4 ∷ 4 ∷ 0 ∷ []) s
    ≡ Linux.Wait.returned (record s { base = advance_schedule s.base }) (scheduled_cycle s.base)
wait-interrupted_example =
    wait-interrupted 4 2 (λ _. 4 ∷ 4 ∷ 0 ∷ [])
      (new_linux_scheduler 1 (pos 7_000) (pos 7_250) (time 12 400)) (λ e. absurd (omega (arith, e)))
      refl

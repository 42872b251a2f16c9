-- ===== src/Scheduler/Portable.antt =====
-- src/scheduler/PortableControlScheduler.cpp, behind IControlScheduler.hpp.
use robot_controller.Prelude.{ℕ, ◌*◌, Bool, not, ℤ, pos, negsuc, ◌+ℤ◌, ◌-ℤ◌, leb_ℤ, if◌then◌else◌}
use robot_controller.Double.{Double}
use robot_controller.Types.{nought}

pub record PortableControlScheduler : Type 0 where
  pub period : ℤ
  pub next_cycle : ℤ

-- The constructor, from a period in milliseconds and the clock's reading.
unfoldable pub new_scheduler : ℕ → ℤ → PortableControlScheduler
new_scheduler period now = record { period = pos (period * 1_000_000); next_cycle = now }

unfoldable pub reset : PortableControlScheduler → ℤ → PortableControlScheduler
reset s now = record s { next_cycle = now }

abbrev pub current_processor : PortableControlScheduler → ℤ
current_processor s = negsuc 0

abbrev pub scheduled_cycle : PortableControlScheduler → ℤ
scheduled_cycle s = s.next_cycle

unfoldable pub advance_schedule : PortableControlScheduler → PortableControlScheduler
advance_schedule s = record s { next_cycle = s.next_cycle +ℤ s.period }

-- The sleep before it has no effect on the schedule.
unfoldable pub wait_for_next_cycle : PortableControlScheduler → PortableControlScheduler × ℤ
wait_for_next_cycle s =
    let scheduled_start = scheduled_cycle s in (advance_schedule s, scheduled_start)

unfoldable pub has_backlog : PortableControlScheduler → ℤ → ℤ → Bool
has_backlog s actual_start scheduled_start = leb_ℤ (scheduled_start +ℤ s.period) actual_start

module _ {W : Type 0} ⦃d : Double W⦄ where
  -- `std::chrono::duration<double, std::milli>` of a number of nanoseconds.
  abbrev pub milliseconds : ℤ → W
  milliseconds n = d.div (d.of_int n) (d.decimal 1_000_000 0)

  abbrev pub max_wake_lateness : PortableControlScheduler → W
  max_wake_lateness s = nought

  unfoldable pub scheduling_delay : PortableControlScheduler → ℤ → ℤ → W
  scheduling_delay s actual_start scheduled_start = milliseconds (actual_start -ℤ scheduled_start)

  unfoldable pub backlog : PortableControlScheduler → ℤ → ℤ → W
  backlog s actual_start scheduled_start =
      if not (has_backlog s actual_start scheduled_start)
      then nought
      else milliseconds (actual_start -ℤ scheduled_start -ℤ s.period)

-- ===== src/Scheduler/Timeline.antt =====
-- The times for which the portable scheduler schedules its cycles.
use robot_controller.Prelude.{ℕ, zero, suc, ◌*◌, ◌≡◌, ap, ℤ, pos, ◌+ℤ◌, int_laws}
use robot_controller.Scheduler.Portable.{
  PortableControlScheduler, new_scheduler, advance_schedule, wait_for_next_cycle,
}

-- The schedule after some waits.
unfoldable pub after : ℕ → PortableControlScheduler → PortableControlScheduler
after zero s = s
after (suc n) s = (wait_for_next_cycle (after n s)).0

-- The record with this cycle.
abbrev at_cycle : ℕ → ℤ → PortableControlScheduler
at_cycle period next = record { period = pos (period * 1_000_000); next_cycle = next }

after-eq :
    (n period : ℕ) (now : ℤ)
    → after n (new_scheduler period now) ≡ at_cycle period (now +ℤ pos (n * (period * 1_000_000)))
unfolding after wait_for_next_cycle advance_schedule new_scheduler
after-eq zero period now = ap (at_cycle period) (omega int_laws)
after-eq (suc n) period now = rw (after-eq n period now) (ap (at_cycle period) (omega int_laws))

-- The n-th cycle is scheduled n periods after the start, however late the earlier cycles were.
pub scheduled-after :
    (n period : ℕ) (now : ℤ)
    → (wait_for_next_cycle (after n (new_scheduler period now))).1
      ≡ now +ℤ pos (n * (period * 1_000_000))
unfolding wait_for_next_cycle
scheduled-after n period now = ap (λ s. s.next_cycle) (after-eq n period now)

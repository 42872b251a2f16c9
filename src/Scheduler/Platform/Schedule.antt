-- ===== src/Scheduler/Platform/Schedule.antt =====
-- The times for which the three schedulers schedule their cycles.

use robot_controller.Prelude.{
  ℕ, zero, suc, ◌*◌, ◌≡◌, refl, ap, ◌∙◌, [], ◌∷◌, true, some, ℤ, pos, ◌+ℤ◌, arith,
}
use robot_controller.Double.{Double}
use robot_controller.Scheduler.Portable
use robot_controller.Scheduler.Portable.{
  PortableControlScheduler, new_scheduler, advance_schedule, scheduled_cycle,
}
use robot_controller.Scheduler.Linux
use robot_controller.Scheduler.Linux.{
  LinuxControlScheduler, sleep, wake, wake_target, Sleep, new_linux_scheduler,
}
use robot_controller.Scheduler.Windows
use robot_controller.Scheduler.Windows.{WindowsControlScheduler, Calls}
use robot_controller.Scheduler.Timeline.{after, scheduled-after}
use robot_controller.Scheduler.Setup.{construct_linux, construct_windows}
use robot_controller.Scheduler.Platform.{
  Platform, ControlScheduler, Boot, WaitCalls, Wait, base, create_control_scheduler,
  wait_for_next_cycle, from_linux, from_windows,
}

module _ {W : Type 0} ⦃d : Double W⦄ where
  -- Some waits one after another, all of which return.
  data Waited (s : ControlScheduler W) : ℕ → ControlScheduler W → Type 0 where
    here : Waited s zero s
    next :
        {n : ℕ} {s' s'' : ControlScheduler W} (w : WaitCalls) (start : ℤ)
        → Waited s n s'
        → wait_for_next_cycle w s' ≡ Wait.returned s'' start
        → Waited s (suc n) s''

  -- What a wait that returns does to the part that all three inherit.
  Advances : ControlScheduler W → Wait W → Type 0
  Advances s Wait.waiting = Unit
  Advances s Wait.thrown = Unit
  Advances s (Wait.returned s' start) =
      (start ≡ scheduled_cycle (base s)) × (base s' ≡ advance_schedule (base s))

  windows-Advances :
      (s : WindowsControlScheduler W) (c : Calls)
      → Advances (ControlScheduler.on_windows s) (from_windows (Windows.wait_for_next_cycle c s))
  unfolding Advances Windows.wait_for_next_cycle
  windows-Advances s c = ground arith

  -- What the system may give so that a wait returns at once: a reading of the clock that is not before
  -- the cycle, or a sleep that ends.
  abbrev pub prompt_calls : ControlScheduler W → WaitCalls
  prompt_calls s = record {
    eintr = 4;
    clock_nanosleep = λ _. 0 ∷ [];
    calls = record {
      now = scheduled_cycle (base s);
      set_timer = λ _. true;
      signalled = true;
      wake_time = scheduled_cycle (base s);
      readings = [];
    };
  }

  prompt_windows :
      (s : WindowsControlScheduler W) (c : Calls)
      → c.now ≡ scheduled_cycle s.base
      → Windows.wait_for_next_cycle c s
        ≡ Windows.Wait.returned
            (record s { base = advance_schedule s.base })
            (scheduled_cycle s.base)
  unfolding Windows.wait_for_next_cycle
  prompt_windows s c e = ground (arith, e)

  pub prompt_wait :
      (s : ControlScheduler W)
      → (s' : ControlScheduler W) × (wait_for_next_cycle (prompt_calls s) s
          ≡ Wait.returned s' (scheduled_cycle (base s)))
  unfolding wait_for_next_cycle Portable.wait_for_next_cycle Linux.wait_for_next_cycle sleep
  prompt_wait (ControlScheduler.portable s) = (_, refl)
  prompt_wait (ControlScheduler.on_linux s) = (_, refl)
  prompt_wait (ControlScheduler.on_windows s) = (_, ap from_windows (prompt_windows s _ refl))

  wait-Advances : (w : WaitCalls) (s : ControlScheduler W) → Advances s (wait_for_next_cycle w s)
  unfolding Advances wait_for_next_cycle Portable.wait_for_next_cycle Linux.wait_for_next_cycle
  wait-Advances w (ControlScheduler.portable s) = (refl, refl)
  wait-Advances w (ControlScheduler.on_linux s) =
      elim (sleep w.eintr (w.clock_nanosleep (wake_target s)))
        as (λ o. Advances (ControlScheduler.on_linux s) (from_linux (wake s o))) [
          | Sleep.asleep ↦ tt
          | Sleep.woken ↦ (refl, refl)
          | Sleep.failed ↦ tt
        ]
  wait-Advances w (ControlScheduler.on_windows s) = windows-Advances s w.calls

  Advances-returned :
      (s : ControlScheduler W) (w : WaitCalls) (s' : ControlScheduler W) (start : ℤ)
      → wait_for_next_cycle w s ≡ Wait.returned s' start
      → Advances s (Wait.returned s' start)
  Advances-returned s w s' start e = rw (← e) (wait-Advances w s)

  -- A wait that returns, on any platform.
  pub returned_base :
      (s : ControlScheduler W) (w : WaitCalls) (s' : ControlScheduler W) (start : ℤ)
      → wait_for_next_cycle w s ≡ Wait.returned s' start
      → (start ≡ scheduled_cycle (base s)) × (base s' ≡ advance_schedule (base s))
  unfolding Advances
  returned_base s w s' start e = Advances-returned s w s' start e

  Waited-after : {s s' : ControlScheduler W} {n : ℕ} → Waited s n s' → base s' ≡ after n (base s)
  unfolding after Portable.wait_for_next_cycle
  Waited-after here = refl
  Waited-after (next {s'} w start before e) =
      (returned_base s' w _ start e).1 ∙ ap advance_schedule (Waited-after before)

  -- Each constructor that succeeds starts the schedule at the base class's reading of the clock.
  pub base-create :
      (p : Platform) (b : Boot) (period : ℕ) (s : ControlScheduler W)
      → create_control_scheduler p b period ≡ some s
      → base s ≡ new_scheduler period b.base_now
  unfolding create_control_scheduler construct_linux construct_windows new_linux_scheduler
  base-create Platform.windows b period s e = ground arith
  base-create Platform.linux b period s e = ground arith
  base-create Platform.other b period s e = ground arith

  -- On every platform, whatever the system's calls give: if the factory makes a scheduler, and some
  -- waits have returned, then the next wait, if it returns, gives the time of construction and that
  -- number of periods of the given length in milliseconds, however late the earlier cycles were.
  returned-timeline :
      (p : Platform) (b : Boot) (period n : ℕ) (s s' s'' : ControlScheduler W) (w : WaitCalls)
      (start : ℤ)
      → create_control_scheduler p b period ≡ some s
      → Waited s n s'
      → wait_for_next_cycle w s' ≡ Wait.returned s'' start
      → start ≡ b.base_now +ℤ pos (n * (period * 1_000_000))
  returned-timeline p b period n s s' s'' w start made waited e =
      (returned_base s' w s'' start e).0
      ∙ ap scheduled_cycle (Waited-after waited ∙ ap (after n) (base-create p b period s made))
      ∙ unfold Portable.wait_for_next_cycle in scheduled-after n period b.base_now

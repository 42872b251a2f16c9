-- ===== src/Scheduler/Platform/Kind.antt =====
-- Which platform a scheduler is for.
use robot_controller.Prelude.{Option, List, [], ◌∷◌, ℕ, ◌≡◌, refl, ◌≢◌, ap, some, ℤ, arith}
use robot_controller.Double.{Double}
use robot_controller.Scheduler.Portable
use robot_controller.Scheduler.Linux
use robot_controller.Scheduler.Linux.{TimeSpec, LinuxControlScheduler, new_linux_scheduler}
use robot_controller.Scheduler.Windows
use robot_controller.Scheduler.Setup.{
  Event, close_handle, destroy_windows, construct_linux, construct_windows,
}
use robot_controller.Scheduler.Platform.{
  Platform, Boot, ControlScheduler, WaitCalls, Wait, create_control_scheduler, wait_for_next_cycle,
  from_windows, from_linux, destroy_scheduler,
}

module _ {W : Type 0} where
  abbrev pub platform_of : ControlScheduler W → Platform
  platform_of (ControlScheduler.portable s) = Platform.other
  platform_of (ControlScheduler.on_linux s) = Platform.linux
  platform_of (ControlScheduler.on_windows s) = Platform.windows

-- The handles that are to be closed.
abbrev handles : Platform → Option ℕ → List Event
handles Platform.windows (some timer) = close_handle timer ∷ []
handles _ _ = []

module _ {W : Type 0} ⦃d : Double W⦄ where
  returned_windows :
      (o : Windows.Wait W) (s : ControlScheduler W) (t : ℤ)
      → from_windows o ≡ Wait.returned s t
      → platform_of s ≡ Platform.windows
  returned_windows Windows.Wait.waiting s t e = absurd (cc)
  returned_windows (Windows.Wait.returned r u) s t e = ground arith
  returned_windows Windows.Wait.thrown s t e = absurd (cc)

  returned_linux :
      (o : Linux.Wait) (s : ControlScheduler W) (t : ℤ)
      → from_linux o ≡ Wait.returned s t
      → platform_of s ≡ Platform.linux
  returned_linux Linux.Wait.waiting s t e = absurd (cc)
  returned_linux (Linux.Wait.returned r u) s t e = ground arith
  returned_linux (Linux.Wait.thrown r) s t e = absurd (cc)

  pub platform_of-create :
      (platform : Platform) (b : Boot) (period : ℕ) (s : ControlScheduler W)
      → create_control_scheduler platform b period ≡ some s
      → platform_of s ≡ platform
  unfolding create_control_scheduler construct_linux construct_windows
  platform_of-create Platform.windows b period s e = ground arith
  platform_of-create Platform.linux b period s e = ground arith
  platform_of-create Platform.other b period s e = ground arith

  pub platform_of-wait :
      (w : WaitCalls) (s s' : ControlScheduler W) (t : ℤ)
      → wait_for_next_cycle w s ≡ Wait.returned s' t
      → platform_of s' ≡ platform_of s
  unfolding wait_for_next_cycle Portable.wait_for_next_cycle
  platform_of-wait w (ControlScheduler.portable s) s' t e = ground arith
  platform_of-wait w (ControlScheduler.on_linux s) s' t e =
      returned_linux (Linux.wait_for_next_cycle w.eintr w.clock_nanosleep s) s' t e
  platform_of-wait w (ControlScheduler.on_windows s) s' t e =
      returned_windows (Windows.wait_for_next_cycle w.calls s) s' t e

  -- What the destructor does is decided by the constructor: it closes the timer that this has created.
  destroy-create :
      (platform : Platform) (b : Boot) (period : ℕ) (s : ControlScheduler W)
      → create_control_scheduler platform b period ≡ some s
      → destroy_scheduler s ≡ handles platform b.timer
  unfolding create_control_scheduler construct_linux construct_windows destroy_scheduler
      destroy_windows
  destroy-create Platform.windows b period s e = ground arith
  destroy-create Platform.linux b period s e = ground arith
  destroy-create Platform.other b period s e = ground arith

  destroy-linux :
      (s : ControlScheduler W) → platform_of s ≡ Platform.linux → destroy_scheduler s ≡ []
  unfolding destroy_scheduler
  destroy-linux (ControlScheduler.portable s) e = refl
  destroy-linux (ControlScheduler.on_linux s) e = refl
  destroy-linux (ControlScheduler.on_windows s) e = absurd (cc)

  destroy-wait :
      (w : WaitCalls) (s s' : ControlScheduler W) (t : ℤ)
      → wait_for_next_cycle w s ≡ Wait.returned s' t
      → destroy_scheduler s' ≡ destroy_scheduler s
  unfolding wait_for_next_cycle Portable.wait_for_next_cycle destroy_scheduler destroy_windows
      Windows.wait_for_next_cycle
  destroy-wait w (ControlScheduler.portable s) s' t e = ground arith
  destroy-wait w (ControlScheduler.on_linux s) s' t e =
      destroy-linux s'
        (returned_linux (Linux.wait_for_next_cycle w.eintr w.clock_nanosleep s) s' t e)
  destroy-wait w (ControlScheduler.on_windows s) s' t e = ground arith

  -- The portable scheduler's wait does not throw.
  pub thrown_platform :
      (w : WaitCalls) (s : ControlScheduler W)
      → wait_for_next_cycle w s ≡ Wait.thrown
      → platform_of s ≢ Platform.other
  unfolding wait_for_next_cycle Portable.wait_for_next_cycle
  thrown_platform w (ControlScheduler.portable s) e = absurd (cc)
  thrown_platform w (ControlScheduler.on_linux s) e = λ k. absurd (cc)
  thrown_platform w (ControlScheduler.on_windows s) e = λ k. absurd (cc)

  pub create-linux :
      (b : Boot) (period : ℕ) (linux_now : TimeSpec) (s : ControlScheduler W)
      → b.linux_now ≡ some linux_now
      → create_control_scheduler Platform.linux b period ≡ some s
      → s ≡ ControlScheduler.on_linux (new_linux_scheduler period b.base_now b.now linux_now)
  unfolding create_control_scheduler construct_linux
  create-linux b period linux_now s now e = ground (arith, now)

  pub thrown_linux :
      (w : WaitCalls) (l : LinuxControlScheduler)
      → Linux.wait_for_next_cycle w.eintr w.clock_nanosleep l ≡ Linux.Wait.thrown l
      → wait_for_next_cycle {W = W} w (ControlScheduler.on_linux l) ≡ Wait.thrown
  unfolding wait_for_next_cycle
  thrown_linux w l e = ap from_linux e

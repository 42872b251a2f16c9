-- ===== src/Program/Invariant.antt =====
-- What holds at every moment of the program.
use robot_controller.Prelude.{
  ◌<◌, ◌≢◌, none, some, Option-cases, ℕ, ◌≤◌, ◌≡◌, ◌||◌, refl, ◌∙◌, inl, inr, false, Option, List,
  ℤ, arith,
}
use robot_controller.Double.{Double}
use robot_controller.Types.{RobotState, JointCommand}
use robot_controller.Robot
use robot_controller.Communication.Thread.{Service, Place}
use robot_controller.ControlLoop.Cycle.{ControlLoop, state}
use robot_controller.ControlLoop.Lifecycle.{Worker, Loop, new_loop, fresh}
use robot_controller.ControlLoop.Threads
use robot_controller.Codec.Command
use robot_controller.Report.{Token}
use robot_controller.Scheduler.Platform.{
  Platform, Boot, ControlScheduler, create_control_scheduler, max_wake_lateness,
}
use robot_controller.CanFrame.{CanFrame}
use mathlib.Core.Option
use robot_controller.Program.{
  Program, Stage, SnapshotRead, cycle_count, begin, new_program, outgoing_command, output, failed,
  found, period,
}
use robot_controller.Program.Cycles.{IsSound, new_program-IsSound}

module _ {W : Type 0} ⦃d : Double W⦄ where
  -- The cycles that the control thread has been started for.
  abbrev pub goal : Stage W → ℕ
  goal Stage.opening = 0
  goal Stage.launching = 0
  goal _ = cycle_count

  abbrev Before : Stage W → Loop → Type 0
  Before Stage.opening l = l ≡ new_loop
  Before Stage.launching l = l ≡ new_loop
  Before (Stage.ended read out) l = l.worker ≡ Worker.ended
  Before _ l = l.worker ≢ Worker.no_thread

  -- What holds once `main` has written its output.
  abbrev Reported :
      RobotState W → List (Token W) → ControlScheduler W → ControlLoop W → Service → Type 0
  Reported read out c l s =
      (cycle_count ≤ l.completed_cycles)
      × (s.place ≡ Place.no_thread)
      × (read ≡ Robot.state l.robot)
      × (elapsed : ℤ) × (out ≡ output l read (max_wake_lateness c) elapsed)

  -- What `main` has made sure of.
  abbrev Passed : Stage W → ControlScheduler W → ControlLoop W → Service → Type 0
  Passed Stage.stopping c l s = (cycle_count ≤ l.completed_cycles) × (s.running ≡ false)
  Passed Stage.reporting c l s = (cycle_count ≤ l.completed_cycles) × (s.place ≡ Place.no_thread)
  Passed (Stage.returning read out) c l s = Reported read out c l s
  Passed (Stage.unwinding read out) c l s = Reported read out c l s
  Passed (Stage.ended read out) c l s = Reported read out c l s
  Passed _ c l s = Unit

  -- A cycle reads the command after its wait.
  abbrev HasWaited : Option ℤ → Option (Option (JointCommand W)) → Type 0
  HasWaited none (some c) = ⊥
  HasWaited _ _ = Unit

  pub record Inv (p : Program W) : Type 0 where
    pub sound : IsSound p.loop
    pub threads : Threads.Inv p.lifecycle (goal p.stage)
    pub before : Before p.stage p.lifecycle
    pub going : (p.lifecycle.stop_token || p.lifecycle.stop_requested) ≡ false
    pub same : p.loop.completed_cycles ≡ p.lifecycle.completed_cycles
    pub passed : Passed p.stage p.scheduler p.loop p.service
    pub waited : HasWaited p.scheduled p.taken

  pub new_program-Inv :
      (scheduler : ControlScheduler W) (tx : CanFrame) → Inv (new_program scheduler tx)
  unfolding new_program
  new_program-Inv scheduler tx = record {
    sound = new_program-IsSound scheduler tx;
    threads = Threads.Reach-Inv fresh;
    before = refl;
    going = refl;
    same = refl;
    passed = tt;
    waited = tt;
  }

  -- Where the program starts.
  pub begin_cases :
      (platform : Platform) (b : Boot) (p : Program W)
      → begin platform b ≡ some p
      → (scheduler : ControlScheduler W) × (tx : CanFrame) × (create_control_scheduler platform b
            period
          ≡ some scheduler)
        × (Command.encode (outgoing_command {W = W}) ≡ some tx)
        × (new_program scheduler tx ≡ p)
  unfolding begin Option.bind
  begin_cases platform b p e =
      elim (Option-cases (create_control_scheduler {W = W} platform b period)) [
        | inl e' ↦ absurd (ground (arith, e'))
        | inr (scheduler, made) ↦ elim (Option-cases (Command.encode (outgoing_command {W = W}))) [
          | inl e' ↦ absurd (ground (arith, e', made))
          | inr (tx, encoded) ↦ (scheduler, tx, made, encoded, ground (arith, encoded, made))
        ]
      ]

  -- The read of the snapshot, once all cycles are complete, gives the state of the robot.
  pub report_state :
      (p : Program W) (o : Option (RobotState W))
      → Inv p
      → cycle_count ≤ p.loop.completed_cycles
      → SnapshotRead p o
      → goal p.stage ≡ cycle_count
      → state p.last_state o ≡ Robot.state p.loop.robot
  report_state p _ v enough (failed n in_cycle) g = absurd (ground arith)
  report_state p _ v enough (found t) g = elim v.sound.shown [
    | inl none_yet ↦ absurd (omega arith)
    | inr shown ↦ shown p.last_state t
  ]

  -- While there is a thread `main` is not past its join, and while there are cycles to go it is not past
  -- its loop.
  pub Passed-service :
      (g : Stage W) (c : ControlScheduler W) (l : ControlLoop W) (s s' : Service)
      → Passed g c l s
      → s.place ≢ Place.no_thread
      → s'.running ≡ s.running
      → Passed g c l s'
  Passed-service Stage.opening c l s s' h k r = tt
  Passed-service Stage.launching c l s s' h k r = tt
  Passed-service Stage.polling c l s s' h k r = tt
  Passed-service Stage.stopping c l s s' h k r = (h.0, r ∙ h.1)
  Passed-service Stage.reporting c l s s' h k r = absurd (k h.1)
  Passed-service (Stage.returning read out) c l s s' h k r = absurd (k h.1)
  Passed-service (Stage.unwinding read out) c l s s' h k r = absurd (k h.1)
  Passed-service (Stage.ended read out) c l s s' h k r = absurd (k h.1)

  pub Passed-loop :
      (g : Stage W) (c c' : ControlScheduler W) (l l' : ControlLoop W) (s : Service)
      → Passed g c l s
      → l.completed_cycles < goal g
      → Passed g c' l' s
  Passed-loop Stage.opening c c' l l' s h k = tt
  Passed-loop Stage.launching c c' l l' s h k = tt
  Passed-loop Stage.polling c c' l l' s h k = tt
  Passed-loop Stage.stopping c c' l l' s h k = absurd (omega (arith, h.0))
  Passed-loop Stage.reporting c c' l l' s h k = absurd (omega (arith, h.0))
  Passed-loop (Stage.returning read out) c c' l l' s h k = absurd (omega (arith, h.0))
  Passed-loop (Stage.unwinding read out) c c' l l' s h k = absurd (omega (arith, h.0))
  Passed-loop (Stage.ended read out) c c' l l' s h k = absurd (omega (arith, h.0))

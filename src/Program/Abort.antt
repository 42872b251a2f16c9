-- ===== src/Program/Abort.antt =====
-- Where the program aborts.
use mathlib.Core.Path.{subst}
use robot_controller.Prelude.{
  ℕ, suc, ◌<◌, ◌≡◌, ◌≢◌, refl, sym, ap, ◌∙◌, none, some, ◌∷◌, [], pos, ◌+ℤ◌, ◌<ℤ◌, arith,
}
use robot_controller.Double.{Double}
use robot_controller.Robot.Reach as Robots
use robot_controller.Scheduler.Linux.{TimeSpec, second}
use robot_controller.Scheduler.Sleep.{IsNormal, first_wait_throws}
use robot_controller.Scheduler.Platform.{Platform, Boot, WaitCalls, create_control_scheduler}
use robot_controller.Scheduler.Platform.Kind.{
  platform_of, platform_of-create, platform_of-wait, thrown_platform, create-linux, thrown_linux,
}
use robot_controller.ControlLoop.Cycle.{update}
use robot_controller.ControlLoop.Lifecycle.{Worker}
use robot_controller.Program.{
  Program, Stage, Step, Reach, Aborts, throw, cycle_count, period, new_program, begin, open_can,
  launch, pause, poll, join, report, close, leave, head, wait, take, finish, round, accept, reply,
  start, later,
}
use robot_controller.Program.Invariant.{begin_cases}
use robot_controller.Program.Run

module _ {W : Type 0} ⦃d : Double W⦄ (platform : Platform) (b : Boot) where
  -- The scheduler is the platform's, and until the first wait returns it is as it was made.
  record Inv (p : Program W) : Type 0 where
    pub kind : platform_of p.scheduler ≡ platform
    pub untouched :
        p.loop.completed_cycles ≡ 0
        → p.scheduled ≡ none
        → create_control_scheduler platform b period ≡ some p.scheduler

  new_program-Inv : (p : Program W) → begin platform b ≡ some p → Inv p
  unfolding new_program
  new_program-Inv p e =
      let (scheduler, tx, made, encoded, same) = begin_cases platform b p e in
      subst Inv same (record {
        kind = platform_of-create platform b period scheduler made;
        untouched = λ first none_yet. made;
      })

  -- A step that changes neither the scheduler, the cycles nor the wait under way.
  kept-Inv :
      {p p' : Program W}
      → p'.scheduler ≡ p.scheduler
      → p'.loop.completed_cycles ≡ p.loop.completed_cycles
      → p'.scheduled ≡ p.scheduled
      → Inv p
      → Inv p'
  kept-Inv s c w v = record {
    kind = ap platform_of s ∙ v.kind;
    untouched = λ first none_yet. v.untouched (sym c ∙ first) (sym w ∙ none_yet) ∙ ap some (sym s);
  }

  Step-Inv : {p p' : Program W} → Step p p' → Inv p → Inv p'
  unfolding update
  Step-Inv (open_can s) v = kept-Inv refl refl refl v
  Step-Inv (launch s) v = kept-Inv refl refl refl v
  Step-Inv (pause s waiting) v = v
  Step-Inv (poll s enough) v = kept-Inv refl refl refl v
  Step-Inv (join s over) v = kept-Inv refl refl refl v
  Step-Inv (report o elapsed s read) v = kept-Inv refl refl refl v
  Step-Inv (close read out s over) v = kept-Inv refl refl refl v
  Step-Inv (leave read out s over) v = kept-Inv refl refl refl v
  Step-Inv (head n at) v = kept-Inv refl refl refl v
  Step-Inv {p} (wait n w scheduler scheduled_start at not_yet back) v = record {
    kind = platform_of-wait w p.scheduler scheduler scheduled_start back ∙ v.kind;
    untouched = λ first none_yet. absurd (cc);
  }
  Step-Inv (take n scheduled_start o at waited none_yet read) v = kept-Inv refl refl refl v
  Step-Inv (finish n reported i at waited processor taken) v = record {
    kind = v.kind;
    untouched = λ first none_yet. absurd (omega (arith, first));
  }
  Step-Inv (round at) v = kept-Inv refl refl refl v
  Step-Inv (accept at not_yet) v = kept-Inv refl refl refl v
  Step-Inv (reply o frames at accepted read sent) v = kept-Inv refl refl refl v

  Reach-Inv : {p : Program W} → Reach platform b p → Inv p
  Reach-Inv (start e) = new_program-Inv _ e
  Reach-Inv (later reached st) = Step-Inv st (Reach-Inv reached)

module _ {W : Type 0} ⦃d : Double W⦄ where
  -- In every interleaving: where a wait throws and the program aborts, `main` is in its loop that waits
  -- for the cycles and has printed nothing, not all cycles are complete, the robot is one that the
  -- public operations can make, and the platform is Windows or Linux.
  pub Aborts_lem :
      {platform : Platform} {b : Boot} {p : Program W}
      → Reach platform b p
      → Aborts p
      → (p.stage ≡ Stage.polling)
        × (p.loop.completed_cycles < cycle_count)
        × Robots.Reach p.loop.robot
        × (platform ≢ Platform.other)
  Aborts_lem {platform} {b} {p} reached (throw n w at none_yet thrown) =
      let v = Run.Reach-Inv reached in
      let kind = (Reach-Inv platform b reached).kind in
      (ground arith, ground arith, v.sound.robot, rw kind at (thrown_platform w p.scheduler thrown))

  -- On Linux, in every interleaving: the constructor's second reading of the clock was some nanoseconds
  -- after its first, and CLOCK_MONOTONIC then stood fewer nanoseconds than that into a second. A first
  -- wait in which `clock_nanosleep` refuses a time whose nanoseconds are negative or too many, with a
  -- result that is neither 0 nor EINTR, throws, and the program aborts.
  pub first_cycle_Aborts :
      {b : Boot} {p : Program W} (n error passed : ℕ) (linux_now : TimeSpec) (w : WaitCalls)
      → error ≢ 0
      → error ≢ w.eintr
      → ((target : TimeSpec) → ¬ IsNormal target → w.clock_nanosleep target ≡ error ∷ [])
      → IsNormal linux_now
      → suc passed < second
      → linux_now.nanoseconds <ℤ pos (suc passed)
      → b.linux_now ≡ some linux_now
      → b.now ≡ b.base_now +ℤ pos (suc passed)
      → Reach Platform.linux b p
      → p.lifecycle.worker ≡ Worker.in_cycle n
      → p.loop.completed_cycles ≡ 0
      → p.scheduled ≡ none
      → Aborts p
  first_cycle_Aborts {b} {p} n error passed linux_now w e0 e1 refuses normal small early read now
        reached at first none_yet =
      let made = (Reach-Inv Platform.linux b reached).untouched first none_yet in
      let same = create-linux b period linux_now p.scheduler read made in
      let thrown =
        first_wait_throws w.eintr error period passed b.base_now linux_now w.clock_nanosleep e0 e1
          refuses normal small early in
      throw n w at none_yet (rw (same, now) (thrown_linux w _ thrown))

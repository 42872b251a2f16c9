-- ===== src/Program/Free.antt =====
-- That the program can end from where the communication thread is not in a round.
use robot_controller.Prelude.{
  ℕ, zero, suc, ◌≡◌, ◌≢◌, refl, inl, inr, Option, Option-cases, some, ℤ, pos, arith,
}
use robot_controller.Double.{Double}
use robot_controller.Types.{JointCommand}
use robot_controller.Communication.Thread
use robot_controller.Communication.Thread.{Service, Place, end_stop, go, begin_stop}
use robot_controller.ControlLoop.Cycle.{Inputs}
use robot_controller.ControlLoop.Lifecycle.{Worker, work}
use robot_controller.Scheduler.Platform.{Platform, Boot, current_processor}
use robot_controller.Scheduler.Platform.Schedule.{prompt_calls, prompt_wait}
use robot_controller.Program.{
  Program, Stage, Reach, open_can, launch, head, wait, take, finish, seen,
}
use robot_controller.Program.Invariant.{Inv}
use robot_controller.Program.Run.{Step-Inv, Reach-Inv}
use robot_controller.Program.Stop.{
  Ends, Ends-first, IsFree, Ends_ended, Ends_reporting, Ends_returning, Ends_unwinding,
  Ends_stopping, Ends_complete,
}

start-IsFree : (s : Service) → s.place ≢ Place.in_round → (Thread.start s).place ≢ Place.in_round
unfolding Thread.start
start-IsFree s f = ground arith

module _ {W : Type 0} ⦃d : Double W⦄ where
  -- A cycle that is in time and takes none.
  abbrev instant : ℤ → ℤ → Option (JointCommand W) → Inputs W
  instant scheduled processor c = record {
    scheduled_start = scheduled;
    cycle_start = scheduled;
    processor = processor;
    control_start = scheduled;
    can_command = c;
    control_end = scheduled;
    snapshot_start = scheduled;
    snapshot_end = scheduled;
    actual_end = scheduled;
  }

-- With `n` cycles to go before the next one.
abbrev FromHead : (W : Type 0) ⦃d : Double W⦄ → ℕ → Type 0
FromHead W n =
    (p : Program W)
    → Inv p
    → IsFree p
    → p.stage ≡ Stage.polling
    → p.lifecycle.worker ≡ Worker.at_head n
    → Ends p

module _ {W : Type 0} ⦃d : Double W⦄ where
  -- With `n` cycles to go after the one under way, if the rest can be done.
  Ends_finish :
      (n : ℕ) (p : Program W) (scheduled : ℤ) (c : Option (JointCommand W))
      → FromHead W n
      → Inv p
      → IsFree p
      → p.stage ≡ Stage.polling
      → p.lifecycle.worker ≡ Worker.in_cycle n
      → p.scheduled ≡ some scheduled
      → p.taken ≡ some c
      → Ends p
  unfolding work
  Ends_finish n p scheduled c rest v f s at waited taken =
      let st =
        finish n (pos 0) (instant scheduled (current_processor p.scheduler (pos 0)) c) at waited
          refl taken in
      Ends-first st (rest _ (Step-Inv st v) f s (rw at refl))

  Ends_take :
      (n : ℕ) (p : Program W) (scheduled : ℤ)
      → FromHead W n
      → Inv p
      → IsFree p
      → p.stage ≡ Stage.polling
      → p.lifecycle.worker ≡ Worker.in_cycle n
      → p.scheduled ≡ some scheduled
      → Ends p
  Ends_take n p scheduled rest v f s at waited = elim (Option-cases p.taken) [
    | inl nothing ↦
        let st = take n scheduled _ at waited nothing (seen 0) in
        Ends-first st (Ends_finish n _ scheduled _ rest (Step-Inv st v) f s at waited refl)
    | inr (c, taken) ↦ Ends_finish n p scheduled c rest v f s at waited taken
  ]

  Ends_cycle :
      (n : ℕ) (p : Program W)
      → FromHead W n
      → Inv p
      → IsFree p
      → p.stage ≡ Stage.polling
      → p.lifecycle.worker ≡ Worker.in_cycle n
      → Ends p
  Ends_cycle n p rest v f s at = elim (Option-cases p.scheduled) [
    | inl not_yet ↦
        let (scheduler, back) = prompt_wait p.scheduler in
        let st = wait n (prompt_calls p.scheduler) scheduler _ at not_yet back in
        Ends-first st (Ends_take n _ _ rest (Step-Inv st v) f s at refl)
    | inr (scheduled, waited) ↦ Ends_take n p scheduled rest v f s at waited
  ]

  Ends_cycles : (n : ℕ) → FromHead W n
  unfolding work
  Ends_cycles zero p v f s at = Ends_complete p v f s (ground arith)
  Ends_cycles (suc n) p v f s at =
      let st = head (suc n) at in
      Ends-first st (Ends_cycle n _ (Ends_cycles n) (Step-Inv st v) f s (rw (at, v.going) refl))

  Ends_polling :
      (p : Program W) (w : Worker)
      → Inv p
      → IsFree p
      → p.stage ≡ Stage.polling
      → p.lifecycle.worker ≡ w
      → Ends p
  Ends_polling p Worker.no_thread v f s at = absurd (ground arith)
  Ends_polling p (Worker.at_head n) v f s at = Ends_cycles n p v f s at
  Ends_polling p (Worker.in_cycle n) v f s at = Ends_cycle n p (Ends_cycles n) v f s at
  Ends_polling p Worker.ended v f s at = Ends_complete p v f s (ground arith)

  Ends_launching : (p : Program W) → Inv p → IsFree p → p.stage ≡ Stage.launching → Ends p
  Ends_launching p v f s =
      let st = launch s in Ends-first st (Ends_polling _ _ (Step-Inv st v) f refl refl)

  Ends_stage : (p : Program W) (g : Stage W) → Inv p → IsFree p → p.stage ≡ g → Ends p
  Ends_stage p Stage.opening v f s =
      let st = open_can s in
      Ends-first st (Ends_launching _ (Step-Inv st v) (start-IsFree p.service f) refl)
  Ends_stage p Stage.launching v f s = Ends_launching p v f s
  Ends_stage p Stage.polling v f s = Ends_polling p _ v f s refl
  Ends_stage p Stage.stopping v f s =
      let (enough, stopped) = rw s at v.passed in Ends_stopping p _ v s stopped f refl
  Ends_stage p Stage.reporting v f s = Ends_reporting p v s
  Ends_stage p (Stage.returning read out) v f s = Ends_returning p read out v s
  Ends_stage p (Stage.unwinding read out) v f s = Ends_unwinding p read out _ v s refl
  Ends_stage p (Stage.ended read out) v f s = Ends_ended p read out s

  pub Ends_free :
      {platform : Platform} {b : Boot} {p : Program W} → Reach platform b p → IsFree p → Ends p
  Ends_free {platform} {b} {p} reached f = Ends_stage p p.stage (Reach-Inv reached) f refl

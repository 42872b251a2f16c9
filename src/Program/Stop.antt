-- ===== src/Program/Stop.antt =====
-- The end of `main`, with the communication thread not in a round.
use robot_controller.Prelude.{zero, suc, ◌≤◌, ◌≡◌, ◌≢◌, refl, false, List, pos, arith}
use robot_controller.Double.{Double}
use robot_controller.Types.{RobotState}
use robot_controller.Snapshot
use robot_controller.Communication.Thread
use robot_controller.Communication.Thread.{Service, Place, end_stop, go, begin_stop}
use robot_controller.ControlLoop.Lifecycle.{Worker, work, IsJoinable}
use robot_controller.Scheduler.Platform.{Platform, Boot}
use robot_controller.Report.{Token}
use robot_controller.Program.{
  Program, Stage, Step, Reach, cycle_count, found, poll, join, report, close, leave, head, round,
  later,
}
use robot_controller.Program.Invariant.{Inv}
use robot_controller.Program.Run.{Step-Inv}

module _ {W : Type 0} ⦃d : Double W⦄ where
  -- Some steps of the program.
  pub data Runs (p : Program W) : Program W → Type 0 where
    here : Runs p p
    next : {q r : Program W} → Runs p q → Step q r → Runs p r

  pub Reach-Runs :
      {platform : Platform} {b : Boot} {p q : Program W}
      → Reach platform b p
      → Runs p q
      → Reach platform b q
  Reach-Runs reached here = reached
  Reach-Runs reached (next runs st) = later (Reach-Runs reached runs) st

  Runs-first : {p q r : Program W} → Step p q → Runs q r → Runs p r
  Runs-first st here = next here st
  Runs-first st (next runs st') = next (Runs-first st runs) st'

  -- Some steps bring `main` to its end.
  pub record Ends (p : Program W) : Type 0 where
    pub last : Program W
    pub read : RobotState W
    pub out : List (Token W)
    pub runs : Runs p last
    pub ended : last.stage ≡ Stage.ended read out

  pub Ends-first : {p q : Program W} → Step p q → Ends q → Ends p
  Ends-first st e = record {
    last = e.last;
    read = e.read;
    out = e.out;
    runs = Runs-first st e.runs;
    ended = e.ended;
  }

  pub Ends_ended :
      (p : Program W) (read : RobotState W) (out : List (Token W))
      → p.stage ≡ Stage.ended read out
      → Ends p
  Ends_ended p read out s = record { last = p; read = read; out = out; runs = here; ended = s }

  -- `main` returns, once the control thread has.
  Ends_unwinding_over :
      (p : Program W) (read : RobotState W) (out : List (Token W))
      → p.stage ≡ Stage.unwinding read out
      → IsJoinable p.lifecycle.worker
      → Ends p
  Ends_unwinding_over p read out s over =
      Ends-first (leave read out s over) (Ends_ended _ read out refl)

  pub Ends_unwinding :
      (p : Program W) (read : RobotState W) (out : List (Token W)) (w : Worker)
      → Inv p
      → p.stage ≡ Stage.unwinding read out
      → p.lifecycle.worker ≡ w
      → Ends p
  unfolding work
  Ends_unwinding p read out Worker.no_thread v s at = Ends_unwinding_over p read out s (rw at tt)
  Ends_unwinding p read out Worker.ended v s at = Ends_unwinding_over p read out s (rw at tt)
  Ends_unwinding p read out (Worker.at_head zero) v s at =
      Ends-first (head 0 at) (Ends_unwinding_over _ read out s (rw at tt))
  Ends_unwinding p read out (Worker.at_head (suc n)) v s at = absurd (ground arith)
  Ends_unwinding p read out (Worker.in_cycle n) v s at = absurd (ground arith)

  pub Ends_returning :
      (p : Program W) (read : RobotState W) (out : List (Token W))
      → Inv p
      → p.stage ≡ Stage.returning read out
      → Ends p
  Ends_returning p read out v s =
      let (enough, gone, shown, elapsed, printed) = rw s at v.passed in
      let st = close read out s (rw gone tt) in
      Ends-first st (Ends_unwinding _ read out _ (Step-Inv st v) refl refl)

  pub Ends_reporting : (p : Program W) → Inv p → p.stage ≡ Stage.reporting → Ends p
  Ends_reporting p v s =
      let st = report (Snapshot.read (λ _. p.loop.state_snapshot) 0) (pos 0) s (found 0) in
      Ends-first st (Ends_returning _ _ _ (Step-Inv st v) refl)

  -- `communication.stop()` returns.
  Ends_stopping_over :
      (p : Program W) → Inv p → p.stage ≡ Stage.stopping → Thread.IsOver p.service.place → Ends p
  Ends_stopping_over p v s over =
      let st = join s over in Ends-first st (Ends_reporting _ (Step-Inv st v) refl)

  -- The communication thread is not in a round.
  abbrev pub IsFree : Program W → Type 0
  IsFree p = p.service.place ≢ Place.in_round

  Ends_stopping_head :
      (p : Program W)
      → Inv p
      → p.stage ≡ Stage.stopping
      → p.service.place ≡ Place.at_head
      → p.service.running ≡ false
      → Ends p
  unfolding go
  Ends_stopping_head p v s at stopped =
      let st = round at in
      Ends-first st (Ends_stopping_over _ (Step-Inv st v) s (rw (at, stopped) tt))

  -- With the communication thread not in a round.
  pub Ends_stopping :
      (p : Program W) (place : Place)
      → Inv p
      → p.stage ≡ Stage.stopping
      → p.service.running ≡ false
      → place ≢ Place.in_round
      → p.service.place ≡ place
      → Ends p
  Ends_stopping p Place.no_thread v s stopped free at = Ends_stopping_over p v s (rw at tt)
  Ends_stopping p Place.ended v s stopped free at = Ends_stopping_over p v s (rw at tt)
  Ends_stopping p Place.at_head v s stopped free at = Ends_stopping_head p v s at stopped
  Ends_stopping p Place.in_round v s stopped free at = absurd (free refl)

  pub Ends_complete :
      (p : Program W)
      → Inv p
      → IsFree p
      → p.stage ≡ Stage.polling
      → cycle_count ≤ p.loop.completed_cycles
      → Ends p
  unfolding begin_stop
  Ends_complete p v f s enough =
      let st = poll s enough in Ends-first st (Ends_stopping _ _ (Step-Inv st v) refl refl f refl)

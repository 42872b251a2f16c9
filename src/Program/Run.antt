-- ===== src/Program/Run.antt =====
-- How the program runs to its end.
use mathlib.Core.Path.{subst}
use robot_controller.Prelude.{ℕ, ◌≤◌, ◌≡◌, refl, ◌∙◌, List, ℤ, arith}
use robot_controller.Double.{Double}
use robot_controller.Types.{RobotState}
use robot_controller.Robot
use robot_controller.Communication.Thread.{Place, end_stop, go, begin_stop}
use robot_controller.ControlLoop.Cycle.{update}
use robot_controller.ControlLoop.Statistics.{Statistics}
use robot_controller.ControlLoop.Counts.{IsCounted}
use robot_controller.ControlLoop.Lifecycle.{
  LifecycleState, Worker, Loop, new_loop, run, work, running, working, fresh,
}
use robot_controller.ControlLoop.Lifecycle
use robot_controller.ControlLoop.Threads
use robot_controller.Report.{Token, print_timing_statistics}
use robot_controller.Report.Counters.{IsReport, print_timing_statistics-IsReport}
use robot_controller.Scheduler.Platform.{Platform, Boot, max_wake_lateness}
use robot_controller.Program.{
  Program, Stage, Step, Reach, cycle_count, output, open_can, launch, pause, poll, join, report,
  close, leave, head, wait, take, finish, round, accept, reply, start, later,
}
use robot_controller.Program.Cycles.{update-IsSound}
use robot_controller.Program.Invariant.{
  Inv, new_program-Inv, begin_cases, report_state, Passed-service, Passed-loop,
}

module _ {W : Type 0} ⦃d : Double W⦄ where
  pub Step-Inv : {p p' : Program W} → Step p p' → Inv p → Inv p'
  unfolding run work update end_stop begin_stop go
  Step-Inv (open_can s) v = ground arith
  Step-Inv {p} (launch s) v =
      let fresh_loop : p.lifecycle ≡ new_loop = ground arith in
      record {
        sound = v.sound;
        threads =
            rw fresh_loop
              (Threads.Reach-Inv (Lifecycle.Reach.later fresh (running cycle_count refl refl)));
        before = ground arith;
        going = ground arith;
        same = ground arith;
        passed = tt;
        waited = v.waited;
      }
  Step-Inv (pause s waiting) v = v
  Step-Inv (poll s enough) v = ground arith
  Step-Inv (join s over) v = ground arith
  Step-Inv {p} (report o elapsed s read) v =
      let enough : cycle_count ≤ p.loop.completed_cycles = ground arith in
      record {
        sound = v.sound;
        threads = ground arith;
        before = ground arith;
        going = v.going;
        same = v.same;
        waited = v.waited;
        passed =
            (enough, ground arith, report_state p o v enough read (ground arith), elapsed, refl);
      }
  Step-Inv {p} (close read out s over) v = record {
    sound = v.sound;
    threads = ground arith;
    before = ground arith;
    going = v.going;
    same = v.same;
    waited = v.waited;
    passed =
        let (enough, gone, shown, elapsed, printed) = rw s at v.passed in
        (enough, refl, shown, elapsed, printed);
  }
  Step-Inv {p} (leave read out s over) v = record {
    sound = v.sound;
    threads = ground arith;
    before = ground arith;
    going = v.going;
    same = v.same;
    waited = v.waited;
    passed = rw s at v.passed;
  }
  Step-Inv {p} (head n at) v = record {
    sound = v.sound;
    threads = Threads.Step-Inv working v.threads;
    before = ground arith;
    going = ground arith;
    same = ground arith;
    passed = v.passed;
    waited = v.waited;
  }
  Step-Inv {p} (wait n w scheduler scheduled_start in_cycle none_yet back) v = record {
    sound = v.sound;
    threads = v.threads;
    before = v.before;
    going = v.going;
    same = v.same;
    passed =
        Passed-loop p.stage p.scheduler scheduler p.loop p.loop p.service v.passed (ground arith);
    waited = ground arith;
  }
  Step-Inv (take n scheduled_start o in_cycle waited none_yet read) v = ground arith
  Step-Inv {p} (finish n reported i in_cycle waited processor read) v = record {
    sound = update-IsSound _ i p.loop v.sound;
    threads = Threads.Step-Inv working v.threads;
    before = ground arith;
    going = ground arith;
    same = ground arith;
    passed = Passed-loop p.stage p.scheduler _ p.loop _ p.service v.passed (ground arith);
    waited = tt;
  }
  Step-Inv {p} (round at) v = record {
    sound = v.sound;
    threads = v.threads;
    before = v.before;
    going = v.going;
    same = v.same;
    waited = v.waited;
    passed =
        Passed-service p.stage p.scheduler p.loop p.service _ v.passed (ground arith)
          (ground arith);
  }
  Step-Inv (accept at not_yet) v = ground arith
  Step-Inv {p} (reply o frames at accepted read sent) v = record {
    sound = v.sound;
    threads = v.threads;
    before = v.before;
    going = v.going;
    same = v.same;
    waited = v.waited;
    passed =
        Passed-service p.stage p.scheduler p.loop p.service _ v.passed (ground arith)
          (ground arith);
  }

  pub Reach-Inv : {platform : Platform} {b : Boot} {p : Program W} → Reach platform b p → Inv p
  Reach-Inv {platform} {b} {p} (start e) =
      let (scheduler, tx, made, encoded, same) = begin_cases platform b p e in
      subst Inv same (new_program-Inv scheduler tx)
  Reach-Inv (later r st) = Step-Inv st (Reach-Inv r)

  counted-IsReport :
      (n : ℕ) (lateness : W) (s : Statistics W)
      → s.measured_cycles ≡ n
      → IsCounted s
      → 2 ≤ n
      → IsReport n (print_timing_statistics lateness s)
  counted-IsReport n lateness s e counted enough =
      subst (λ k. IsReport k (print_timing_statistics lateness s)) e
        (print_timing_statistics-IsReport lateness s counted (rw e enough))

  -- In every interleaving of its threads: when `main` has returned, its destructors included, all
  -- cycles have been completed and no more, the function of the control thread has returned, the
  -- communication thread is gone, the state that `main` has read is that of the robot, and the output
  -- has the report of the timing in it, with the greatest lateness that the scheduler keeps, whose
  -- counters fit together for that number of cycles.
  pub ended_lem :
      {platform : Platform} {b : Boot} {p : Program W} (read : RobotState W) (out : List (Token W))
      → Reach platform b p
      → p.stage ≡ Stage.ended read out
      → (p.loop.completed_cycles ≡ cycle_count)
        × (p.lifecycle.worker ≡ Worker.ended)
        × (p.service.place ≡ Place.no_thread)
        × (read ≡ Robot.state p.loop.robot)
        × (elapsed : ℤ) × (out ≡ output p.loop read (max_wake_lateness p.scheduler) elapsed)
        × IsReport cycle_count
            (print_timing_statistics (max_wake_lateness p.scheduler) p.loop.statistics)
  ended_lem {platform} {b} {p} read out reached e =
      let v = Reach-Inv reached in
      let (enough, gone, shown, elapsed, printed) = rw e at v.passed in
      let all : p.loop.completed_cycles ≡ cycle_count = ground arith in
      let counted : p.loop.statistics.measured_cycles ≡ cycle_count = v.sound.measured ∙ all in
      (
        all,
        rw e at v.before,
        gone,
        shown,
        elapsed,
        printed,
        counted-IsReport cycle_count _ p.loop.statistics counted v.sound.counted (omega arith),
      )

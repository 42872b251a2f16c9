-- ===== src/Program/Overflow.antt =====
-- The counters of the program, as machine integers.
use robot_controller.Prelude.{
  ℕ, ◌*◌, ◌%◌, ◌^◌, ◌≤◌, ◌<◌, ◌≡◌, ◌∙◌, refl, sym, List, [], ◌∷◌, All, All-weaken, arith,
}
use robot_controller.Double.{Double}
use robot_controller.Seqlock.{u64_mod}
use robot_controller.Seqlock.Quiet.{sequence-publish}
use robot_controller.Snapshot
use robot_controller.CanBuffers.{publish_state}
use robot_controller.ControlLoop.Statistics.{Statistics, Timing}
use robot_controller.ControlLoop.Counts.{IsCounted}
use robot_controller.ControlLoop.Cycle.{ControlLoop, Inputs, update}
use robot_controller.ControlLoop.Threads.{Inv-completed}
use robot_controller.Scheduler.Platform.{Platform, Boot}
use robot_controller.Program.{Program, Stage, Reach, cycle_count, initial_loop}
use robot_controller.Program.Invariant.{goal}
use robot_controller.Program.Run
use robot_controller.Program.Trace.{cycles_of}
use robot_controller.Program.Sequential.{sequence, every_millisecond, Reach-IsSequential}
use mathlib.Core.Path.{subst}

-- The counters of type `int`.
abbrev pub counters : {W : Type 0} → Statistics W → List ℕ
counters s =
    s.measured_cycles ∷ s.delayed_cycles ∷ s.backlog_cycles ∷ s.consecutive_delayed_cycles
    ∷ s.max_consecutive_delayed_cycles ∷ s.deadline_misses ∷ s.scheduling_misses
    ∷ s.execution_misses ∷ s.combined_misses ∷ s.delay_under_100us ∷ s.delay_100us_to_1ms
    ∷ s.delay_1ms_to_5ms ∷ s.delay_5ms_to_10ms ∷ s.delay_over_10ms ∷ s.processor_changes ∷ []

All-small : (ks : List ℕ) → All (λ (k : ℕ). k ≤ cycle_count) ks → All (λ (k : ℕ). k < 2 ^ 31) ks
All-small ks h = All-weaken _ _ (λ k bound. omega (arith, bound)) ks h

module _ {W : Type 0} ⦃d : Double W⦄ where
  -- The sequence numbers of the buffers that the control thread publishes in.
  record IsNumbered (l : ControlLoop W) : Type 0 where
    pub snapshot : l.state_snapshot.sequence ≡ 2 * l.completed_cycles % u64_mod
    pub can : l.can_state.sequence ≡ 2 * l.completed_cycles % u64_mod

  update-IsNumbered :
      (scheduler : Timing W) (i : Inputs W) (l : ControlLoop W)
      → IsNumbered l
      → IsNumbered (update scheduler i l)
  unfolding update Snapshot.publish publish_state
  update-IsNumbered scheduler i l n = record {
    snapshot = sequence-publish _ l.state_snapshot ∙ omega (arith, n.snapshot);
    can = sequence-publish _ l.can_state ∙ omega (arith, n.can);
  }

  sequence-IsNumbered :
      (scheduler : Timing W) (cycles : List (Inputs W)) (l : ControlLoop W)
      → IsNumbered l
      → IsNumbered (sequence scheduler cycles l)
  sequence-IsNumbered scheduler [] l n = n
  sequence-IsNumbered scheduler (i ∷ rest) l n =
      sequence-IsNumbered scheduler rest (update scheduler i l) (update-IsNumbered scheduler i l n)

  counted-Fits :
      (n : ℕ) (s : Statistics W)
      → IsCounted s
      → s.measured_cycles ≤ n
      → All (λ (k : ℕ). k ≤ n) (counters s)
  counted-Fits n s c h = ground arith

  goal_bound : (stage : Stage W) → goal stage ≤ cycle_count
  goal_bound stage = ground arith

  initial-IsNumbered : IsNumbered (initial_loop {W = W})
  initial-IsNumbered = record { snapshot = refl; can = refl }

  Reach-IsNumbered :
      {platform : Platform} {b : Boot} {p : Program W} → Reach platform b p → IsNumbered p.loop
  Reach-IsNumbered reached =
      let run = Reach-IsSequential reached in
      subst IsNumbered (sym run.same)
        (sequence-IsNumbered every_millisecond (cycles_of reached) initial_loop initial-IsNumbered)

  -- In every interleaving of the program's threads: the cycles completed and each counter of the
  -- statistics are below 2^31, so that no increment of an `int` overflows, and the sequence numbers of
  -- the two buffers in which the control thread publishes are twice the cycles completed, so that they
  -- have never wrapped round.
  pub Reach-Fits :
      {platform : Platform} {b : Boot} {p : Program W}
      → Reach platform b p
      → let n = p.loop.completed_cycles in
        All (λ (k : ℕ). k < 2 ^ 31) (n ∷ counters p.loop.statistics)
        × (p.loop.state_snapshot.sequence ≡ 2 * n)
        × (p.loop.can_state.sequence ≡ 2 * n)
  Reach-Fits {p} reached =
      let v = Run.Reach-Inv reached in
      let n = Reach-IsNumbered reached in
      let bound : p.loop.completed_cycles ≤ cycle_count =
        omega
          (arith, v.same, Inv-completed p.lifecycle (goal p.stage) v.threads, goal_bound p.stage) in
      (
        (
          omega (arith, bound),
          All-small (counters p.loop.statistics) (
              counted-Fits cycle_count p.loop.statistics v.sound.counted
                (omega (arith, v.sound.measured, bound))),
        ),
        n.snapshot ∙ omega (arith, bound),
        n.can ∙ omega (arith, bound),
      )

-- ===== src/ControlLoop/Maxima.antt =====
-- The maxima that the statistics report after some cycles.
use robot_controller.Prelude.{ℕ, ◌≡◌, ap, ◌∙◌, Bool, false, List, [], ◌∷◌, All, ℤ, ◌-ℤ◌, arith}
use robot_controller.Double.{Double, IsOrdered}
use robot_controller.Scheduler.Portable.{milliseconds}
use robot_controller.ControlLoop.Statistics.{
  Statistics, Timing, greater, execution_time, update_processor_statistics,
  update_period_statistics, update_delay_statistics, update_control_statistics,
  update_snapshot_statistics, update_inter_cycle_statistics, update_scheduling_statistics,
  update_deadline_statistics, update_execution_statistics, update_miss_statistics,
}
use robot_controller.ControlLoop.Cycle.{Inputs, update_statistics}

-- Four times of a cycle, or the greatest of each.
pub record Times (W : Type 0) : Type 0 where
  pub control : W
  pub snapshot : W
  pub delay : W
  pub execution : W

module _ {W : Type 0} where
  -- What the statistics report.
  abbrev pub maxima : Statistics W → Times W
  maxima s = record {
    control = s.max_control_time;
    snapshot = s.max_snapshot_time;
    delay = s.max_scheduling_delay;
    execution = s.max_execution_time;
  }

module _ {W : Type 0} ⦃d : Double W⦄ where
  -- The times of one cycle.
  abbrev pub times : Timing W → Inputs W → Times W
  times scheduler i = record {
    control = milliseconds (i.control_end -ℤ i.control_start);
    snapshot = milliseconds (i.snapshot_end -ℤ i.snapshot_start);
    delay = scheduler.scheduling_delay i.cycle_start i.scheduled_start;
    execution = execution_time i.cycle_start i.actual_end;
  }

  -- The statistics after some cycles.
  unfoldable pub measure : Timing W → List (Inputs W) → Statistics W → Statistics W
  measure scheduler [] s = s
  measure scheduler (i ∷ rest) s = measure scheduler rest (update_statistics scheduler i s)

  abbrev raised : Times W → Times W → Times W
  raised t m = record {
    control = greater t.control m.control;
    snapshot = greater t.snapshot m.snapshot;
    delay = greater t.delay m.delay;
    execution = greater t.execution m.execution;
  }

module _ {W : Type 0} ⦃d : Double W⦄ (s : Statistics W) where
  processor-maxima : (p : ℤ) → maxima (update_processor_statistics s p) ≡ maxima s
  unfolding update_processor_statistics
  processor-maxima p = ground arith

  period-maxima : (start : ℤ) → maxima (update_period_statistics s start) ≡ maxima s
  unfolding update_period_statistics
  period-maxima start = ground arith

  delay-maxima :
      (scheduler : Timing W) (behind : Bool) (start scheduled : ℤ)
      → maxima (update_delay_statistics scheduler s behind start scheduled) ≡ maxima s
  unfolding update_delay_statistics
  delay-maxima scheduler behind start scheduled = ground arith

  inter_cycle-maxima :
      (start end : ℤ) → maxima (update_inter_cycle_statistics s start end) ≡ maxima s
  unfolding update_inter_cycle_statistics
  inter_cycle-maxima start end = ground arith

  scheduling-maxima :
      (x : W)
      → maxima (update_scheduling_statistics s x)
        ≡ record (maxima s) { delay = greater x s.max_scheduling_delay }
  unfolding update_scheduling_statistics
  scheduling-maxima x = ground arith

  deadline-maxima :
      (deadline end : ℤ) (n : ℕ) → maxima (update_deadline_statistics s deadline end n) ≡ maxima s
  unfolding update_deadline_statistics
  deadline-maxima deadline end n = ground arith

  miss-maxima :
      (end deadline : ℤ) (x y : W) → maxima (update_miss_statistics s end deadline x y) ≡ maxima s
  unfolding update_miss_statistics
  miss-maxima end deadline x y = ground arith

module _ {W : Type 0} ⦃d : Double W⦄ where
  update_statistics-maxima :
      (scheduler : Timing W) (i : Inputs W) (s : Statistics W)
      → maxima (update_statistics scheduler i s) ≡ raised (times scheduler i) (maxima s)
  unfolding update_statistics update_control_statistics update_snapshot_statistics
      update_execution_statistics
  update_statistics-maxima scheduler i s =
      let t = times scheduler i in
      miss-maxima _ _ _ _ _
      ∙ ap (λ (m : Times W). record m { execution = greater t.execution m.execution })
          (deadline-maxima _ _ _ _
            ∙ scheduling-maxima _ _
            ∙ ap (λ (m : Times W). record m { delay = greater t.delay m.delay })
                (inter_cycle-maxima _ _ _
                  ∙ ap
                      (λ (m : Times W). record m {
                        control = greater t.control m.control;
                        snapshot = greater t.snapshot m.snapshot;
                      })
                      (delay-maxima _ _ _ _ _
                        ∙ period-maxima _ _
                        ∙ processor-maxima s i.processor)))

  -- No time of the second record exceeds that of the first, by the test `>`.
  pub record IsBound (m t : Times W) : Type 0 where
    pub control : d.lt m.control t.control ≡ false
    pub snapshot : d.lt m.snapshot t.snapshot ≡ false
    pub delay : d.lt m.delay t.delay ≡ false
    pub execution : d.lt m.execution t.execution ≡ false

module _ {W : Type 0} ⦃d : Double W⦄ (laws : IsOrdered W) where
  open d use {lt, le}

  pub lt-greater : (value greatest : W) → lt (greater value greatest) value ≡ false
  lt-greater value greatest = ground (arith, laws.lt_irrefl value)

  -- What one does not exceed, a greater one does not.
  pub lt-greater_old :
      (value greatest x : W) → lt greatest x ≡ false → lt (greater value greatest) x ≡ false
  lt-greater_old value greatest x h = ground (
    arith,
    laws.lt_numbers greatest value,
    laws.lt_numbers value x,
    laws.le_of_lt_false x greatest,
    laws.le_of_lt greatest value,
    laws.le_trans x greatest value,
    laws.lt_of_le x value,
  )

  raised-IsBound : (t m : Times W) → IsBound (raised t m) t
  raised-IsBound t m = record {
    control = lt-greater _ _;
    snapshot = lt-greater _ _;
    delay = lt-greater _ _;
    execution = lt-greater _ _;
  }

  raised-IsBound_old : (t m x : Times W) → IsBound m x → IsBound (raised t m) x
  raised-IsBound_old t m x b = record {
    control = lt-greater_old _ _ _ b.control;
    snapshot = lt-greater_old _ _ _ b.snapshot;
    delay = lt-greater_old _ _ _ b.delay;
    execution = lt-greater_old _ _ _ b.execution;
  }

  measure-IsBound_old :
      (scheduler : Timing W) (cycles : List (Inputs W)) (s : Statistics W) (x : Times W)
      → IsBound (maxima s) x
      → IsBound (maxima (measure scheduler cycles s)) x
  unfolding measure
  measure-IsBound_old scheduler [] s x b = b
  measure-IsBound_old scheduler (i ∷ rest) s x b = measure-IsBound_old scheduler rest _ x (
      rw (update_statistics-maxima scheduler i s)
        (raised-IsBound_old (times scheduler i) (maxima s) x b))

  -- After any cycles no control time, snapshot time, scheduling delay or execution time of one of them
  -- exceeds the maximum that the statistics report, whatever they held before.
  pub measure-IsBound :
      (scheduler : Timing W) (cycles : List (Inputs W)) (s : Statistics W)
      → All (λ i. IsBound (maxima (measure scheduler cycles s)) (times scheduler i)) cycles
  unfolding measure
  measure-IsBound scheduler [] s = tt
  measure-IsBound scheduler (i ∷ rest) s = (
    measure-IsBound_old scheduler rest _ _ (
        rw (update_statistics-maxima scheduler i s)
          (raised-IsBound (times scheduler i) (maxima s))),
    measure-IsBound scheduler rest _,
  )

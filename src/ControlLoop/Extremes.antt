-- ===== src/ControlLoop/Extremes.antt =====
-- What the statistics keep of the periods of some cycles, their gaps and their margins.
pub mod Bounds
use robot_controller.Prelude.{
  ℕ, ◌+◌, ◌≤◌, ◌≡◌, ap, ◌∙◌, refl, Bool, false, List, [], ◌∷◌, All, ℤ, ◌-ℤ◌, ◌+ℤ◌, ◌==◌, ◌||◌, ltb,
  if◌then◌else◌, arith,
}
use robot_controller.Double.{Double, IsOrdered}
use robot_controller.Scheduler.Portable.{milliseconds}
use robot_controller.ControlLoop.Statistics.{
  Statistics, Timing, greater, execution_time, update_processor_statistics,
  update_period_statistics, update_delay_statistics, update_control_statistics,
  update_snapshot_statistics, update_inter_cycle_statistics, update_scheduling_statistics,
  update_deadline_statistics, update_execution_statistics, update_miss_statistics,
}
use robot_controller.ControlLoop.Cycle.{Inputs, control_period, update_statistics}
use robot_controller.ControlLoop.Maxima.{measure}

-- What the statistics keep of the cycles' distances.
pub record Marks (W : Type 0) : Type 0 where
  pub cycles : ℕ
  pub previous : ℤ
  pub previous_end : ℤ
  pub min_period : W
  pub max_period : W
  pub max_gap : W
  pub min_margin : W

abbrev pub marks : {W : Type 0} → Statistics W → Marks W
marks s = record {
  cycles = s.measured_cycles;
  previous = s.previous_cycle;
  previous_end = s.previous_cycle_end;
  min_period = s.min_period;
  max_period = s.max_period;
  max_gap = s.max_inter_cycle_gap;
  min_margin = s.min_deadline_margin;
}

module _ {W : Type 0} ⦃d : Double W⦄ where
  -- From the start of one cycle to that of the next, from its end to the next start, and from the end
  -- to the deadline.
  abbrev pub period : Inputs W → Inputs W → W
  period i j = milliseconds (j.cycle_start -ℤ i.cycle_start)

  abbrev pub gap : Inputs W → Inputs W → W
  gap i j = milliseconds (j.cycle_start -ℤ i.actual_end)

  abbrev pub margin : Inputs W → W
  margin i = milliseconds (i.scheduled_start +ℤ control_period -ℤ i.actual_end)

  -- The greatest and the least periods, gaps and margins, by the test `<`.
  pub record Spans (m : Marks W) (i j : Inputs W) : Type 0 where
    pub least : d.lt (period i j) m.min_period ≡ false
    pub greatest : d.lt m.max_period (period i j) ≡ false
    pub widest : d.lt m.max_gap (gap i j) ≡ false

  abbrev pub Spaced : Marks W → List (Inputs W) → Type 0
  Spaced m [] = Unit
  Spaced m (i ∷ []) = Unit
  Spaced m (i ∷ j ∷ rest) = Spans m i j × Spaced m (j ∷ rest)

  abbrev pub Kept : Marks W → Inputs W → Type 0
  Kept m i = d.lt (margin i) m.min_margin ≡ false

  abbrev pub lesser : W → W → W
  lesser value least = if d.lt value least then value else least

  -- What a cycle makes of the marks.
  abbrev pub on_period : ℤ → Marks W → Marks W
  on_period start m =
      let p = milliseconds (start -ℤ m.previous) in
      if ltb 0 m.cycles
      then record m {
        min_period = if m.cycles == 1 then p else lesser p m.min_period;
        max_period = greater p m.max_period;
        previous = start;
      }
      else record m { previous = start }

  abbrev pub on_gap : ℤ → ℤ → Marks W → Marks W
  on_gap start end m =
      if ltb 0 m.cycles
      then record m {
        max_gap = greater (milliseconds (start -ℤ m.previous_end)) m.max_gap;
        previous_end = end;
      }
      else record m { previous_end = end }

  abbrev counted : Marks W → Marks W
  counted m = record m { cycles = m.cycles + 1 }

  abbrev pub on_margin : W → Marks W → Marks W
  on_margin x m = record m {
    min_margin = if m.cycles == 0 then x else lesser x m.min_margin;
    cycles = m.cycles + 1;
  }

  pub marked : Inputs W → Marks W → Marks W
  marked i m = on_margin (margin i) (on_gap i.cycle_start i.actual_end (on_period i.cycle_start m))

module _ {W : Type 0} ⦃d : Double W⦄ (s : Statistics W) where
  processor-marks : (p : ℤ) → marks (update_processor_statistics s p) ≡ marks s
  unfolding update_processor_statistics
  processor-marks p = ground arith

  period-marks : (start : ℤ) → marks (update_period_statistics s start) ≡ on_period start (marks s)
  unfolding update_period_statistics
  period-marks start = ground arith

  delay-marks :
      (scheduler : Timing W) (behind : Bool) (start scheduled : ℤ)
      → marks (update_delay_statistics scheduler s behind start scheduled) ≡ marks s
  unfolding update_delay_statistics
  delay-marks scheduler behind start scheduled = ground arith

  inter_cycle-marks :
      (start end : ℤ)
      → marks (update_inter_cycle_statistics s start end) ≡ on_gap start end (marks s)
  unfolding update_inter_cycle_statistics
  inter_cycle-marks start end = ground arith

  scheduling-marks : (x : W) → marks (update_scheduling_statistics s x) ≡ marks s
  unfolding update_scheduling_statistics
  scheduling-marks x = ground arith

  deadline-marks :
      (deadline end : ℤ)
      → counted (marks (update_deadline_statistics s deadline end s.measured_cycles))
        ≡ on_margin (milliseconds (deadline -ℤ end)) (marks s)
  unfolding update_deadline_statistics
  deadline-marks deadline end = ground arith

  miss-marks :
      (end deadline : ℤ) (x y : W) → marks (update_miss_statistics s end deadline x y) ≡ marks s
  unfolding update_miss_statistics
  miss-marks end deadline x y = ground arith

module _ {W : Type 0} ⦃d : Double W⦄ where
  update_statistics-marks :
      (scheduler : Timing W) (i : Inputs W) (s : Statistics W)
      → marks (update_statistics scheduler i s) ≡ marked i (marks s)
  unfolding marked update_statistics update_control_statistics update_snapshot_statistics
      update_execution_statistics
  update_statistics-marks scheduler i s =
      ap counted (miss-marks _ _ _ _ _)
      ∙ deadline-marks _ _ _
      ∙ ap (on_margin (margin i)) (
          scheduling-marks _ _
          ∙ inter_cycle-marks _ _ _
          ∙ ap (on_gap i.cycle_start i.actual_end) (
              delay-marks _ _ _ _ _
              ∙ period-marks _ _
              ∙ ap (on_period i.cycle_start) (processor-marks s i.processor)))

  -- The marks after some cycles.
  pub after : List (Inputs W) → Marks W → Marks W
  after [] m = m
  after (i ∷ rest) m = after rest (marked i m)

  pub measure-marks :
      (scheduler : Timing W) (cycles : List (Inputs W)) (s : Statistics W)
      → marks (measure scheduler cycles s) ≡ after cycles (marks s)
  unfolding measure after
  measure-marks scheduler [] s = refl
  measure-marks scheduler (i ∷ rest) s =
      measure-marks scheduler rest _ ∙ ap (after rest) (update_statistics-marks scheduler i s)

-- ===== src/ControlLoop/Tally.antt =====
-- What the counters of the statistics make of a cycle.
pub mod Sums
pub mod Totals
use robot_controller.Prelude.{
  ℕ, ◌+◌, ◌≡◌, refl, ap, ◌∙◌, Bool, true, false, ◌&&◌, ◌||◌, not, List, [], ◌∷◌, ℤ, pos, ◌+ℤ◌, ltb,
  ltb_ℤ, leb_ℤ, if◌then◌else◌, arith,
}
use robot_controller.Double.{Double}
use robot_controller.Types.{nought}
use robot_controller.ControlLoop.Statistics.{
  Statistics, Timing, execution_time, update_processor_statistics, update_period_statistics,
  update_delay_statistics, update_control_statistics, update_snapshot_statistics,
  update_inter_cycle_statistics, update_scheduling_statistics, update_deadline_statistics,
  update_execution_statistics, update_miss_statistics,
}
use robot_controller.ControlLoop.Cycle.{Inputs, control_period, update_statistics}
use robot_controller.ControlLoop.Maxima.{measure}

-- The counters of delayed cycles, of missed deadlines, of the classes of delay and of the processors.
pub record Tally : Type 0 where
  pub delayed : ℕ
  pub run : ℕ
  pub longest : ℕ
  pub backlog : ℕ
  pub misses : ℕ
  pub scheduling : ℕ
  pub execution : ℕ
  pub combined : ℕ
  pub under_100us : ℕ
  pub up_to_1ms : ℕ
  pub up_to_5ms : ℕ
  pub up_to_10ms : ℕ
  pub over_10ms : ℕ
  pub changes : ℕ
  pub processor : ℤ

abbrev pub tally : {W : Type 0} → Statistics W → Tally
tally s = record {
  delayed = s.delayed_cycles;
  run = s.consecutive_delayed_cycles;
  longest = s.max_consecutive_delayed_cycles;
  backlog = s.backlog_cycles;
  misses = s.deadline_misses;
  scheduling = s.scheduling_misses;
  execution = s.execution_misses;
  combined = s.combined_misses;
  under_100us = s.delay_under_100us;
  up_to_1ms = s.delay_100us_to_1ms;
  up_to_5ms = s.delay_1ms_to_5ms;
  up_to_10ms = s.delay_5ms_to_10ms;
  over_10ms = s.delay_over_10ms;
  changes = s.processor_changes;
  processor = s.previous_processor;
}

-- One for a test that holds.
abbrev pub weight : Bool → ℕ
weight b = if b then 1 else 0

abbrev pub differs : ℤ → ℤ → Bool
differs a b = ltb_ℤ a b || ltb_ℤ b a

-- What each stage of a cycle makes of the counters.
abbrev pub on_processor : ℤ → Tally → Tally
on_processor p t =
    if leb_ℤ (pos 0) p
    then record t {
      changes = t.changes + weight (leb_ℤ (pos 0) t.processor && differs p t.processor);
      processor = p;
    }
    else t

abbrev pub on_delay : Bool → Bool → Tally → Tally
on_delay behind_schedule far t =
    if behind_schedule
    then record t {
      delayed = t.delayed + 1;
      run = t.run + 1;
      longest = if ltb t.longest (t.run + 1) then t.run + 1 else t.longest;
      backlog = t.backlog + weight far;
    }
    else record t { run = 0 }

abbrev pub on_miss : Bool → Bool → Bool → Tally → Tally
on_miss missed started_late overran t =
    if missed
    then record t {
      misses = t.misses + 1;
      combined = t.combined + weight (started_late && overran);
      scheduling = t.scheduling + weight (started_late && not overran);
      execution = t.execution + weight (not started_late);
    }
    else t

module _ {W : Type 0} ⦃d : Double W⦄ where
  open d use {lt, le, of_int, decimal}

  -- The class of a delay, by the limits 0.1, 1, 5 and 10 ms: from one limit on, and under the next.
  abbrev pub under_100us : W → Bool
  under_100us x = lt x (decimal 1 1)

  abbrev pub up_to_1ms : W → Bool
  up_to_1ms x = not (lt x (decimal 1 1)) && lt x (decimal 1 0)

  abbrev pub up_to_5ms : W → Bool
  up_to_5ms x = not (lt x (decimal 1 1)) && not (lt x (decimal 1 0)) && lt x (decimal 5 0)

  abbrev pub up_to_10ms : W → Bool
  up_to_10ms x =
      not (lt x (decimal 1 1))
      && not (lt x (decimal 1 0))
      && not (lt x (decimal 5 0))
      && lt x (decimal 10 0)

  abbrev pub over_10ms : W → Bool
  over_10ms x =
      not (lt x (decimal 1 1))
      && not (lt x (decimal 1 0))
      && not (lt x (decimal 5 0))
      && not (lt x (decimal 10 0))

  abbrev pub on_class : W → Tally → Tally
  on_class x t = record t {
    under_100us = t.under_100us + weight (under_100us x);
    up_to_1ms = t.up_to_1ms + weight (up_to_1ms x);
    up_to_5ms = t.up_to_5ms + weight (up_to_5ms x);
    up_to_10ms = t.up_to_10ms + weight (up_to_10ms x);
    over_10ms = t.over_10ms + weight (over_10ms x);
  }

module _ {W : Type 0} ⦃d : Double W⦄ (s : Statistics W) where
  processor-tally : (p : ℤ) → tally (update_processor_statistics s p) ≡ on_processor p (tally s)
  unfolding update_processor_statistics
  processor-tally p = ground arith

  period-tally : (start : ℤ) → tally (update_period_statistics s start) ≡ tally s
  unfolding update_period_statistics
  period-tally start = ground arith

  delay-tally :
      (scheduler : Timing W) (behind : Bool) (start scheduled : ℤ)
      → tally (update_delay_statistics scheduler s behind start scheduled)
        ≡ on_delay behind (d.le (d.of_int (pos 1)) (scheduler.backlog start scheduled)) (tally s)
  unfolding update_delay_statistics
  delay-tally scheduler behind start scheduled = ground arith

  inter_cycle-tally : (start end : ℤ) → tally (update_inter_cycle_statistics s start end) ≡ tally s
  unfolding update_inter_cycle_statistics
  inter_cycle-tally start end = ground arith

  scheduling-tally : (x : W) → tally (update_scheduling_statistics s x) ≡ on_class x (tally s)
  unfolding update_scheduling_statistics
  scheduling-tally x = ground arith

  deadline-tally :
      (deadline end : ℤ) (n : ℕ) → tally (update_deadline_statistics s deadline end n) ≡ tally s
  unfolding update_deadline_statistics
  deadline-tally deadline end n = ground arith

  miss-tally :
      (end deadline : ℤ) (delay_ms execution_ms : W)
      → tally (update_miss_statistics s end deadline delay_ms execution_ms)
        ≡ on_miss
            (ltb_ℤ deadline end)
            (d.lt nought delay_ms)
            (d.lt (d.of_int (pos 1)) execution_ms)
            (tally s)
  unfolding update_miss_statistics
  miss-tally end deadline delay_ms execution_ms = ground arith

module _ {W : Type 0} ⦃d : Double W⦄ (scheduler : Timing W) where
  -- What is asked of a cycle. The first test is the code's, that it starts a whole period or more after
  -- its scheduled time; `started_late` holds of one that starts after it at all.
  abbrev pub behind_schedule : Inputs W → Bool
  behind_schedule i = scheduler.has_backlog i.cycle_start i.scheduled_start

  abbrev pub far : Inputs W → Bool
  far i = d.le (d.of_int (pos 1)) (scheduler.backlog i.cycle_start i.scheduled_start)

  abbrev pub delay : Inputs W → W
  delay i = scheduler.scheduling_delay i.cycle_start i.scheduled_start

  abbrev pub missed : Inputs W → Bool
  missed i = ltb_ℤ (i.scheduled_start +ℤ control_period) i.actual_end

  abbrev pub started_late : Inputs W → Bool
  started_late i = d.lt nought (delay i)

  abbrev pub overran : Inputs W → Bool
  overran i = d.lt (d.of_int (pos 1)) (execution_time i.cycle_start i.actual_end)

  -- What a cycle makes of the counters.
  pub counted : Inputs W → Tally → Tally
  counted i t =
      on_miss (missed i) (started_late i) (overran i)
        (on_class (delay i) (on_delay (behind_schedule i) (far i) (on_processor i.processor t)))

  update_statistics-tally :
      (i : Inputs W) (s : Statistics W)
      → tally (update_statistics scheduler i s) ≡ counted i (tally s)
  unfolding counted update_statistics update_control_statistics update_snapshot_statistics
      update_execution_statistics
  update_statistics-tally i s =
      miss-tally _ _ _ _ _
      ∙ ap (on_miss (missed i) (started_late i) (overran i)) (
          deadline-tally _ _ _ _
          ∙ scheduling-tally _ _
          ∙ ap (on_class (delay i)) (
              inter_cycle-tally _ _ _
              ∙ delay-tally _ _ _ _ _
              ∙ ap (on_delay (behind_schedule i) (far i))
                  (period-tally _ _ ∙ processor-tally s i.processor)))

  -- The counters after some cycles.
  pub after : List (Inputs W) → Tally → Tally
  after [] t = t
  after (i ∷ rest) t = after rest (counted i t)

  pub measure-tally :
      (cycles : List (Inputs W)) (s : Statistics W)
      → tally (measure scheduler cycles s) ≡ after cycles (tally s)
  unfolding measure after
  measure-tally [] s = refl
  measure-tally (i ∷ rest) s = measure-tally rest _ ∙ ap (after rest) (update_statistics-tally i s)

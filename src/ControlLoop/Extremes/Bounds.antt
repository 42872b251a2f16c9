-- ===== src/ControlLoop/Extremes/Bounds.antt =====
-- The periods, gaps and margins that the statistics report after some cycles.
use robot_controller.Prelude.{◌≤◌, ◌≡◌, false, List, [], ◌∷◌, All, ◌-ℤ◌, arith}
use robot_controller.Double.{Double, IsOrdered}
use robot_controller.Scheduler.Portable.{milliseconds}
use robot_controller.ControlLoop.Statistics.{Statistics, Timing}
use robot_controller.ControlLoop.Cycle.{Inputs}
use robot_controller.ControlLoop.Maxima.{measure, lt-greater_old}
use robot_controller.ControlLoop.Extremes.{
  Marks, marks, period, gap, margin, Spans, Spaced, Kept, lesser, marked, after, measure-marks,
}

module _ {W : Type 0} ⦃d : Double W⦄ (laws : IsOrdered W) where
  open d use {lt, le}

  lt-lesser : (value least : W) → lt value (lesser value least) ≡ false
  lt-lesser value least = ground (arith, laws.lt_irrefl value)

  lt-lesser_old : (value least x : W) → lt x least ≡ false → lt x (lesser value least) ≡ false
  lt-lesser_old value least x h = ground (
    arith,
    laws.lt_numbers value least,
    laws.lt_numbers x value,
    laws.le_of_lt_false least x,
    laws.le_of_lt value least,
    laws.le_trans value least x,
    laws.lt_of_le value x,
  )

  marked-Kept : (i : Inputs W) (m : Marks W) → Kept (marked i m) i
  unfolding marked
  marked-Kept i m = ground (arith, laws.lt_irrefl (margin i))

  marked-Kept_old : (i j : Inputs W) (m : Marks W) → 1 ≤ m.cycles → Kept m i → Kept (marked j m) i
  unfolding marked
  marked-Kept_old i j m some kept = ground (arith, lt-lesser_old (margin j) m.min_margin (margin i))

  marked-Spans :
      (i j : Inputs W) (m : Marks W)
      → 1 ≤ m.cycles
      → m.previous ≡ i.cycle_start
      → m.previous_end ≡ i.actual_end
      → Spans (marked j m) i j
  unfolding marked
  marked-Spans i j m some start end = record {
    least = ground (arith, laws.lt_irrefl (period i j));
    greatest = ground (arith, laws.lt_irrefl (period i j));
    widest = ground (arith, laws.lt_irrefl (gap i j));
  }

  marked-Spans_old :
      (i j k : Inputs W) (m : Marks W) → 2 ≤ m.cycles → Spans m i j → Spans (marked k m) i j
  unfolding marked
  marked-Spans_old i j k m some spans = record {
    least = ground (
      arith,
      lt-lesser_old (milliseconds (k.cycle_start -ℤ m.previous)) m.min_period (period i j),
      spans.least,
    );
    greatest = ground (
      arith,
      lt-greater_old laws (milliseconds (k.cycle_start -ℤ m.previous)) m.max_period (period i j),
      spans.greatest,
    );
    widest = ground (
      arith,
      lt-greater_old laws (milliseconds (k.cycle_start -ℤ m.previous_end)) m.max_gap (gap i j),
      spans.widest,
    );
  }

  after-Kept :
      (rest : List (Inputs W)) (i : Inputs W) (m : Marks W)
      → 1 ≤ m.cycles
      → Kept m i
      → Kept (after rest m) i
  unfolding after marked
  after-Kept [] i m some kept = kept
  after-Kept (j ∷ rest) i m some kept =
      after-Kept rest i (marked j m) (ground arith) (marked-Kept_old i j m some kept)

  after-All : (cycles : List (Inputs W)) (m : Marks W) → All (Kept (after cycles m)) cycles
  unfolding after marked
  after-All [] m = tt
  after-All (i ∷ rest) m =
      (after-Kept rest i (marked i m) (ground arith) (marked-Kept i m), after-All rest (marked i m))

  after-Spans :
      (rest : List (Inputs W)) (i j : Inputs W) (m : Marks W)
      → 2 ≤ m.cycles
      → Spans m i j
      → Spans (after rest m) i j
  unfolding after marked
  after-Spans [] i j m some spans = spans
  after-Spans (k ∷ rest) i j m some spans =
      after-Spans rest i j (marked k m) (ground arith) (marked-Spans_old i j k m some spans)

  -- From the marks after the first of the cycles.
  after-Spaced :
      (rest : List (Inputs W)) (i : Inputs W) (m : Marks W)
      → 1 ≤ m.cycles
      → m.previous ≡ i.cycle_start
      → m.previous_end ≡ i.actual_end
      → Spaced (after rest m) (i ∷ rest)
  unfolding after marked
  after-Spaced [] i m some start end = tt
  after-Spaced (j ∷ rest) i m some start end = (
    after-Spans rest i j (marked j m) (ground arith) (marked-Spans i j m some start end),
    after-Spaced rest j (marked j m) (ground arith) (ground arith) (ground arith),
  )

  cycles-Spaced : (cycles : List (Inputs W)) (m : Marks W) → Spaced (after cycles m) cycles
  unfolding after marked
  cycles-Spaced [] m = tt
  cycles-Spaced (i ∷ rest) m =
      after-Spaced rest i (marked i m) (ground arith) (ground arith) (ground arith)

  -- After any cycles no time between the starts of two that follow one another is below the least
  -- period that the statistics report or above the greatest one, and no time from the end of one to the
  -- start of the next is above the greatest gap, by the test `<`; no cycle has a margin to its deadline
  -- below the least margin reported.
  pub measure-Spaced :
      (scheduler : Timing W) (cycles : List (Inputs W)) (s : Statistics W)
      → let m = marks (measure scheduler cycles s) in Spaced m cycles × All (Kept m) cycles
  measure-Spaced scheduler cycles s =
      rw (measure-marks scheduler cycles s)
        (cycles-Spaced cycles (marks s), after-All cycles (marks s))

-- ===== src/ControlLoop/Tally/Totals.antt =====
-- The counters that the statistics report after some cycles.
use robot_controller.Prelude.{ℕ, ◌+◌, ◌≤◌, ◌≡◌, ap, ◌∙◌, ◌&&◌, not, List, arith}
use robot_controller.Double.{Double}
use robot_controller.ControlLoop.Statistics.{Statistics, Timing, new_statistics}
use robot_controller.ControlLoop.Cycle.{Inputs}
use robot_controller.ControlLoop.Maxima.{measure}
use robot_controller.ControlLoop.Tally.{
  Tally, tally, under_100us, up_to_1ms, up_to_5ms, up_to_10ms, over_10ms, behind_schedule, far,
  delay, missed, started_late, overran, after, measure-tally,
}
use robot_controller.ControlLoop.Tally.Sums.{
  count, longest, run, run-longest, greater_of, changes, known_processors, after-Counts,
  after-longest, after-changes,
}

greater_run : (r m : ℕ) → r ≤ m → greater_of (greater_of 0 (0 + r)) m ≡ m
greater_run r m h = ground arith

from_zero : {k m n : ℕ} → k ≡ m → m ≡ 0 + n → k ≡ n
from_zero e f = e ∙ omega (arith, f)

module _ {W : Type 0} ⦃d : Double W⦄ (scheduler : Timing W) where
  -- Each counter is what it is to count over a list of cycles. A deadline that is missed is put down to
  -- scheduling, execution or both by whether the cycle started late and whether it ran longer than a
  -- period, and to execution where neither is so.
  pub record IsTotal (cycles : List (Inputs W)) (s : Statistics W) : Type 0 where
    pub delayed : s.delayed_cycles ≡ count (behind_schedule scheduler) cycles
    pub in_a_row : s.max_consecutive_delayed_cycles ≡ longest (behind_schedule scheduler) cycles
    pub backlog :
        s.backlog_cycles ≡ count (λ i. behind_schedule scheduler i && far scheduler i) cycles
    pub misses : s.deadline_misses ≡ count (missed scheduler) cycles
    pub combined :
        s.combined_misses
        ≡ count (λ i. missed scheduler i && started_late scheduler i && overran scheduler i) cycles
    pub scheduling :
        s.scheduling_misses
        ≡ count
            (λ i. missed scheduler i && started_late scheduler i && not (overran scheduler i))
            cycles
    pub execution :
        s.execution_misses
        ≡ count (λ i. missed scheduler i && not (started_late scheduler i)) cycles
    pub under : s.delay_under_100us ≡ count (λ i. under_100us (delay scheduler i)) cycles
    pub to_1ms : s.delay_100us_to_1ms ≡ count (λ i. up_to_1ms (delay scheduler i)) cycles
    pub to_5ms : s.delay_1ms_to_5ms ≡ count (λ i. up_to_5ms (delay scheduler i)) cycles
    pub to_10ms : s.delay_5ms_to_10ms ≡ count (λ i. up_to_10ms (delay scheduler i)) cycles
    pub over : s.delay_over_10ms ≡ count (λ i. over_10ms (delay scheduler i)) cycles
    pub processors : s.processor_changes ≡ changes (known_processors cycles)

  abbrev zero_tally : Tally
  zero_tally = tally (new_statistics {W = W})

  total_longest :
      (cycles : List (Inputs W))
      → (after scheduler cycles zero_tally).longest ≡ longest (behind_schedule scheduler) cycles
  total_longest cycles =
      after-longest scheduler cycles zero_tally (omega arith)
      ∙ greater_run (run (behind_schedule scheduler) cycles)
          (longest (behind_schedule scheduler) cycles)
          (run-longest (behind_schedule scheduler) cycles)

  after-IsTotal :
      (cycles : List (Inputs W)) (s : Statistics W)
      → tally s ≡ after scheduler cycles zero_tally
      → IsTotal cycles s
  after-IsTotal cycles s e =
      let c = after-Counts scheduler cycles zero_tally in
      record {
        delayed = from_zero (ap Tally.delayed e) c.delayed;
        in_a_row = ap Tally.longest e ∙ total_longest cycles;
        backlog = from_zero (ap Tally.backlog e) c.backlog;
        misses = from_zero (ap Tally.misses e) c.misses;
        combined = from_zero (ap Tally.combined e) c.combined;
        scheduling = from_zero (ap Tally.scheduling e) c.scheduling;
        execution = from_zero (ap Tally.execution e) c.execution;
        under = from_zero (ap Tally.under_100us e) c.under_100us;
        to_1ms = from_zero (ap Tally.up_to_1ms e) c.up_to_1ms;
        to_5ms = from_zero (ap Tally.up_to_5ms e) c.up_to_5ms;
        to_10ms = from_zero (ap Tally.up_to_10ms e) c.up_to_10ms;
        over = from_zero (ap Tally.over_10ms e) c.over_10ms;
        processors = from_zero (ap Tally.changes e) (after-changes scheduler cycles zero_tally);
      }

  -- After any cycles, whatever the scheduler and the clock say in them, each counter of the statistics is
  -- what its name says of the whole list: the delayed cycles and the greatest number of them in a row,
  -- those among them with a backlog of a millisecond or more, the missed deadlines and each of their
  -- three kinds, the cycles in each of the five classes of delay, and how often two known processors that
  -- follow one another differ.
  pub measure-IsTotal :
      (cycles : List (Inputs W)) → IsTotal cycles (measure scheduler cycles new_statistics)
  measure-IsTotal cycles = after-IsTotal cycles _ (measure-tally scheduler cycles new_statistics)

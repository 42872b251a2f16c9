-- ===== src/Report/Counters.antt =====
-- The counters in the report of the timing.
use Prim.Native.String.{String}
use text.Mathlib.Text
use robot_controller.Prelude.{
  ℕ, ◌+◌, ◌≤◌, ◌≡◌, refl, Option, none, some, List, [], ◌∷◌, ltb, arith, false, if◌then◌else◌,
}
use robot_controller.Double.{Double}
use robot_controller.ControlLoop.Statistics.{Statistics}
use robot_controller.ControlLoop.Counts.{IsCounted}
use robot_controller.Report.{Token, print_timing_statistics}

module _ {W : Type 0} where
  -- The count that follows a label.
  abbrev first_count : List (Token W) → Option ℕ
  first_count (Token.count n ∷ rest) = some n
  first_count _ = none

  abbrev pub read_count : String → List (Token W) → Option ℕ
  read_count label [] = none
  read_count label (Token.text t ∷ rest) =
      let later = read_count label rest in if Text.◌==◌ t label then first_count rest else later
  read_count label (_ ∷ rest) = read_count label rest

  -- The count that a label has in an output, as a number.
  abbrev pub Shows : List (Token W) → String → ℕ → Type 0
  Shows out label n = read_count label out ≡ some n

-- An output in which each label of a counter is followed by a number, and the numbers fit together:
-- the five classes of delay add up to `n` and the three kinds of misses to the missed deadlines; the
-- longest run of delayed cycles and the cycles with backlog are at most the delayed cycles; delayed
-- cycles, missed deadlines and changes of processor are at most `n`.
pub record IsReport {W : Type 0} (n : ℕ) (out : List (Token W)) : Type 0 where
  pub under_100us : ℕ
  pub up_to_1ms : ℕ
  pub up_to_5ms : ℕ
  pub up_to_10ms : ℕ
  pub over_10ms : ℕ
  pub delayed : ℕ
  pub longest : ℕ
  pub backlog : ℕ
  pub misses : ℕ
  pub scheduling : ℕ
  pub execution : ℕ
  pub combined : ℕ
  pub processors : ℕ
  pub shows_delays :
      Shows out "Scheduling delay < 0.1 ms: " under_100us
      × Shows out "Scheduling delay 0.1-1 ms: " up_to_1ms
      × Shows out "Scheduling delay 1-5 ms: " up_to_5ms
      × Shows out "Scheduling delay 5-10 ms: " up_to_10ms
      × Shows out "Scheduling delay >= 10 ms: " over_10ms
  pub shows_delayed :
      Shows out "Delayed cycles: " delayed
      × Shows out "Maximum consecutive delayed cycles: " longest
      × Shows out "Cycles with >= 1 ms backlog: " backlog
  pub shows_misses :
      Shows out "Deadline misses: " misses
      × Shows out "Scheduling misses: " scheduling
      × Shows out "Execution misses: " execution
      × Shows out "Combined misses: " combined
  pub shows_processors : Shows out "Processor changes: " processors
  pub delays_total : under_100us + up_to_1ms + up_to_5ms + up_to_10ms + over_10ms ≡ n
  pub misses_total : scheduling + execution + combined ≡ misses
  pub longest_bound : longest ≤ delayed
  pub backlog_bound : backlog ≤ delayed
  pub bounds : (delayed ≤ n) × (misses ≤ n) × (processors ≤ n)

module _ {W : Type 0} ⦃d : Double W⦄ where
  -- The report of at least two cycles, from statistics whose counters are in agreement, shows counters
  -- that fit together for the number of cycles.
  pub print_timing_statistics-IsReport :
      (max_wake_lateness : W) (s : Statistics W)
      → IsCounted s
      → 2 ≤ s.measured_cycles
      → IsReport s.measured_cycles (print_timing_statistics max_wake_lateness s)
  unfolding print_timing_statistics
  print_timing_statistics-IsReport max_wake_lateness s counted enough =
      let printed : ltb s.measured_cycles 2 ≡ false = ground arith in
      record {
        under_100us = s.delay_under_100us;
        up_to_1ms = s.delay_100us_to_1ms;
        up_to_5ms = s.delay_1ms_to_5ms;
        up_to_10ms = s.delay_5ms_to_10ms;
        over_10ms = s.delay_over_10ms;
        delayed = s.delayed_cycles;
        longest = s.max_consecutive_delayed_cycles;
        backlog = s.backlog_cycles;
        misses = s.deadline_misses;
        scheduling = s.scheduling_misses;
        execution = s.execution_misses;
        combined = s.combined_misses;
        processors = s.processor_changes;
        shows_delays = rw printed (refl, refl, refl, refl, refl);
        shows_delayed = rw printed (refl, refl, refl);
        shows_misses = rw printed (refl, refl, refl, refl);
        shows_processors = rw printed refl;
        delays_total = counted.delays;
        misses_total = counted.misses;
        longest_bound = counted.longest;
        backlog_bound = counted.backlog;
        bounds = (counted.delayed, counted.missed, counted.processors);
      }

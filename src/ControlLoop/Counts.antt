-- ===== src/ControlLoop/Counts.antt =====
-- How the counters of the statistics relate to one another.
use robot_controller.Prelude.{ℕ, ◌+◌, ◌≤◌, ◌≡◌, Bool, ℤ, arith}
use robot_controller.Double.{Double}
use robot_controller.ControlLoop.Statistics.{
  Statistics, Timing, new_statistics, update_processor_statistics, update_period_statistics,
  update_delay_statistics, update_control_statistics, update_snapshot_statistics,
  update_inter_cycle_statistics, update_scheduling_statistics, update_deadline_statistics,
  update_execution_statistics, update_miss_statistics,
}
use robot_controller.ControlLoop.Cycle.{Inputs, update_statistics}

module _ {W : Type 0} where
  -- The counters within a cycle: `p`, `q` and `r` bound the cycles with a change of processor, a delay
  -- and a missed deadline, and `h` cycles have their delay classed.
  pub record IsCounting (n p q r h : ℕ) (s : Statistics W) : Type 0 where
    pub measured : s.measured_cycles ≡ n
    pub delays :
        s.delay_under_100us + s.delay_100us_to_1ms + s.delay_1ms_to_5ms + s.delay_5ms_to_10ms
          + s.delay_over_10ms
        ≡ h
    pub misses : s.scheduling_misses + s.execution_misses + s.combined_misses ≡ s.deadline_misses
    pub missed : s.deadline_misses ≤ r
    pub consecutive : s.consecutive_delayed_cycles ≤ s.max_consecutive_delayed_cycles
    pub longest : s.max_consecutive_delayed_cycles ≤ s.delayed_cycles
    pub delayed : s.delayed_cycles ≤ q
    pub backlog : s.backlog_cycles ≤ s.delayed_cycles
    pub processors : s.processor_changes ≤ p

  -- Every measured cycle has one class of delay and every missed deadline one kind; runs of delayed
  -- cycles consist of delayed cycles, and backlog is counted on delayed cycles alone; no counter
  -- exceeds the measured cycles.
  abbrev pub IsCounted : Statistics W → Type 0
  IsCounted s = let n = s.measured_cycles in IsCounting n n n n n s

module _ {W : Type 0} where
  -- The end of a cycle.
  cycle-IsCounted :
      {n : ℕ} (s : Statistics W)
      → IsCounting n (n + 1) (n + 1) (n + 1) (n + 1) s
      → IsCounted (record s { measured_cycles = s.measured_cycles + 1 })
  cycle-IsCounted c = ground arith

module _ {W : Type 0} ⦃d : Double W⦄ {n p q r h : ℕ} (s : Statistics W) where
  processor-IsCounting :
      (processor : ℤ)
      → IsCounting n p q r h s
      → IsCounting n (p + 1) q r h (update_processor_statistics s processor)
  unfolding update_processor_statistics
  processor-IsCounting processor c = ground arith

  period-IsCounting :
      (start : ℤ) → IsCounting n p q r h s → IsCounting n p q r h (update_period_statistics s start)
  unfolding update_period_statistics
  period-IsCounting start c = ground arith

  delay-IsCounting :
      (scheduler : Timing W) (behind : Bool) (start scheduled : ℤ)
      → IsCounting n p q r h s
      → IsCounting n p (q + 1) r h (update_delay_statistics scheduler s behind start scheduled)
  unfolding update_delay_statistics
  delay-IsCounting scheduler behind start scheduled c = ground arith

  control-IsCounting :
      (start end : ℤ)
      → IsCounting n p q r h s
      → IsCounting n p q r h (update_control_statistics s start end)
  unfolding update_control_statistics
  control-IsCounting start end c = ground arith

  snapshot-IsCounting :
      (start end : ℤ)
      → IsCounting n p q r h s
      → IsCounting n p q r h (update_snapshot_statistics s start end)
  unfolding update_snapshot_statistics
  snapshot-IsCounting start end c = ground arith

  inter_cycle-IsCounting :
      (start end : ℤ)
      → IsCounting n p q r h s
      → IsCounting n p q r h (update_inter_cycle_statistics s start end)
  unfolding update_inter_cycle_statistics
  inter_cycle-IsCounting start end c = ground arith

  scheduling-IsCounting :
      (delay_ms : W)
      → IsCounting n p q r h s
      → IsCounting n p q r (h + 1) (update_scheduling_statistics s delay_ms)
  unfolding update_scheduling_statistics
  scheduling-IsCounting delay_ms c = ground arith

  deadline-IsCounting :
      (deadline end : ℤ) (measured : ℕ)
      → IsCounting n p q r h s
      → IsCounting n p q r h (update_deadline_statistics s deadline end measured)
  unfolding update_deadline_statistics
  deadline-IsCounting deadline end measured c = ground arith

  execution-IsCounting :
      (start end : ℤ)
      → IsCounting n p q r h s
      → IsCounting n p q r h (update_execution_statistics s start end).0
  unfolding update_execution_statistics
  execution-IsCounting start end c = ground arith

  miss-IsCounting :
      (end deadline : ℤ) (delay_ms execution_ms : W)
      → IsCounting n p q r h s
      → IsCounting n p q (r + 1) h (update_miss_statistics s end deadline delay_ms execution_ms)
  unfolding update_miss_statistics
  miss-IsCounting end deadline delay_ms execution_ms c = ground arith

module _ {W : Type 0} ⦃d : Double W⦄ where
  pub new_statistics-IsCounted : IsCounted (new_statistics {W = W})
  new_statistics-IsCounted = ground arith

  update_statistics_cases :
      (scheduler : Timing W) (i : Inputs W) (s : Statistics W)
      → IsCounted s
      → IsCounted (update_statistics scheduler i s)
        × ((update_statistics scheduler i s).measured_cycles ≡ s.measured_cycles + 1)
  unfolding update_statistics
  update_statistics_cases scheduler i s c0 =
      let c1 = processor-IsCounting s i.processor c0 in
      let c2 = period-IsCounting _ i.cycle_start c1 in
      let c3 = delay-IsCounting _ scheduler _ _ _ c2 in
      let c4 = control-IsCounting _ i.control_start i.control_end c3 in
      let c5 = snapshot-IsCounting _ i.snapshot_start i.snapshot_end c4 in
      let c6 = inter_cycle-IsCounting _ i.cycle_start i.actual_end c5 in
      let c7 = scheduling-IsCounting _ _ c6 in
      let c8 = deadline-IsCounting _ _ _ _ c7 in
      let c9 = execution-IsCounting _ i.cycle_start i.actual_end c8 in
      let c10 = miss-IsCounting _ i.actual_end _ _ _ c9 in
      (cycle-IsCounted _ c10, omega (arith, c10.measured))

  -- Every cycle, whatever the scheduler and the clock say, keeps the counters in agreement: the five
  -- classes of delay add up to the measured cycles, the three kinds of misses to the missed deadlines;
  -- the current run of delayed cycles is at most the longest one, this at most the delayed cycles, and
  -- so are the cycles with backlog; delayed cycles, missed deadlines and changes of processor are at
  -- most the measured cycles.
  pub update_statistics-IsCounted :
      (scheduler : Timing W) (i : Inputs W) (s : Statistics W)
      → IsCounted s
      → IsCounted (update_statistics scheduler i s)
  update_statistics-IsCounted scheduler i s c = (update_statistics_cases scheduler i s c).0

  pub measured_cycles-update_statistics :
      (scheduler : Timing W) (i : Inputs W) (s : Statistics W)
      → IsCounted s
      → (update_statistics scheduler i s).measured_cycles ≡ s.measured_cycles + 1
  measured_cycles-update_statistics scheduler i s c = (update_statistics_cases scheduler i s c).1

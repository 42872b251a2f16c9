-- ===== src/ControlLoop/Statistics.antt =====
-- The statistics of src/control/ControlLoop.cpp. Counters of type `int` are natural numbers: they
-- overflow after 2^31 cycles, which is not modelled.
use robot_controller.Prelude.{
  ℕ, ◌+◌, Bool, ◌&&◌, ◌||◌, ◌==◌, ltb, ℤ, pos, negsuc, ◌-ℤ◌, leb_ℤ, ltb_ℤ, if◌then◌else◌,
}
use robot_controller.Double.{Double}
use robot_controller.Types.{nought}
use robot_controller.Scheduler.Portable
use robot_controller.Scheduler.Portable.{PortableControlScheduler, milliseconds}

pub record Statistics (W : Type 0) : Type 0 where
  pub previous_cycle : ℤ
  pub min_period : W
  pub max_period : W
  pub total_period : W
  pub max_execution_time : W
  pub max_control_time : W
  pub max_snapshot_time : W
  pub max_inter_cycle_gap : W
  pub previous_cycle_end : ℤ
  pub max_scheduling_delay : W
  pub min_deadline_margin : W
  pub measured_cycles : ℕ
  pub delayed_cycles : ℕ
  pub max_backlog : W
  pub backlog_cycles : ℕ
  pub consecutive_delayed_cycles : ℕ
  pub max_consecutive_delayed_cycles : ℕ
  pub deadline_misses : ℕ
  pub scheduling_misses : ℕ
  pub execution_misses : ℕ
  pub combined_misses : ℕ
  pub delay_under_100us : ℕ
  pub delay_100us_to_1ms : ℕ
  pub delay_1ms_to_5ms : ℕ
  pub delay_5ms_to_10ms : ℕ
  pub delay_over_10ms : ℕ
  pub processor_changes : ℕ
  pub previous_processor : ℤ

-- What the loop uses of `IControlScheduler` apart from the wait, as functions of the actual and the
-- scheduled start.
pub record Timing (W : Type 0) : Type 0 where
  pub has_backlog : ℤ → ℤ → Bool
  pub scheduling_delay : ℤ → ℤ → W
  pub backlog : ℤ → ℤ → W

-- These functions of any of the schedulers, which inherit them from the portable one.
abbrev pub timing : {W : Type 0} ⦃d : Double W⦄ → PortableControlScheduler → Timing W
timing s = record {
  has_backlog = Portable.has_backlog s;
  scheduling_delay = Portable.scheduling_delay s;
  backlog = Portable.backlog s;
}

unfoldable pub update_processor_statistics : {W : Type 0} → Statistics W → ℤ → Statistics W
update_processor_statistics s processor =
    if leb_ℤ (pos 0) processor
    then (if leb_ℤ (pos 0) s.previous_processor
          && (ltb_ℤ processor s.previous_processor || ltb_ℤ s.previous_processor processor)
        then record s {
          processor_changes = s.processor_changes + 1;
          previous_processor = processor;
        }
        else record s { previous_processor = processor })
    else s

module _ {W : Type 0} ⦃d : Double W⦄ where
  open d use {lt, le, add, of_int, decimal}

  -- The members as declared; a time point that is not set is the clock's epoch.
  abbrev pub new_statistics : Statistics W
  new_statistics = record {
    previous_cycle = pos 0;
    min_period = nought;
    max_period = nought;
    total_period = nought;
    max_execution_time = nought;
    max_control_time = nought;
    max_snapshot_time = nought;
    max_inter_cycle_gap = nought;
    previous_cycle_end = pos 0;
    max_scheduling_delay = nought;
    min_deadline_margin = nought;
    measured_cycles = 0;
    delayed_cycles = 0;
    max_backlog = nought;
    backlog_cycles = 0;
    consecutive_delayed_cycles = 0;
    max_consecutive_delayed_cycles = 0;
    deadline_misses = 0;
    scheduling_misses = 0;
    execution_misses = 0;
    combined_misses = 0;
    delay_under_100us = 0;
    delay_100us_to_1ms = 0;
    delay_1ms_to_5ms = 0;
    delay_5ms_to_10ms = 0;
    delay_over_10ms = 0;
    processor_changes = 0;
    previous_processor = negsuc 0;
  }

  -- `if (value > greatest) greatest = value;`
  abbrev pub greater : W → W → W
  greater value greatest = if lt greatest value then value else greatest

  unfoldable pub update_period_statistics : Statistics W → ℤ → Statistics W
  update_period_statistics s cycle_start =
      let period_ms = milliseconds (cycle_start -ℤ s.previous_cycle) in
      if ltb 0 s.measured_cycles
      then record s {
        min_period =
            if (s.measured_cycles == 1) || lt period_ms s.min_period
            then period_ms
            else s.min_period;
        max_period = greater period_ms s.max_period;
        total_period = add s.total_period period_ms;
        previous_cycle = cycle_start;
      }
      else record s { previous_cycle = cycle_start }

  unfoldable pub update_delay_statistics : Timing W → Statistics W → Bool → ℤ → ℤ → Statistics W
  update_delay_statistics scheduler s behind_schedule cycle_start scheduled_start =
      let consecutive = s.consecutive_delayed_cycles + 1 in
      let backlog_value = scheduler.backlog cycle_start scheduled_start in
      if behind_schedule
      then record s {
        delayed_cycles = s.delayed_cycles + 1;
        consecutive_delayed_cycles = consecutive;
        max_consecutive_delayed_cycles =
            if ltb s.max_consecutive_delayed_cycles consecutive
            then consecutive
            else s.max_consecutive_delayed_cycles;
        max_backlog = greater backlog_value s.max_backlog;
        -- `backlog >= control_period_`, in milliseconds
        backlog_cycles =
            if le (of_int (pos 1)) backlog_value then s.backlog_cycles + 1 else s.backlog_cycles;
      }
      else record s { consecutive_delayed_cycles = 0 }

  unfoldable pub update_control_statistics : Statistics W → ℤ → ℤ → Statistics W
  update_control_statistics s control_start control_end = record s {
    max_control_time = greater (milliseconds (control_end -ℤ control_start)) s.max_control_time;
  }

  unfoldable pub update_snapshot_statistics : Statistics W → ℤ → ℤ → Statistics W
  update_snapshot_statistics s snapshot_start snapshot_end = record s {
    max_snapshot_time = greater (milliseconds (snapshot_end -ℤ snapshot_start)) s.max_snapshot_time;
  }

  unfoldable pub update_inter_cycle_statistics : Statistics W → ℤ → ℤ → Statistics W
  update_inter_cycle_statistics s cycle_start cycle_end =
      if ltb 0 s.measured_cycles
      then record s {
        max_inter_cycle_gap =
            greater (milliseconds (cycle_start -ℤ s.previous_cycle_end)) s.max_inter_cycle_gap;
        previous_cycle_end = cycle_end;
      }
      else record s { previous_cycle_end = cycle_end }

  -- The five classes of delay.
  abbrev pub count_delay : Statistics W → W → Statistics W
  count_delay s delay_ms =
      if lt delay_ms (decimal 1 1)
      then record s { delay_under_100us = s.delay_under_100us + 1 }
      else if lt delay_ms (decimal 1 0)
      then record s { delay_100us_to_1ms = s.delay_100us_to_1ms + 1 }
      else if lt delay_ms (decimal 5 0)
      then record s { delay_1ms_to_5ms = s.delay_1ms_to_5ms + 1 }
      else if lt delay_ms (decimal 10 0)
      then record s { delay_5ms_to_10ms = s.delay_5ms_to_10ms + 1 }
      else record s { delay_over_10ms = s.delay_over_10ms + 1 }

  unfoldable pub update_scheduling_statistics : Statistics W → W → Statistics W
  update_scheduling_statistics s delay_ms =
      let counted = count_delay s delay_ms in
      record counted { max_scheduling_delay = greater delay_ms s.max_scheduling_delay }

  unfoldable pub update_deadline_statistics : Statistics W → ℤ → ℤ → ℕ → Statistics W
  update_deadline_statistics s deadline actual_end measured_cycles =
      let margin_ms = milliseconds (deadline -ℤ actual_end) in
      if (measured_cycles == 0) || lt margin_ms s.min_deadline_margin
      then record s { min_deadline_margin = margin_ms }
      else s

  -- The execution time in milliseconds.
  abbrev pub execution_time : ℤ → ℤ → W
  execution_time actual_start actual_end = milliseconds (actual_end -ℤ actual_start)

  unfoldable pub update_execution_statistics : Statistics W → ℤ → ℤ → Statistics W × W
  update_execution_statistics s actual_start actual_end =
      let execution_ms = execution_time actual_start actual_end in
      (record s { max_execution_time = greater execution_ms s.max_execution_time }, execution_ms)

  unfoldable pub update_miss_statistics : Statistics W → ℤ → ℤ → W → W → Statistics W
  update_miss_statistics s actual_end deadline delay_ms execution_ms =
      let scheduling_overrun = lt nought delay_ms in
      let execution_overrun = lt (of_int (pos 1)) execution_ms in
      let misses = s.deadline_misses + 1 in
      if ltb_ℤ deadline actual_end
      then (if scheduling_overrun && execution_overrun
          then record s { deadline_misses = misses; combined_misses = s.combined_misses + 1 }
          else if scheduling_overrun
          then record s { deadline_misses = misses; scheduling_misses = s.scheduling_misses + 1 }
          else record s { deadline_misses = misses; execution_misses = s.execution_misses + 1 })
      else s

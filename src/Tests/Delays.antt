-- ===== src/Tests/Delays.antt =====
-- A loop that starts 2.6 ms late and makes up half a millisecond in every cycle.
use robot_controller.Prelude.{◌+◌, ℕ, ◌≤◌, List, [], ◌∷◌, none, pos, refl, inl, inr, arith, ◌+ℤ◌}
use robot_controller.Double.Fixed.{Fixed, fixed_double}
use robot_controller.Scheduler.Portable.{new_scheduler}
use robot_controller.ControlLoop.Statistics.{timing, new_statistics}
use robot_controller.ControlLoop.Cycle.{Inputs}
use robot_controller.ControlLoop.Maxima.{measure}
use robot_controller.ControlLoop.Recovery.{recovery_bound}

-- A cycle of 0.4 ms.
abbrev cycle : ℕ → ℕ → Inputs Fixed
cycle scheduled start = record {
  scheduled_start = pos scheduled;
  cycle_start = pos start;
  processor = pos 0;
  control_start = pos start;
  can_command = none;
  control_end = pos (start + 200_000);
  snapshot_start = pos (start + 200_000);
  snapshot_end = pos (start + 300_000);
  actual_end = pos (start + 400_000);
}

abbrev others : List (Inputs Fixed)
others =
    cycle 2_000_000 4_100_000
    ∷ cycle 3_000_000 4_550_000
    ∷ cycle 4_000_000 5_000_000
    ∷ cycle 5_000_000 5_400_000
    ∷ cycle 6_000_000 6_050_000
    ∷ []

recovery_bound_example :
    let after =
      measure
        (timing (new_scheduler 1 (pos 0)))
        (cycle 1_000_000 3_600_000 ∷ others)
        new_statistics in
    (after.delayed_cycles ≤ 5) × (after.deadline_misses ≤ 5)
unfolding new_scheduler ◌+ℤ◌
recovery_bound_example =
    recovery_bound (new_scheduler 1 (pos 0)) 100_000 400_000 500_000 5 2_600_000
      (cycle 1_000_000 3_600_000) others refl refl (omega arith) (omega arith) (omega arith)
      (
        omega arith,
        record { scheduled = refl; started = inr (omega arith) },
        (
          omega arith,
          record { scheduled = refl; started = inr (omega arith) },
          (
            omega arith,
            record { scheduled = refl; started = inr (omega arith) },
            (
              omega arith,
              record { scheduled = refl; started = inr (omega arith) },
              (omega arith, record { scheduled = refl; started = inl (omega arith) }, omega arith),
            ),
          ),
        ),
      )

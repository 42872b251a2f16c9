-- ===== src/Snapshot.antt =====
-- src/synchronization/SnapshotBuffer.cpp: the robot's state, published by the control thread and read
-- by the monitoring side. `positions_[i]` is cell 2 * i, `velocities_[i]` is cell 2 * i + 1.
pub mod Read
use mathlib.Core.Option
use robot_controller.Prelude.{ℕ, ◌+◌, ◌*◌, Option, List, [], ◌∷◌}
use robot_controller.Double.{Double}
use robot_controller.Types.{JointState, RobotState, joint_count, angle, angular_velocity, nought}
use robot_controller.Seqlock
use robot_controller.Seqlock.{Write, Memory, History, max_read_attempts}

module _ {W : Type 0} where
  abbrev pub cells_of_state : RobotState W → List W
  cells_of_state [] = []
  cells_of_state (s ∷ rest) =
      s.position.degrees ∷ s.velocity.degrees_per_second ∷ cells_of_state rest

  -- The loop that fills `candidate`.
  abbrev pub candidate : List W → RobotState W
  candidate (p ∷ v ∷ rest) =
      record { position = angle p; velocity = angular_velocity v } ∷ candidate rest
  candidate _ = []

  unfoldable pub publish : RobotState W → List (Write W)
  publish state = Seqlock.publish (cells_of_state state)

abbrev pub cell_count : ℕ
cell_count = 2 * joint_count

module _ {W : Type 0} ⦃d : Double W⦄ where
  -- The buffer as declared.
  abbrev pub new_snapshot_buffer : Memory W
  new_snapshot_buffer = record {
    sequence = 0;
    cells =
        nought ∷ nought ∷ nought ∷ nought ∷ nought ∷ nought ∷ nought ∷ nought ∷ nought ∷ nought
        ∷ nought ∷ nought ∷ [];
  }

  -- `none` is `false`, with the caller's state unchanged.
  unfoldable pub read : History W → ℕ → Option (RobotState W)
  read h t = Option.map candidate (Seqlock.read nought cell_count max_read_attempts h t)

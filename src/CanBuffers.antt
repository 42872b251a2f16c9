-- ===== src/CanBuffers.antt =====
-- src/communication/CanCommandBuffer.cpp and CanStateBuffer.cpp: the latest command and the latest
-- state of joint 1, passed between the control thread and the communication thread. Both are sequence
-- locks with one and two cells. Their stores are `memory_order_relaxed`, unlike those of the snapshot
-- buffer: CanBuffers/Relaxed has the orders that this allows.
pub mod Relaxed
pub mod Held
use mathlib.Core.Option
use robot_controller.Prelude.{ℕ, Option, none, some, List, [], ◌∷◌}
use robot_controller.Double.{Double}
use robot_controller.Types.{JointCommand, JointState, angle, angular_velocity, nought}
use robot_controller.Seqlock
use robot_controller.Seqlock.{Write, Memory, History}

abbrev pub max_attempts : ℕ
max_attempts = 3

module _ {W : Type 0} where
  abbrev pub cells_of_command : JointCommand W → List W
  cells_of_command c = c.target_position.degrees ∷ []

  abbrev pub cells_of_state : JointState W → List W
  cells_of_state s = s.position.degrees ∷ s.velocity.degrees_per_second ∷ []

  unfoldable pub publish_command : JointCommand W → List (Write W)
  publish_command c = Seqlock.publish (cells_of_command c)

  unfoldable pub publish_state : JointState W → List (Write W)
  publish_state s = Seqlock.publish (cells_of_state s)

  abbrev pub command_of_cells : List W → Option (JointCommand W)
  command_of_cells (x ∷ []) = some (record { target_position = angle x })
  command_of_cells _ = none

  abbrev pub state_of_cells : List W → Option (JointState W)
  state_of_cells (p ∷ v ∷ []) = some (record { position = angle p; velocity = angular_velocity v })
  state_of_cells _ = none

module _ {W : Type 0} ⦃d : Double W⦄ where
  -- The buffers as declared.
  abbrev pub new_command_buffer : Memory W
  new_command_buffer = record { sequence = 0; cells = nought ∷ [] }

  abbrev pub new_state_buffer : Memory W
  new_state_buffer = record { sequence = 0; cells = nought ∷ nought ∷ [] }

  -- `none` is `false`, with the caller's value unchanged.
  unfoldable pub read_command : History W → ℕ → Option (JointCommand W)
  read_command h t = Option.bind (Seqlock.read nought 1 max_attempts h t) command_of_cells

  unfoldable pub read_state : History W → ℕ → Option (JointState W)
  read_state h t = Option.bind (Seqlock.read nought 2 max_attempts h t) state_of_cells

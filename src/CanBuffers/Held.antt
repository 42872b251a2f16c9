-- ===== src/CanBuffers/Held.antt =====
-- A command buffer at rest, and the command in it.
use mathlib.Core.Option
use mathlib.Core.Path.{subst}
use robot_controller.Prelude.{ℕ, ◌%◌, ◌≡◌, refl, ap, some, length, arith}
use robot_controller.Double.{Double}
use robot_controller.Types.{JointCommand, nought}
use robot_controller.Seqlock
use robot_controller.Seqlock.{Memory, perform_all}
use robot_controller.Seqlock.Quiet.{read_at_rest, perform_all-publish}
use robot_controller.CanBuffers.{cells_of_command, publish_command, read_command, command_of_cells}

module _ {W : Type 0} ⦃d : Double W⦄ where
  -- A buffer that holds a command.
  pub record Holds (m : Memory W) (c : JointCommand W) : Type 0 where
    pub cells : m.cells ≡ cells_of_command c
    pub even : m.sequence % 2 ≡ 0

  pub read-Holds :
      (m : Memory W) (c : JointCommand W) (t : ℕ) → Holds m c → read_command (λ _. m) t ≡ some c
  unfolding read_command Option.bind
  read-Holds m c t h =
      let found = ap (λ o. Option.bind o command_of_cells) (read_at_rest nought m 2 t h.even) in
      subst
        (λ xs.
          Option.bind (Seqlock.read nought (length xs) 3 (λ _. m) t) command_of_cells
          ≡ Option.bind (some xs) command_of_cells)
        h.cells found

  pub publish-Holds :
      (m : Memory W) (c old : JointCommand W)
      → Holds m old
      → Holds (perform_all (publish_command c) m) c
  unfolding publish_command
  publish-Holds m c old h =
      rw (perform_all-publish (cells_of_command c) m (ap length h.cells))
        (record { cells = refl; even = omega (arith, h.even) })

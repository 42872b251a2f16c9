-- ===== src/Snapshot/Read.antt =====
-- What a read of the robot's state returns.
use mathlib.Core.Option
use mathlib.Core.Option.{some-injective}
use robot_controller.Prelude.{
  ℕ, ◌+◌, ◌*◌, ◌%◌, ◌≤◌, ◌<◌, ◌≡◌, refl, sym, ap, ◌∙◌, inl, inr, Option-cases, some, [], ◌∷◌,
  length, arith,
}
use robot_controller.Double.{Double}
use robot_controller.Types.{RobotState, joint_count, nought}
use robot_controller.Seqlock
use robot_controller.Seqlock.{u64_mod, Memory, perform_all, max_read_attempts}
use robot_controller.Seqlock.Writer.{Machine}
use robot_controller.Seqlock.Reader.{IsRun, read-current}
use robot_controller.Seqlock.Quiet.{read-publish}
use robot_controller.Snapshot.{cells_of_state, candidate, publish, cell_count, read}

module _ {W : Type 0} where
  pub length-cells_of_state : (s : RobotState W) → length (cells_of_state s) ≡ 2 * length s
  length-cells_of_state [] = omega arith
  length-cells_of_state (j ∷ rest) = omega (arith, length-cells_of_state rest)

  candidate-cells_of_state : (s : RobotState W) → candidate (cells_of_state s) ≡ s
  candidate-cells_of_state [] = refl
  candidate-cells_of_state (j ∷ rest) = ap (λ r. j ∷ r) (candidate-cells_of_state rest)

module _ {W : Type 0} ⦃d : Double W⦄ where
  -- A state of six joints that is published without interruption is read back as it was, from a buffer
  -- in which no publication was under way.
  pub read-publish_state :
      (s : RobotState W) (m : Memory W) (t : ℕ)
      → length s ≡ joint_count
      → length m.cells ≡ cell_count
      → m.sequence % 2 ≡ 0
      → read (λ _. perform_all (publish s) m) t ≡ some s
  unfolding read publish
  read-publish_state s m t six size even =
      let count : length (cells_of_state s) ≡ cell_count = omega (arith, length-cells_of_state s) in
      let found = read-publish nought (cells_of_state s) m 2 t (size ∙ sym count) even in
      ap (Option.map candidate) (rw count at found) ∙ ap some (candidate-cells_of_state s)

  -- A read that succeeds, while the control thread publishes at any moments, returns no mixture of
  -- publications: it is the state of the last complete one at some moment of the read, so long as the
  -- sequence number has been advanced fewer than 2^64 times.
  pub read_not_torn :
      (at : ℕ → Machine W) (t : ℕ) (s : RobotState W)
      → IsRun cell_count at
      → ((u : ℕ) → (at u).additions < u64_mod)
      → read (λ u. (at u).memory) t ≡ some s
      → (u : ℕ) × (t ≤ u)
        × (u ≤ t + max_read_attempts * (cell_count + 2))
        × (s ≡ candidate (at u).current)
  unfolding read
  read_not_torn at t s run bounded e =
      elim (Option-cases
        (Seqlock.read nought cell_count max_read_attempts (λ u. (at u).memory) t)) [
          | inl failed ↦ absurd (cc (rw failed at e))
          | inr (values, found) ↦
              let (u, low, high, same) =
                read-current at run nought max_read_attempts t values bounded found in
              (u, low, high, some-injective _ _ (sym (rw found at e)) ∙ ap candidate same)
        ]

-- ===== src/CanBuffers/Relaxed.antt =====
-- The writes of the state buffer as `memory_order_relaxed` orders them: other threads may see the
-- stores before the first increment of the sequence number, and in any order. Only the last
-- increment, which is a release, comes after all others.
use mathlib.Core.Option
use robot_controller.Prelude.{ℕ, zero, suc, ◌≤◌, arith, ◌≡◌, refl, some, List, [], ◌∷◌, ◌++◌}
use robot_controller.Double.{Double}
use robot_controller.Types.{JointState}
use robot_controller.Seqlock
use robot_controller.Seqlock.{Write, advance, store, Memory, perform}
use robot_controller.CanBuffers.{cells_of_state, publish_state, read_state}

module _ {W : Type 0} where
  -- A write becomes visible, before or after others that are still to come; the last one only when
  -- no other is left.
  pub data Seen (m : Memory W) (pending : List (Write W)) : Memory W → List (Write W) → Type 0 where
    early :
        (before : List (Write W)) (w v : Write W) (after : List (Write W))
        → pending ≡ before ++ (w ∷ v ∷ after)
        → Seen m pending (perform w m) (before ++ (v ∷ after))
    last : (w : Write W) → pending ≡ w ∷ [] → Seen m pending (perform w m) []

  -- A buffer at a sequence of moments, at each of which at most one write becomes visible.
  pub data Visible : (history : ℕ → Memory W) (pending : List (Write W)) → ℕ → Type 0 where
    stop :
        {history : ℕ → Memory W} {pending : List (Write W)} {t : ℕ}
        → ((u : ℕ) → t ≤ u → history u ≡ history t)
        → Visible history pending t
    wait :
        {history : ℕ → Memory W} {pending : List (Write W)} {t : ℕ}
        → history (suc t) ≡ history t
        → Visible history pending (suc t)
        → Visible history pending t
    see :
        {history : ℕ → Memory W} {pending rest : List (Write W)} {t : ℕ}
        → Seen (history t) pending (history (suc t)) rest
        → Visible history rest (suc t)
        → Visible history pending t

module _ {W : Type 0} ⦃d : Double W⦄ where
  -- The velocity of `new` is seen before the sequence number changes.
  abbrev tearing : JointState W → JointState W → ℕ → Memory W
  tearing old new zero = record { sequence = 0; cells = cells_of_state old }
  tearing old new (suc zero) = record { sequence = 0; cells = cells_of_state old }
  tearing old new (suc (suc t)) = record {
    sequence = 0;
    cells = old.position.degrees ∷ new.velocity.degrees_per_second ∷ [];
  }

  tearing_rest : (old new : JointState W) (u : ℕ) → 2 ≤ u → tearing old new u ≡ tearing old new 2
  tearing_rest old new zero h = absurd (omega arith)
  tearing_rest old new (suc zero) h = absurd (omega arith)
  tearing_rest old new (suc (suc u)) h = refl

  -- With relaxed stores a read may succeed with a state that was never published: while `new` is
  -- published over `old`, for any two states, it may return the position of `old` with the velocity of
  -- `new`.
  pub torn_read :
      (old new : JointState W)
      → (history : ℕ → Memory W) × (history 0 ≡ record { sequence = 0; cells = cells_of_state old })
        × Visible history (publish_state new) 0
        × (read_state history 0
            ≡ some (record { position = old.position; velocity = new.velocity }))
  unfolding publish_state Seqlock.publish read_state Seqlock.read Seqlock.attempt Seqlock.load_cells
      perform Option.bind
  torn_read old new = (
    tearing old new,
    refl,
    wait refl (
        see
          (early (advance ∷ store 0 new.position.degrees ∷ [])
            (store 1 new.velocity.degrees_per_second) advance [] refl)
          (stop (tearing_rest old new))),
    refl,
  )

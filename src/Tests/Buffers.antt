-- ===== src/Tests/Buffers.antt =====
-- The sequence locks at concrete inputs.
use robot_controller.Prelude.{
  ◌++◌, ℕ, zero, suc, ◌+◌, ◌*◌, ◌≤◌, ◌<◌, ◌≡◌, refl, [], ◌∷◌, arith, some,
}
use robot_controller.Double.Fixed.{Fixed, fixed_double}
use robot_controller.Types.{JointState, RobotState, angle, angular_velocity}
use robot_controller.Seqlock
use robot_controller.Seqlock.{
  advance, stores, Memory, u64_mod, perform, perform_all, max_read_attempts,
}
use robot_controller.Seqlock.Writer.{
  Machine, Steps, here, then, begin, idle, storing, drain, Steps-drain, Inv,
}
use robot_controller.Seqlock.Reader.{IsRun}
use robot_controller.Seqlock.Failed.{Meets, read-Meets}
use robot_controller.Snapshot
use robot_controller.Snapshot.{cells_of_state, candidate, cell_count}
use robot_controller.Snapshot.Read.{read_not_torn}
use robot_controller.CanBuffers.{publish_state, read_state}
use robot_controller.CanBuffers
use robot_controller.CanBuffers.Relaxed.{torn_read, Visible}

abbrev x : ℕ → Fixed
x n = fixed_double.decimal n 0

abbrev joint_state : ℕ → ℕ → JointState Fixed
joint_state p v = record { position = angle (x p); velocity = angular_velocity (x v) }

abbrev six : ℕ → RobotState Fixed
six n =
    joint_state n 1
    ∷ joint_state n 2
    ∷ joint_state n 3
    ∷ joint_state n 4
    ∷ joint_state n 5
    ∷ joint_state n 6
    ∷ []

abbrev memory : Memory Fixed
memory = record { sequence = 0; cells = cells_of_state (six 0) }

abbrev quiet : Machine Fixed
quiet = record {
  memory = memory;
  pending = [];
  additions = 0;
  current = cells_of_state (six 0);
  next = cells_of_state (six 0);
}

-- A publication begins, and is complete at the next moment.
abbrev begun : Machine Fixed
begun = record quiet {
  pending = Seqlock.publish (cells_of_state (six 7));
  next = cells_of_state (six 7);
}

abbrev done : Machine Fixed
done = drain (Seqlock.publish (cells_of_state (six 7))) begun

abbrev moments : ℕ → Machine Fixed
moments zero = quiet
moments (suc t) = done

quiet-Inv : Inv cell_count quiet
quiet-Inv = record {
  sequence = refl;
  current_size = refl;
  next_size = refl;
  cells_size = refl;
  phase = idle refl (refl, refl);
}

moments-IsRun : IsRun cell_count moments
moments-IsRun = record { valid = quiet-Inv; steps = steps }
  where
    steps : (t : ℕ) → Steps cell_count (moments t) (moments (suc t))
    steps zero =
        Steps-drain (Seqlock.publish (cells_of_state (six 7))) begun refl
          (then here (begin (cells_of_state (six 7)) refl refl))
    steps (suc t) = here

few : (u : ℕ) → (moments u).additions < u64_mod
unfolding drain Seqlock.publish perform
few zero = omega arith
few (suc u) = omega arith

-- The first round of the read is overtaken by the publication; the second one succeeds.
overtaken : Snapshot.read (λ u. (moments u).memory) 0 ≡ some (six 7)
unfolding Snapshot.read Seqlock.read Seqlock.attempt Seqlock.duration Seqlock.load_cells drain
    Seqlock.publish perform
overtaken = refl

read_not_torn_example :
    (u : ℕ) × (0 ≤ u)
    × (u ≤ max_read_attempts * (cell_count + 2))
    × (six 7 ≡ candidate (moments u).current)
read_not_torn_example = read_not_torn moments 0 (six 7) moments-IsRun few overtaken

-- A writer that makes no step after the first of its publication.
abbrev stuck : Machine Fixed
stuck = record quiet {
  memory = record memory { sequence = 1 };
  pending = stores 0 (cells_of_state (six 7)) ++ (advance ∷ []);
  additions = 1;
  next = cells_of_state (six 7);
}

stuck-IsRun : IsRun cell_count (λ _. stuck)
stuck-IsRun = record {
  valid = record {
    sequence = refl;
    current_size = refl;
    next_size = refl;
    cells_size = refl;
    phase = storing 0 (cells_of_state (six 7)) refl refl refl;
  };
  steps = λ _. here;
}

read-Meets_example :
    let at : ℕ → Machine Fixed = λ _. stuck in
    (u v : ℕ) × (0 < u)
    × (u < v)
    × (u ≤ 0 + cell_count + 2)
    × (v ≤ u + cell_count + 2)
    × Meets at 0 (suc cell_count)
    × Meets at u (suc cell_count)
    × Meets at v (suc cell_count)
unfolding Seqlock.read Seqlock.attempt
read-Meets_example = read-Meets (λ _. stuck) stuck-IsRun (x 0) 0 refl

-- The velocity of the second state with the position of the first one.
torn_read_example :
    (history : ℕ → Memory Fixed) × (history 0
      ≡ record { sequence = 0; cells = CanBuffers.cells_of_state (joint_state 1 2) })
    × Visible history (publish_state (joint_state 3 4)) 0
    × (read_state history 0 ≡ some (joint_state 1 4))
torn_read_example = torn_read (joint_state 1 2) (joint_state 3 4)

-- ===== src/Joint/Limits.antt =====
-- What the configuration of a joint allows, and how the operations of the joint keep to it.
use robot_controller.Prelude.{◌≡◌, ◌⊎◌, inl, inr, Bool-cases, true, false, arith}
use robot_controller.Double.{Double, IsOrdered}
use robot_controller.Types.{Angle, angle, AngularAcceleration, angular_acceleration, nought}
use robot_controller.Joint.{
  Joint, motor_acceleration, set_target_position, initialize_position, set_acceleration,
}

module _ {W : Type 0} ⦃d : Double W⦄ where
  open d use {lt, le, neg, is_finite}

  -- The limits are an interval, a speed and an acceleration.
  pub record IsConfigured (j : Joint W) : Type 0 where
    pub positions : le j.min_position.degrees j.max_position.degrees ≡ true
    pub speed : le nought j.max_velocity.degrees_per_second ≡ true
    pub acceleration : le nought j.max_acceleration.degrees_per_second_squared ≡ true
    pub finite : is_finite j.max_acceleration.degrees_per_second_squared ≡ true

  -- `x` passes the tests that the code makes for a range. NaN passes them for every range.
  abbrev pub Passes : W → W → W → Type 0
  Passes lo hi x = (lt x lo ≡ false) × (lt hi x ≡ false)

  abbrev pub IsNanOrWithin : W → W → W → Type 0
  IsNanOrWithin lo hi x = (le x x ≡ false) ⊎ ((le lo x ≡ true) × (le x hi ≡ true))

  -- The position, the velocity and the motor command pass the tests of their limits.
  pub record IsWithin (j : Joint W) : Type 0 where
    pub position : Passes j.min_position.degrees j.max_position.degrees j.position.degrees
    pub velocity :
        let top = j.max_velocity.degrees_per_second in
        Passes (neg top) top j.velocity.degrees_per_second
    pub command :
        let top = j.max_acceleration.degrees_per_second_squared in
        Passes (neg top) top (motor_acceleration j).degrees_per_second_squared

  -- An accepted position or command passes the tests of the limits, and a refused one changes nothing.
  pub initialize_position-IsWithin :
      (j : Joint W) (p : Angle W) → IsWithin j → IsWithin (initialize_position j p).0
  unfolding initialize_position
  initialize_position-IsWithin j p w = ground arith

  pub set_acceleration-IsWithin :
      (j : Joint W) (a : AngularAcceleration W) → IsWithin j → IsWithin (set_acceleration j a).0
  unfolding set_acceleration
  set_acceleration-IsWithin j a w = ground arith

  pub set_target_position-IsWithin :
      (j : Joint W) (p : Angle W) → IsWithin j → IsWithin (set_target_position j p)
  unfolding set_target_position
  set_target_position-IsWithin j p w = ground arith

  pub initialize_position-IsConfigured :
      (j : Joint W) (p : Angle W) → IsConfigured j → IsConfigured (initialize_position j p).0
  unfolding initialize_position
  initialize_position-IsConfigured j p c = ground arith

  pub set_acceleration-IsConfigured :
      (j : Joint W) (a : AngularAcceleration W)
      → IsConfigured j
      → IsConfigured (set_acceleration j a).0
  unfolding set_acceleration
  set_acceleration-IsConfigured j a c = ground arith

  pub set_target_position-IsConfigured :
      (j : Joint W) (p : Angle W) → IsConfigured j → IsConfigured (set_target_position j p)
  unfolding set_target_position
  set_target_position-IsConfigured j p c = ground arith

  module _ (laws : IsOrdered W) where
    open laws use {lt_of_le, lt_irrefl, le_trans, neg_le, le_neg_zero, neg_zero_le}

    -- A range around 0.0.
    pub le-neg_nonpos : (top : W) → le nought top ≡ true → le (neg top) nought ≡ true
    le-neg_nonpos top h = le_trans _ (neg nought) _ (neg_le _ _ h) neg_zero_le

    pub le-neg_self : (top : W) → le nought top ≡ true → le (neg top) top ≡ true
    le-neg_self top h = le_trans _ nought _ (le-neg_nonpos top h) h

    -- What passes the tests for a range of numbers is in the range, or NaN.
    pub Passes-IsNanOrWithin :
        (lo hi x : W) → le lo lo ≡ true → le hi hi ≡ true → Passes lo hi x → IsNanOrWithin lo hi x
    Passes-IsNanOrWithin lo hi x low high (a, b) = elim (Bool-cases (le x x)) [
      | inr nan ↦ inl nan
      | inl number ↦
          inr (laws.le_of_lt_false lo x low number a, laws.le_of_lt_false x hi number high b)
    ]

    -- The zero command is always accepted.
    pub set_acceleration_zero :
        (j : Joint W)
        → IsConfigured j
        → set_acceleration j (angular_acceleration nought)
          ≡ (record j { motor = record { acceleration = angular_acceleration nought } }, true)
    unfolding set_acceleration
    set_acceleration_zero j c =
        let top = j.max_acceleration.degrees_per_second_squared in
        ground (
          arith,
          lt_of_le nought top c.acceleration,
          lt_of_le _ _ (le-neg_nonpos top c.acceleration),
        )

    -- NaN passes both guards of a joint: as a position it becomes the joint's position, and as a
    -- command it reaches the motor, although neither is within any limits.
    pub nan_accepted :
        (j : Joint W) (x : W)
        → le x x ≡ false
        → (initialize_position j (angle x) ≡ (record j { position = angle x }, true))
          × (set_acceleration j (angular_acceleration x)
              ≡ (record j { motor = record { acceleration = angular_acceleration x } }, true))
          × (le j.min_position.degrees x ≡ false)
          × (le x j.max_acceleration.degrees_per_second_squared ≡ false)
    unfolding initialize_position set_acceleration
    nan_accepted j x n = ground (
      arith,
      laws.lt_numbers x j.min_position.degrees,
      laws.lt_numbers j.max_position.degrees x,
      laws.lt_numbers j.max_acceleration.degrees_per_second_squared x,
      laws.lt_numbers x (neg j.max_acceleration.degrees_per_second_squared),
      laws.le_numbers j.min_position.degrees x,
      laws.le_numbers x j.max_acceleration.degrees_per_second_squared,
    )

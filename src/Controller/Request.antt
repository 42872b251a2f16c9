-- ===== src/Controller/Request.antt =====
-- What the controller may request, and what the safety layer makes of it.
use robot_controller.Prelude.{◌≡◌, ◌↔◌, true, false, inl, inr, Bool-cases, arith}
use robot_controller.Double.{Double, IsOrdered}
use robot_controller.Types.{JointState, JointCommand, nought}
use robot_controller.Joint.{Joint}
use robot_controller.Joint.Limits.{IsConfigured, le-neg_self}
use robot_controller.Safety.{validate}
use robot_controller.Controller.{PdController, unlimited, limited, calculate}

module _ {W : Type 0} ⦃d : Double W⦄ where
  open d use {le, is_finite}

  -- Whether the controller's own limit is one that the joint allows.
  pub record Fits (c : PdController W) (j : Joint W) : Type 0 where
    pub finite : is_finite c.max_acceleration.degrees_per_second_squared ≡ true
    pub nonneg : le nought c.max_acceleration.degrees_per_second_squared ≡ true
    pub below :
        le c.max_acceleration.degrees_per_second_squared
          j.max_acceleration.degrees_per_second_squared
        ≡ true

module _ {W : Type 0} ⦃d : Double W⦄ (laws : IsOrdered W) where
  open d use {lt, le, neg, is_finite}
  open laws use {
    lt_numbers, lt_of_le, le_of_lt_false, le_trans, finite_le, finite_between, neg_finite, neg_le,
  }

  -- A number is limited to the range.
  limited-bounds :
      (top x : W)
      → is_finite top ≡ true
      → le nought top ≡ true
      → le x x ≡ true
      → (le (neg top) (limited top x) ≡ true) × (le (limited top x) top ≡ true)
  limited-bounds top x f p n =
      let near = le-neg_self laws top p in
      let low = finite_le _ (neg_finite top f) in
      ground (
        arith,
        finite_le top f,
        le_of_lt_false x top n,
        le_of_lt_false (neg top) x low n,
        le_of_lt_false (neg top) top low,
        lt_of_le (neg top) top near,
      )

  -- NaN is handed on.
  limited-nan : (top x : W) → le x x ≡ false → limited top x ≡ x
  limited-nan top x n = ground (arith, lt_numbers top x, lt_numbers x (neg top))

  -- For a joint with well-formed limits, and a controller whose own limit is finite, not negative and
  -- allowed by the joint, the safety layer accepts the controller's request exactly when the
  -- controller's arithmetic did not give NaN.
  pub validate-calculate :
      (c : PdController W) (j : Joint W) (command : JointCommand W) (actual : JointState W)
      → IsConfigured j
      → Fits c j
      → let raw = unlimited c command actual in
        (validate j (calculate c command actual) ≡ true) ↔ (le raw raw ≡ true)
  unfolding validate calculate
  validate-calculate c j command actual conf fits = (
    λ h. elim (Bool-cases (le raw raw)) [
      | inl number ↦ number
      | inr n ↦ ground (arith, limited-nan top raw n, finite_le (limited top raw))
    ],
    λ n.
        let (low, high) = limited-bounds top raw fits.finite fits.nonneg n in
        ground (
          arith,
          finite_between (neg top) (limited top raw) top (neg_finite top fits.finite) fits.finite
              low high,
          le_trans (limited top raw) top limit high fits.below,
          le_trans (neg limit) (neg top) (limited top raw) (neg_le top limit fits.below) low,
        ),
  )
    where
      raw : W
      raw = unlimited c command actual

      top : W
      top = c.max_acceleration.degrees_per_second_squared

      limit : W
      limit = j.max_acceleration.degrees_per_second_squared

-- ===== src/Simulator/Numbers.antt =====
-- A simulated step computes with numbers alone, where it starts from numbers.
use robot_controller.Prelude.{
  ◌≡◌, ◌≤◌, ◌<◌, ◌^◌, ℕ, Bool, true, false, not, ◌&&◌, inl, inr, Bool-cases, if◌then◌else◌, arith,
}
use robot_controller.Double.{Double, IsOrdered, IsRounding, Within}
use robot_controller.Types.{Duration, nought}
use robot_controller.Joint.{Joint, motor_acceleration}
use robot_controller.Joint.Limits.{IsConfigured}
use robot_controller.Simulator.{
  clamp, free_distance, displacement, initial_velocity, unconstrained_velocity, final_velocity,
  new_position, advance,
}
use robot_controller.Simulator.Stops.{
  Settled, lower, upper, inside, settle-Settled, advance-IsConfigured,
}

module _ {W : Type 0} ⦃d : Double W⦄ where
  -- The configuration, the position and the velocity of a joint are numbers, of at most 180 degrees,
  -- 60 degrees/s and 30 degrees/s².
  pub record IsMeasured (j : Joint W) : Type 0 where
    pub configured : IsConfigured j
    pub lowest : Within 180 j.min_position.degrees
    pub highest : Within 180 j.max_position.degrees
    pub top : Within 60 j.max_velocity.degrees_per_second
    pub limit : Within 30 j.max_acceleration.degrees_per_second_squared
    pub position : Within 180 j.position.degrees
    pub velocity : Within 60 j.velocity.degrees_per_second

  -- So is its motor command.
  pub record IsNumeric (j : Joint W) : Type 0 where
    pub measured : IsMeasured j
    pub command : Within 30 (motor_acceleration j).degrees_per_second_squared

module _ {W : Type 0} ⦃d : Double W⦄ (laws : IsOrdered W) (rounding : IsRounding W) where
  open d use {lt, le, neg, add, sub, mul, decimal}
  open rounding use {decimal_within, neg_within, add_within, sub_within, mul_within}

  pub zero-Within : (m : ℕ) → m < 2 ^ 53 → Within {W = W} m nought
  zero-Within m small = decimal_within 0 0 m small (omega arith)

  Within-weaken : (m n : ℕ) (x : W) → m ≤ n → Within m x → Within n x
  Within-weaken m n x h (low, high) =
      let bound = laws.decimal_le m n h in
      (
        laws.le_trans _ (neg (decimal m 0)) _ (laws.neg_le _ _ bound) low,
        laws.le_trans _ (decimal m 0) _ high bound,
      )

  pub Within_between :
      (m : ℕ) (x lo hi : W)
      → Within m lo
      → Within m hi
      → le lo x ≡ true
      → le x hi ≡ true
      → Within m x
  Within_between m x lo hi (low, _) (_, high) a b =
      (laws.le_trans _ lo _ low a, laws.le_trans _ hi _ b high)

  pub Within-number : (m : ℕ) (x : W) → Within m x → le x x ≡ true
  Within-number m x (low, high) = (laws.le_numbers x (decimal m 0) high).0

  other_way : (x y : W) → le x x ≡ true → le y y ≡ true → le x y ≡ false → le y x ≡ true
  other_way x y h k e = ground (arith, laws.le_of_lt_false x y h k, laws.le_of_lt y x)

  -- A number between two limits, or one of them.
  clamp-Within :
      (m : ℕ) (x lo hi : W) → le x x ≡ true → Within m lo → Within m hi → Within m (clamp x lo hi)
  clamp-Within m x lo hi number low high = elim (Bool-cases (lt x lo)) [
    | inl a ↦ rw a low
    | inr a ↦ elim (Bool-cases (lt hi x)) [
      | inl b ↦ rw (a, b) high
      | inr b ↦
          rw (a, b)
            (Within_between m x lo hi low high
              (laws.le_of_lt_false lo x (Within-number m lo low) number a)
              (laws.le_of_lt_false x hi number (Within-number m hi high) b))
    ]
  ]

  half_Within : Within {W = W} 1 (decimal 5 1)
  half_Within = decimal_within 5 1 1 (omega arith) (omega arith)

  -- The distance within a second.
  free_distance-Within :
      (v a t : W) → Within 60 v → Within 30 a → Within 1 t → Within 90 (free_distance v a t)
  unfolding free_distance
  free_distance-Within v a t speed acceleration time =
      let along = mul_within v t 60 1 (omega arith) (omega arith) (omega arith) speed time in
      let halved =
        mul_within (decimal 5 1) a 1 30 (omega arith) (omega arith) (omega arith) half_Within
          acceleration in
      let once = mul_within _ t 30 1 (omega arith) (omega arith) (omega arith) halved time in
      let twice = mul_within _ t 30 1 (omega arith) (omega arith) (omega arith) once time in
      add_within _ _ 60 30 (omega arith) along twice

  if-Within : (m : ℕ) (b : Bool) (x y : W) → Within m x → Within m y → Within m (if b then x else y)
  if-Within m true x y h k = h
  if-Within m false x y h k = k

  -- The limit is reached within the step.
  reached-Within :
      (m : ℕ) (t elapsed x y : W) (further : Bool)
      → Within 1 elapsed
      → (Within 1 t → Within m x)
      → Within m y
      → Within m (if lt nought t && lt t elapsed && further then x else y)
  reached-Within m t elapsed x y further time reached otherwise =
      elim (Bool-cases (lt nought t && lt t elapsed && further)) [
        | inl h ↦
            let after : lt nought t ≡ true = ground (arith, h) in
            let before : lt t elapsed ≡ true = ground (arith, h) in
            rw h (
              reached (
                Within_between 1 t nought elapsed (zero-Within 1 (omega arith)) time
                  (laws.le_of_lt _ _ after) (laws.le_of_lt _ _ before)))
        | inr h ↦ rw h otherwise
      ]

  displacement-Within :
      (initial a elapsed top unconstrained final : W)
      → Within 60 initial
      → Within 30 a
      → Within 1 elapsed
      → Within 60 top
      → Within 60 final
      → Within 210 (displacement initial a elapsed top unconstrained final)
  unfolding displacement
  displacement-Within initial a elapsed top unconstrained final speed acceleration time fastest
        last =
      let backward = neg_within top 60 (omega arith) fastest in
      let target = if lt nought a then top else neg top in
      let target_speed = if-Within 60 (lt nought a) top (neg top) fastest backward in
      let along = λ (v : W) (h : Within 60 v).
        Within-weaken 60 210 (mul v elapsed) (omega arith)
          (mul_within v elapsed 60 1 (omega arith) (omega arith) (omega arith) h time) in
      let free =
        λ (t : W) (h : Within 1 t). free_distance-Within initial a t speed acceleration h in
      let split = λ (t : W) (h : Within 1 t).
        let left = sub_within elapsed t 1 1 (omega arith) time h in
        let capped =
          mul_within target (sub elapsed t) 60 2 (omega arith) (omega arith) (omega arith)
            target_speed left in
        add_within _ _ 90 120 (omega arith) (free t h) capped in
      if-Within 210 (lt nought elapsed && not (d.eq a nought)) _ _
        (if-Within 210 _ _ _ (along target target_speed) (
          reached-Within 210 (d.div (sub target initial) a) elapsed _ _ _ time (split _)
            (Within-weaken 90 210 _ (omega arith) (free elapsed time))))
        (along final last)

  -- What a step makes of the joint's velocity and position, before the stop at a position limit.
  velocity-Within :
      (j : Joint W) (elapsed : W)
      → IsNumeric j
      → Within 1 elapsed
      → Within 60 (initial_velocity j) × Within 60 (final_velocity j elapsed)
  velocity-Within j elapsed n time =
      let low = neg_within _ 60 (omega arith) n.measured.top in
      let initial =
        clamp-Within 60 j.velocity.degrees_per_second _ _ (Within-number 60 _ n.measured.velocity)
          low n.measured.top in
      let gained =
        mul_within _ elapsed 30 1 (omega arith) (omega arith) (omega arith) n.command time in
      let sum = add_within _ _ 60 30 (omega arith) initial gained in
      (initial, clamp-Within 60 _ _ _ (Within-number 90 _ sum) low n.measured.top)

  position-number :
      (j : Joint W) (elapsed : W)
      → IsNumeric j
      → Within 1 elapsed
      → le (new_position j elapsed) (new_position j elapsed) ≡ true
  position-number j elapsed n time =
      let (initial, final) = velocity-Within j elapsed n time in
      let moved =
        displacement-Within _ _ elapsed _ (unconstrained_velocity j elapsed) _ initial n.command
          time n.measured.top final in
      Within-number 390 _
        (add_within j.position.degrees _ 180 210 (omega arith) n.measured.position moved)

  Settled-IsNumeric :
      {j next : Joint W} {v p : W}
      → IsNumeric j
      → IsConfigured next
      → Within 60 v
      → le p p ≡ true
      → Settled laws j v p next
      → IsNumeric next
  Settled-IsNumeric {j} n c speed number (lower h) = record {
    measured = record {
      configured = c;
      lowest = n.measured.lowest;
      highest = n.measured.highest;
      top = n.measured.top;
      limit = n.measured.limit;
      position = n.measured.lowest;
      velocity = zero-Within 60 (omega arith);
    };
    command = zero-Within 30 (omega arith);
  }
  Settled-IsNumeric {j} n c speed number (upper h) = record {
    measured = record {
      configured = c;
      lowest = n.measured.lowest;
      highest = n.measured.highest;
      top = n.measured.top;
      limit = n.measured.limit;
      position = n.measured.highest;
      velocity = zero-Within 60 (omega arith);
    };
    command = zero-Within 30 (omega arith);
  }
  Settled-IsNumeric {j} {p = p} n c speed number (inside a b) = record {
    measured = record {
      configured = c;
      lowest = n.measured.lowest;
      highest = n.measured.highest;
      top = n.measured.top;
      limit = n.measured.limit;
      position =
          Within_between 180 p _ _ n.measured.lowest n.measured.highest
            (other_way p _ number (Within-number 180 _ n.measured.lowest) a)
            (other_way _ p (Within-number 180 _ n.measured.highest) number b);
      velocity = speed;
    };
    command = n.command;
  }

  -- A step of at most a second.
  pub advance-IsNumeric :
      (dt : Duration W) (j : Joint W) → Within 1 dt.seconds → IsNumeric j → IsNumeric (advance dt j)
  unfolding advance
  advance-IsNumeric dt j time n =
      Settled-IsNumeric n (unfold advance in advance-IsConfigured laws dt j n.measured.configured)
        (velocity-Within j dt.seconds n time).1 (position-number j dt.seconds n time)
        (settle-Settled laws j _ _ n.measured.configured)

-- ===== src/Simulator/Stops.antt =====
-- Where a step may leave a joint.
use robot_controller.Prelude.{◌≡◌, refl, ap, ◌⊎◌, inl, inr, Bool-cases, true, false, arith}
use robot_controller.Double.{Double, IsOrdered}
use robot_controller.Types.{Angle, Duration, angle, angular_velocity, angular_acceleration, nought}
use robot_controller.Joint.{Joint, simulate, set_acceleration}
use robot_controller.Joint.Limits.{
  IsConfigured, Passes, IsWithin, le-neg_self, le-neg_nonpos, set_acceleration_zero,
}
use robot_controller.Simulator.{clamp, settle, advance, final_velocity, new_position}

module _ {W : Type 0} ⦃d : Double W⦄ (laws : IsOrdered W) where
  open d use {lt, le, neg}
  open laws use {lt_irrefl, le_of_lt, lt_of_le}

  clamp-Passes : (v lo hi : W) → le lo hi ≡ true → Passes lo hi (clamp v lo hi)
  clamp-Passes v lo hi h = ground (arith, lt_irrefl lo, lt_irrefl hi, lt_of_le lo hi h)

  -- The joint at rest at `p`, with its motor command cleared.
  abbrev pub stopped : Joint W → Angle W → Joint W
  stopped j p = record j {
    position = p;
    velocity = angular_velocity nought;
    motor = record { acceleration = angular_acceleration nought };
  }

  stop-eq :
      (j : Joint W) (p : Angle W)
      → IsConfigured j
      → (set_acceleration (simulate j (angular_velocity nought) p) (angular_acceleration nought)).0
        ≡ stopped j p
  unfolding simulate
  stop-eq j p c =
      ap (λ r. r.0)
        (set_acceleration_zero laws (simulate j (angular_velocity nought) p) (ground arith))

  -- What `settle` does, and when.
  pub data Settled (j : Joint W) (v p : W) : Joint W → Type 0 where
    lower : le p j.min_position.degrees ≡ true → Settled j v p (stopped j j.min_position)
    upper : le j.max_position.degrees p ≡ true → Settled j v p (stopped j j.max_position)
    inside :
        le p j.min_position.degrees ≡ false
        → le j.max_position.degrees p ≡ false
        → Settled j v p (record j { position = angle p; velocity = angular_velocity v })

  pub settle-Settled : (j : Joint W) (v p : W) → IsConfigured j → Settled j v p (settle j v p)
  unfolding settle
  settle-Settled j v p c = elim (Bool-cases (le p j.min_position.degrees)) [
    | inl low ↦ rw (low, stop-eq j j.min_position c) (lower low)
    | inr a ↦ elim (Bool-cases (le j.max_position.degrees p)) [
      | inl high ↦ rw (a, high, stop-eq j j.max_position c) (upper high)
      | inr b ↦ rw (a, b) (unfold simulate in inside a b)
    ]
  ]

  -- What a step makes of a joint, from the position `p` and the velocity `v` that it would have if
  -- nothing stopped it: at or beyond a limit it is at rest at that limit, with its motor command
  -- cleared; strictly between the limits, or where `p` is NaN, it has moved.
  abbrev pub Stops : Joint W → W → W → Joint W → Type 0
  Stops j v p next =
      let moved : Joint W = record j { position = angle p; velocity = angular_velocity v } in
      ((le p j.min_position.degrees ≡ true) × (next ≡ stopped j j.min_position))
      ⊎ ((le j.max_position.degrees p ≡ true) × (next ≡ stopped j j.max_position))
      ⊎ ((lt j.min_position.degrees p ≡ true)
          × (lt p j.max_position.degrees ≡ true)
          × (next ≡ moved))
      ⊎ ((le p p ≡ false) × (next ≡ moved))

  -- One of two numbers is not at most the other: it is greater.
  lt_of_le_false : (x y : W) → le x x ≡ true → le y y ≡ true → le y x ≡ false → lt x y ≡ true
  lt_of_le_false x y number number' h = elim (Bool-cases (lt x y)) [
    | inl less ↦ less
    | inr e ↦ absurd (let at_most = laws.le_of_lt_false y x number' number e in cc)
  ]

  Settled-Stops :
      {j next : Joint W} {v p : W} → IsConfigured j → Settled j v p next → Stops j v p next
  Settled-Stops c (lower h) = inl (h, refl)
  Settled-Stops c (upper h) = inr (inl (h, refl))
  Settled-Stops {p = p} c (inside a b) = elim (Bool-cases (le p p)) [
    | inr nan ↦ inr (inr (inr (nan, refl)))
    | inl number ↦
        let (low, high) = laws.le_numbers _ _ c.positions in
        inr (inr (inl (lt_of_le_false _ p low number a, lt_of_le_false p _ number high b, refl)))
  ]

  -- A step of a joint with well-formed limits, from the position that the motion alone would bring it
  -- to: if that is at or below the lower limit the joint stops at the lower limit, if it is at or above
  -- the upper one at the upper limit, at rest and with its motor command cleared. If it is strictly
  -- between the limits, or NaN, the joint has that position and the final velocity, and its motor
  -- command is as it was. Nothing else of the joint changes.
  pub advance-Stops :
      (dt : Duration W) (j : Joint W)
      → IsConfigured j
      → Stops j (final_velocity j dt.seconds) (new_position j dt.seconds) (advance dt j)
  unfolding advance
  advance-Stops dt j c = Settled-Stops c (settle-Settled j _ _ c)

  pub zero-Passes : (top : W) → le nought top ≡ true → Passes (neg top) top nought
  zero-Passes top h = (lt_of_le (neg top) nought (le-neg_nonpos laws top h), lt_of_le nought top h)

  Settled-IsWithin :
      {j next : Joint W} {v p : W}
      → IsConfigured j
      → IsWithin j
      → Passes (neg j.max_velocity.degrees_per_second) j.max_velocity.degrees_per_second v
      → Settled j v p next
      → IsWithin next
  Settled-IsWithin c w v (lower h) = record {
    position = (lt_irrefl _, lt_of_le _ _ c.positions);
    velocity = zero-Passes _ c.speed;
    command = zero-Passes _ c.acceleration;
  }
  Settled-IsWithin c w v (upper h) = record {
    position = (lt_of_le _ _ c.positions, lt_irrefl _);
    velocity = zero-Passes _ c.speed;
    command = zero-Passes _ c.acceleration;
  }
  Settled-IsWithin {j} {p = p} c w v (inside a b) = record {
    position = ground (arith, le_of_lt p j.min_position.degrees, le_of_lt j.max_position.degrees p);
    velocity = v;
    command = w.command;
  }

  Settled-IsConfigured :
      {j next : Joint W} {v p : W} → IsConfigured j → Settled j v p next → IsConfigured next
  Settled-IsConfigured c (lower h) = ground arith
  Settled-IsConfigured c (upper h) = ground arith
  Settled-IsConfigured c (inside a b) = ground arith

  pub advance-IsConfigured :
      (dt : Duration W) (j : Joint W) → IsConfigured j → IsConfigured (advance dt j)
  unfolding advance
  advance-IsConfigured dt j c = Settled-IsConfigured c (settle-Settled j _ _ c)

  -- A step of any length keeps a joint within its limits.
  pub advance-IsWithin :
      (dt : Duration W) (j : Joint W) → IsConfigured j → IsWithin j → IsWithin (advance dt j)
  unfolding advance
  advance-IsWithin dt j c w =
      let top = j.max_velocity.degrees_per_second in
      Settled-IsWithin c w (clamp-Passes _ (neg top) top (le-neg_self laws top c.speed))
        (settle-Settled j _ _ c)

-- ===== src/Robot/Reach.antt =====
-- What holds of every robot that the program can bring about.
use robot_controller.Prelude.{
  ℕ, ◌≡◌, refl, ◌∙◌, true, inl, inr, Bool-cases, Option-cases, Bool, All, All-weaken, All-map,
  All-set, All-get_elem?, length, length-map, length-set, get_elem?, leb, map, arith,
}
use robot_controller.Double.{Double, IsOrdered}
use robot_controller.Types.{Angle, AngularAcceleration, Duration, JointIndex, nought}
use robot_controller.Joint.{
  Joint, new_joint, motor_acceleration, set_acceleration, set_target_position, initialize_position,
}
use robot_controller.Joint.Limits.{
  IsConfigured, IsWithin, Passes, IsNanOrWithin, Passes-IsNanOrWithin, le-neg_self,
  set_acceleration-IsWithin, set_acceleration-IsConfigured, initialize_position-IsWithin,
  initialize_position-IsConfigured, set_target_position-IsWithin, set_target_position-IsConfigured,
}
use robot_controller.Controller.{PdController}
use robot_controller.Simulator
use robot_controller.Simulator.{advance}
use robot_controller.Simulator.Stops.{zero-Passes, advance-IsConfigured, advance-IsWithin}
use robot_controller.Robot.{
  Robot, standard_joint, new_robot, on_joint, initialize_joint_position, set_joint_target_position,
  set_joint_acceleration, control, update,
}
use robot_controller.Robot.Cases.{control_cases}
use robot_controller.Robot.Safe.{control-IsConfigured}

module _ {W : Type 0} ⦃d : Double W⦄ where
  open d use {le}

  -- The public operations that change a robot.
  pub data Step (r : Robot W) : Robot W → Type 0 where
    initialize : (i : JointIndex) (p : Angle W) → Step r (initialize_joint_position r i p).0
    target : (i : JointIndex) (p : Angle W) → Step r (set_joint_target_position r i p).0
    accelerate :
        (i : JointIndex) (a : AngularAcceleration W) → Step r (set_joint_acceleration r i a).0
    tick : (dt : Duration W) → Step r (update r dt)

  pub data Reach : Robot W → Type 0 where
    start : Reach new_robot
    later : {r s : Robot W} → Reach r → Step r s → Reach s

  abbrev pub IsFit : Joint W → Type 0
  IsFit j = IsConfigured j × IsWithin j

  -- Six joints, each with well-formed limits, whose tests it passes.
  pub record IsValid (r : Robot W) : Type 0 where
    pub six : length r.joints ≡ 6
    pub fit : All IsFit r.joints

  -- The position, the velocity and the motor command are each NaN or within their limits.
  pub record IsBounded (j : Joint W) : Type 0 where
    pub position : IsNanOrWithin j.min_position.degrees j.max_position.degrees j.position.degrees
    pub velocity :
        let top = j.max_velocity.degrees_per_second in
        IsNanOrWithin (d.neg top) top j.velocity.degrees_per_second
    pub command :
        let top = j.max_acceleration.degrees_per_second_squared in
        IsNanOrWithin (d.neg top) top (motor_acceleration j).degrees_per_second_squared

module _ {W : Type 0} ⦃d : Double W⦄ (laws : IsOrdered W) where
  open d use {le}

  on_joint-IsValid :
      (r : Robot W) (i : JointIndex) (method : Joint W → Joint W × Bool)
      → ((j : Joint W) → IsFit j → IsFit (method j).0)
      → IsValid r
      → IsValid (on_joint r i method).0
  unfolding on_joint
  on_joint-IsValid r i method keep v = elim (Bool-cases (leb (length r.joints) i.value)) [
    | inl h ↦ rw h v
    | inr h ↦ elim (Option-cases (get_elem? r.joints i.value)) [
      | inl e ↦ rw (h, e) v
      | inr (j, e) ↦
          rw (h, e)
            (record {
              six = length-set r.joints i.value (method j).0 ∙ v.six;
              fit =
                  All-set IsFit r.joints i.value (method j).0 v.fit
                    (keep j (All-get_elem? IsFit r.joints i.value v.fit e));
            })
    ]
  ]

  control-IsFit : (c : PdController W) (j : Joint W) → IsFit j → IsFit (control c j)
  control-IsFit c j (conf, w) = (
    control-IsConfigured laws c j conf,
    control_cases IsWithin c j (λ a. set_acceleration-IsWithin j a w),
  )

  update-IsValid : (r : Robot W) (dt : Duration W) → IsValid r → IsValid (update r dt)
  unfolding update Simulator.update
  update-IsValid r dt v = elim (Bool-cases (le dt.seconds nought)) [
    | inl h ↦ rw h (record { six = length-map _ r.joints ∙ v.six; fit = controlled })
    | inr h ↦ rw h (record {
      six = length-map _ _ ∙ length-map _ r.joints ∙ v.six;
      fit =
          All-map IsFit IsFit (advance dt)
            (λ j p. (advance-IsConfigured laws dt j p.0, advance-IsWithin laws dt j p.0 p.1)) _
            controlled;
    })
  ]
    where
      controlled : All IsFit (map (control r.controller) r.joints)
      controlled = All-map IsFit IsFit (control r.controller) (control-IsFit r.controller) _ v.fit

  Step-IsValid : {r s : Robot W} → Step r s → IsValid r → IsValid s
  unfolding initialize_joint_position set_joint_target_position set_joint_acceleration
  Step-IsValid {r} (initialize i p) v =
      on_joint-IsValid r i (λ j. initialize_position j p)
        (λ j f. (initialize_position-IsConfigured j p f.0, initialize_position-IsWithin j p f.1)) v
  Step-IsValid {r} (target i p) v =
      on_joint-IsValid r i (λ j. (set_target_position j p, true))
        (λ j f. (set_target_position-IsConfigured j p f.0, set_target_position-IsWithin j p f.1)) v
  Step-IsValid {r} (accelerate i a) v =
      on_joint-IsValid r i (λ j. set_acceleration j a)
        (λ j f. (set_acceleration-IsConfigured j a f.0, set_acceleration-IsWithin j a f.1)) v
  Step-IsValid {r} (tick dt) v = update-IsValid r dt v

  standard_joint-IsFit : (reach : ℕ) → IsFit (standard_joint {W = W} reach)
  unfolding standard_joint new_joint
  standard_joint-IsFit reach =
      let top : le nought (d.decimal 60 0) ≡ true = laws.decimal_le 0 60 (omega arith) in
      let limit : le nought (d.decimal 30 0) ≡ true = laws.decimal_le 0 30 (omega arith) in
      let far : le nought (d.decimal reach 0) ≡ true = laws.decimal_le 0 reach (omega arith) in
      (
        record {
          positions = le-neg_self laws _ far;
          speed = top;
          acceleration = limit;
          finite = laws.decimal_finite 30 (omega arith);
        },
        record {
          position = zero-Passes laws _ far;
          velocity = zero-Passes laws _ top;
          command = zero-Passes laws _ limit;
        },
      )

  new_robot-IsValid : IsValid (new_robot {W = W})
  unfolding new_robot
  new_robot-IsValid = record {
    six = refl;
    fit = (
      standard_joint-IsFit 180,
      (
        standard_joint-IsFit 90,
        (
          standard_joint-IsFit 180,
          (standard_joint-IsFit 180, (standard_joint-IsFit 90, (standard_joint-IsFit 180, tt))),
        ),
      ),
    );
  }

  pub Reach-IsValid : {r : Robot W} → Reach r → IsValid r
  Reach-IsValid start = new_robot-IsValid
  Reach-IsValid (later h st) = Step-IsValid st (Reach-IsValid h)

  around :
      (top x : W)
      → le nought top ≡ true
      → Passes (d.neg top) top x
      → IsNanOrWithin (d.neg top) top x
  around top x h passes =
      let (low, high) = laws.le_numbers _ _ (le-neg_self laws top h) in
      Passes-IsNanOrWithin laws _ top x low high passes

  fit-IsBounded : (j : Joint W) → IsFit j → IsConfigured j × IsBounded j
  fit-IsBounded j (c, w) =
      let (low, high) = laws.le_numbers _ _ c.positions in
      (
        c,
        record {
          position = Passes-IsNanOrWithin laws _ _ _ low high w.position;
          velocity = around _ _ c.speed w.velocity;
          command = around _ _ c.acceleration w.command;
        },
      )

  -- Every robot that the public operations can make of a new one has six joints with well-formed
  -- limits; the position, the velocity and the motor command of a joint are each NaN or within its
  -- limits.
  pub Reach-IsBounded :
      {r : Robot W}
      → Reach r
      → (length r.joints ≡ 6) × All (λ (j : Joint W). IsConfigured j × IsBounded j) r.joints
  Reach-IsBounded reached =
      let v = Reach-IsValid reached in (v.six, All-weaken _ _ fit-IsBounded _ v.fit)

-- ===== src/Robot/Config.antt =====
-- The limits of the joints, which no operation changes.
use robot_controller.Prelude.{
  ◌≡◌, refl, sym, ap, ap₂, ◌∙◌, inl, inr, Bool-cases, Option-cases, List, [], ◌∷◌, map, length,
  get_elem?, set, leb, Bool, true, arith, ℕ, zero, suc, some,
}
use robot_controller.Double.{Double}
use robot_controller.Types.{
  Angle, AngularVelocity, AngularAcceleration, Duration, JointIndex, nought,
}
use robot_controller.Joint.{
  Joint, set_acceleration, set_target_position, initialize_position, simulate,
}
use robot_controller.Controller.{PdController}
use robot_controller.Simulator
use robot_controller.Simulator.{settle, advance}
use robot_controller.Robot.{
  Robot, new_robot, on_joint, initialize_joint_position, set_joint_target_position,
  set_joint_acceleration, control, update,
}
use robot_controller.Robot.Cases.{control_cases, settle_cases}
use robot_controller.Robot.Reach.{Step, initialize, target, accelerate, tick, Reach, start, later}

pub record Config (W : Type 0) : Type 0 where
  pub min_position : Angle W
  pub max_position : Angle W
  pub max_velocity : AngularVelocity W
  pub max_acceleration : AngularAcceleration W

module _ {W : Type 0} where
  abbrev pub config : Joint W → Config W
  config j = record {
    min_position = j.min_position;
    max_position = j.max_position;
    max_velocity = j.max_velocity;
    max_acceleration = j.max_acceleration;
  }

  map-config :
      (f : Joint W → Joint W)
      → ((j : Joint W) → config (f j) ≡ config j)
      → (joints : List (Joint W)) → map config (map f joints) ≡ map config joints
  map-config f same [] = refl
  map-config f same (j ∷ rest) = ap₂ ◌∷◌ (same j) (map-config f same rest)

  map-config-set :
      (joints : List (Joint W)) (i : ℕ) (j old : Joint W)
      → get_elem? joints i ≡ some old
      → config j ≡ config old
      → map config (set joints i j) ≡ map config joints
  map-config-set [] i j old e same = refl
  map-config-set (k ∷ rest) zero j old e same =
      let here : k ≡ old = cc in ap (λ c. c ∷ map config rest) (same ∙ ap config (sym here))
  map-config-set (k ∷ rest) (suc i) j old e same =
      ap (λ cs. config k ∷ cs) (map-config-set rest i j old e same)

module _ {W : Type 0} ⦃d : Double W⦄ where
  open d use {le}

  set_acceleration-config :
      (j : Joint W) (a : AngularAcceleration W) → config (set_acceleration j a).0 ≡ config j
  unfolding set_acceleration
  set_acceleration-config j a = ground arith

  initialize_position-config :
      (j : Joint W) (p : Angle W) → config (initialize_position j p).0 ≡ config j
  unfolding initialize_position
  initialize_position-config j p = ground arith

  control-config : (c : PdController W) (j : Joint W) → config (control c j) ≡ config j
  control-config c j = control_cases (λ k. config k ≡ config j) c j (set_acceleration-config j)

  settle-config : (j : Joint W) (v p : W) → config (settle j v p) ≡ config j
  unfolding simulate
  settle-config j v p =
      settle_cases (λ k. config k ≡ config j) j v p (λ q. set_acceleration-config _ _) refl

  advance-config : (dt : Duration W) (j : Joint W) → config (advance dt j) ≡ config j
  unfolding advance
  advance-config dt j = settle-config j _ _

  on_joint-config :
      (r : Robot W) (i : JointIndex) (method : Joint W → Joint W × Bool)
      → ((j : Joint W) → config (method j).0 ≡ config j)
      → map config (on_joint r i method).0.joints ≡ map config r.joints
  unfolding on_joint
  on_joint-config r i method same = elim (Bool-cases (leb (length r.joints) i.value)) [
    | inl h ↦ rw h
    | inr h ↦ elim (Option-cases (get_elem? r.joints i.value)) [
      | inl e ↦ rw (h, e)
      | inr (j, e) ↦ rw (h, e) (map-config-set r.joints i.value (method j).0 j e (same j))
    ]
  ]

  update-config :
      (r : Robot W) (dt : Duration W) → map config (update r dt).joints ≡ map config r.joints
  unfolding update Simulator.update
  update-config r dt =
      let controlled = map-config (control r.controller) (control-config r.controller) r.joints in
      elim (Bool-cases (le dt.seconds nought)) [
        | inl h ↦ rw h controlled
        | inr h ↦ rw h (map-config (advance dt) (advance-config dt) _ ∙ controlled)
      ]

  Step-config : {r s : Robot W} → Step r s → map config s.joints ≡ map config r.joints
  unfolding initialize_joint_position set_joint_target_position set_joint_acceleration
      set_target_position
  Step-config {r} (initialize i p) =
      on_joint-config r i (λ j. initialize_position j p) (λ j. initialize_position-config j p)
  Step-config {r} (target i p) =
      on_joint-config r i (λ j. (set_target_position j p, true)) (λ j. refl)
  Step-config {r} (accelerate i a) =
      on_joint-config r i (λ j. set_acceleration j a) (λ j. set_acceleration-config j a)
  Step-config {r} (tick dt) = update-config r dt

  -- No operation changes a limit: every robot that the operations can make of a new one has its limits.
  pub Reach-config :
      {r : Robot W} → Reach r → map config r.joints ≡ map config (new_robot {W = W}).joints
  Reach-config start = refl
  Reach-config (later reached st) = Step-config st ∙ Reach-config reached

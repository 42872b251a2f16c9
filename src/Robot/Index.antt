-- ===== src/Robot/Index.antt =====
-- Which joint an indexed operation reaches.

use robot_controller.Prelude.{
  ℕ, zero, suc, ◌≡◌, refl, Bool, false, true, inl, inr, Bool-cases, Option-cases, Option, none,
  some, List, [], ◌∷◌, length, get_elem?, set, leb, ◌==◌, arith, if◌then◌else◌,
}
use robot_controller.Double.{Double}
use robot_controller.Types.{JointIndex}
use robot_controller.Joint.{Joint}
use robot_controller.Robot.{Robot, on_joint}

get_elem?-set {ℓ} :
    {A : Type ℓ} (xs : List A) (i k : ℕ) (v x : A)
    → get_elem? xs i ≡ some x
    → get_elem? (set xs i v) k ≡ (if i == k then some v else get_elem? xs k)
get_elem?-set [] i k v x e = cc
get_elem?-set (y ∷ ys) zero zero v x e = ground arith
get_elem?-set (y ∷ ys) zero (suc k) v x e = ground arith
get_elem?-set (y ∷ ys) (suc i) zero v x e = ground arith
get_elem?-set (y ∷ ys) (suc i) (suc k) v x e = ground (arith, get_elem?-set ys i k v x e)

get_elem?-eq_none {ℓ} :
    {A : Type ℓ} (xs : List A) (i : ℕ) → leb (length xs) i ≡ true → get_elem? xs i ≡ none
get_elem?-eq_none [] i h = refl
get_elem?-eq_none (y ∷ ys) zero h = absurd (ground arith)
get_elem?-eq_none (y ∷ ys) (suc i) h = get_elem?-eq_none ys i (ground arith)

module _ {W : Type 0} ⦃d : Double W⦄ where
  -- What the method makes of the joint at the index, and whether it reports success.
  abbrev effect : (Joint W → Joint W × Bool) → Option (Joint W) → Option (Joint W)
  effect method none = none
  effect method (some j) = some (method j).0

  abbrev reported : (Joint W → Joint W × Bool) → Option (Joint W) → Bool
  reported method none = false
  reported method (some j) = (method j).1

  -- An operation on an index reports what the joint's method reports, and fails where there is no
  -- such joint. It puts the method's joint in place, and leaves every other joint as it is.
  on_joint_lem :
      (r : Robot W) (i : JointIndex) (method : Joint W → Joint W × Bool) (k : ℕ)
      → let result = on_joint r i method in
        (result.1 ≡ reported method (get_elem? r.joints i.value))
        × (get_elem? result.0.joints k
            ≡ (if i.value == k then effect method (get_elem? r.joints k) else get_elem? r.joints k))
        × (result.0.controller ≡ r.controller)
  unfolding on_joint
  on_joint_lem r i method k = elim (Bool-cases (leb (length r.joints) i.value)) [
    | inl h ↦ let e = get_elem?-eq_none r.joints i.value h in ground (arith, e)
    | inr h ↦ elim (Option-cases (get_elem? r.joints i.value)) [
      | inl e ↦ ground (arith, e)
      | inr (j, e) ↦ ground (arith, e, get_elem?-set r.joints i.value k (method j).0 j e)
    ]
  ]

-- ===== src/Communication/Defined.antt =====
-- Where the conversions of the state codec are defined.
use robot_controller.Prelude.{
  ℕ, ◌+◌, ◌*◌, ◌^◌, ◌≤◌, ◌<◌, ◌≡◌, refl, ap, true, some, List, [], ◌∷◌, map, All, ℤ, pos_part,
  neg_part, arith,
}
use robot_controller.Double.{Double, IsOrdered, IsTruncating}
use robot_controller.Types.{JointState}
use robot_controller.Word.{int32_of_double}
use robot_controller.Word.Bits.{fits32_of_le}
use robot_controller.Joint
use robot_controller.Joint.{Joint, new_joint}
use robot_controller.Joint.Limits.{Passes}
use robot_controller.Robot
use robot_controller.Robot.{Robot, new_robot, standard_joint}
use robot_controller.Robot.Config.{config, Reach-config}
use robot_controller.Robot.Reach.{Reach, IsFit, Reach-IsValid}
use robot_controller.ControlLoop.Cycle.{first_state}

-- A state has a frame, for `position` and `velocity` in hundredths, cut to whole numbers.
pub record IsFrameOf {W : Type 0} ⦃d : Double W⦄ (s : JointState W) (position velocity : ℤ)
    : Type 0 where
  pub cut_position : int32_of_double (d.mul s.position.degrees (d.decimal 100 0)) ≡ some position
  pub cut_velocity :
      int32_of_double (d.mul s.velocity.degrees_per_second (d.decimal 100 0)) ≡ some velocity
  pub reach : pos_part position + neg_part position ≤ 18_000
  pub speed : pos_part velocity + neg_part velocity ≤ 6_000

abbrev pub Encodes : {W : Type 0} ⦃d : Double W⦄ → JointState W → Type 0
Encodes s = (position : ℤ) × (velocity : ℤ) × IsFrameOf s position velocity

module _ {W : Type 0} ⦃d : Double W⦄ (laws : IsOrdered W) (cut : IsTruncating W) where
  open d use {le, neg, mul, decimal, trunc}

  -- The hundredths of a number between -m and m fit 32 bits, for a small `m`.
  int32_of_double-hundredths :
      (x : W) (m : ℕ)
      → m * 100 < 2 ^ 31
      → le (neg (decimal m 0)) x ≡ true
      → le x (decimal m 0) ≡ true
      → (n : ℤ) × (int32_of_double (mul x (decimal 100 0)) ≡ some n)
        × (pos_part n + neg_part n ≤ m * 100)
  unfolding int32_of_double
  int32_of_double-hundredths x m small low high =
      let (low', high') = cut.mul_hundred x m (omega arith) low high in
      let (n, found, size) =
        cut.trunc_between (mul x (decimal 100 0)) (m * 100) (omega arith) low' high' in
      let fits = fits32_of_le n (omega arith) in (n, rw (found, fits) refl, size)

  -- A number that passes the tests of such limits is between them.
  between :
      (x : W) (m : ℕ)
      → m < 2 ^ 53
      → Passes (neg (decimal m 0)) (decimal m 0) x
      → le x x ≡ true
      → (le (neg (decimal m 0)) x ≡ true) × (le x (decimal m 0) ≡ true)
  between x m small (low, high) number =
      let top = laws.decimal_finite m small in
      (
        laws.le_of_lt_false _ _ (laws.finite_le _ (laws.neg_finite _ top)) number low,
        laws.le_of_lt_false _ _ number (laws.finite_le _ top) high,
      )

  -- The state of a joint within the limits of joint 1, with a position and a velocity that are numbers.
  encode_within :
      (j : Joint W)
      → Passes (neg (decimal 180 0)) (decimal 180 0) j.position.degrees
      → Passes (neg (decimal 60 0)) (decimal 60 0) j.velocity.degrees_per_second
      → le j.position.degrees j.position.degrees ≡ true
      → le j.velocity.degrees_per_second j.velocity.degrees_per_second ≡ true
      → Encodes (Joint.state j)
  unfolding Joint.state
  encode_within j position velocity number number' =
      let (a, b) = between j.position.degrees 180 (omega arith) position number in
      let (a', b') = between j.velocity.degrees_per_second 60 (omega arith) velocity number' in
      let (p, found, size) = int32_of_double-hundredths j.position.degrees 180 (omega arith) a b in
      let (v, found', size') =
        int32_of_double-hundredths j.velocity.degrees_per_second 60 (omega arith) a' b' in
      (p, v, record { cut_position = found; cut_velocity = found'; reach = size; speed = size' })

  -- Joint 1, of joints with the limits of a new robot's.
  encode_first :
      (joints : List (Joint W))
      → map config joints ≡ map config (new_robot {W = W}).joints
      → All IsFit joints
      → let s = first_state (map Joint.state joints) in
        le s.position.degrees s.position.degrees ≡ true
        → le s.velocity.degrees_per_second s.velocity.degrees_per_second ≡ true
        → Encodes s
  unfolding new_robot standard_joint new_joint Joint.state
  encode_first [] same fits number number' = absurd (cc)
  encode_first (j ∷ rest) same (fit, fits) number number' =
      let head : config j ≡ config (standard_joint 180) = cc in
      let w = fit.1 in
      encode_within j
        (rw (ap (λ c. c.min_position) head, ap (λ c. c.max_position) head) at w.position)
        (rw (ap (λ c. c.max_velocity) head) at w.velocity) number number'

  pub encode-Reach :
      {r : Robot W}
      → Reach r
      → let s = first_state (Robot.state r) in
        le s.position.degrees s.position.degrees ≡ true
        → le s.velocity.degrees_per_second s.velocity.degrees_per_second ≡ true
        → Encodes s
  unfolding Robot.state
  encode-Reach {r} reached number number' =
      encode_first r.joints (Reach-config reached) (Reach-IsValid laws reached).fit number number'

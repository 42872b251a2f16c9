-- ===== src/Program/Transmits.antt =====
-- What the program transmits.
use robot_controller.Prelude.{◌≡◌, refl, true, some, [], ◌∷◌, ◌++◌, ℤ, arith}
use robot_controller.Double.{Double, IsOrdered, IsTruncating, IsRounding}
use robot_controller.Types.{JointState, default_state}
use robot_controller.CanFrame.{CanFrame}
use robot_controller.Codec.State
use robot_controller.Codec.Trip.{decode-encode_state}
use robot_controller.Communication.{SimulatedCan, transmit_state}
use robot_controller.Communication.Defined.{IsFrameOf, Encodes, encode-Reach}
use robot_controller.ControlLoop.Cycle.{first_state}
use robot_controller.ControlLoop.Telemetry.{decoded}
use robot_controller.Robot
use robot_controller.Scheduler.Platform.{Platform, Boot}
use robot_controller.Program.{Program, Reach}
use robot_controller.Program.Run
use robot_controller.Program.Numbers.{Reach-AreNumbers}

module _ {W : Type 0} ⦃d : Double W⦄ where
  -- One frame more, which decodes to the position and the velocity of a state, cut to hundredths, of
  -- absolute values of at most 180 degrees and 60 degrees/s.
  pub record Reports (s : JointState W) (before after : SimulatedCan) : Type 0 where
    pub position : ℤ
    pub velocity : ℤ
    pub frame : CanFrame
    pub cut : IsFrameOf s position velocity
    pub queue : after ≡ before ++ (frame ∷ [])
    pub decodes : State.decode frame (default_state {W = W}) ≡ (decoded position velocity, true)

  transmit_some :
      (can : SimulatedCan) (s : JointState W) (frame : CanFrame)
      → State.encode s ≡ some frame
      → transmit_state can (some s) ≡ some (can ++ (frame ∷ []))
  unfolding transmit_state
  transmit_some can s frame e = ground (arith, e)

module _ {W : Type 0} ⦃d : Double W⦄ (laws : IsOrdered W) (cut : IsTruncating W)
    (rounding : IsRounding W) where
  reached_IsFrameOf :
      {platform : Platform} {b : Boot} {p : Program W}
      → Reach platform b p
      → Encodes (first_state (Robot.state p.loop.robot))
  reached_IsFrameOf reached =
      let (number, number') = Reach-AreNumbers laws rounding reached in
      encode-Reach laws cut (Run.Reach-Inv reached).sound.robot number number'

  frame_Reports :
      (can : SimulatedCan) (s : JointState W) (position velocity : ℤ)
      → IsFrameOf s position velocity
      → (after : SimulatedCan) × (transmit_state can (some s) ≡ some after) × Reports s can after
  frame_Reports can s position velocity fits =
      let (frame, encoded, back) =
        decode-encode_state s default_state position velocity fits.cut_position fits.cut_velocity in
      (
        can ++ (frame ∷ []),
        transmit_some can s frame encoded,
        record {
          position = position;
          velocity = velocity;
          frame = frame;
          cut = fits;
          queue = refl;
          decodes = back;
        },
      )

  pub reached_frame :
      {platform : Platform} {b : Boot} {p : Program W} (can : SimulatedCan)
      → Reach platform b p
      → let s = first_state (Robot.state p.loop.robot) in
        (after : SimulatedCan) × (transmit_state can (some s) ≡ some after) × Reports s can after
  reached_frame can reached =
      let (position, velocity, fits) = reached_IsFrameOf reached in
      frame_Reports can _ position velocity fits

  -- Whatever position and velocity joint 1 has had at two moments of the program, not always the same
  -- moment, since a read of the state buffer may mix two states: the conversion of a state that has the
  -- one and the other is defined, and transmitting it puts one frame more behind those that wait, which
  -- decodes to that position and that velocity, cut to hundredths, of absolute values of at most 180
  -- degrees and 60 degrees/s.
  pub mixed-Reports :
      {platform : Platform} {b : Boot} {p q : Program W} (can : SimulatedCan)
      → Reach platform b p
      → Reach platform b q
      → let s : JointState W = record {
        position = (first_state (Robot.state p.loop.robot)).position;
        velocity = (first_state (Robot.state q.loop.robot)).velocity;
      } in
        (after : SimulatedCan) × (transmit_state can (some s) ≡ some after) × Reports s can after
  mixed-Reports can reached reached' =
      let (position, _, fits) = reached_IsFrameOf reached in
      let (_, velocity, fits') = reached_IsFrameOf reached' in
      frame_Reports can _ position velocity (record {
        cut_position = fits.cut_position;
        cut_velocity = fits'.cut_velocity;
        reach = fits.reach;
        speed = fits'.speed;
      })

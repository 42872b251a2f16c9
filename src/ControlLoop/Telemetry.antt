-- ===== src/ControlLoop/Telemetry.antt =====
-- The state of joint 1 on its way from a cycle to the CAN transport.
use robot_controller.Prelude.{ℕ, ◌≡◌, refl, ap, ◌∙◌, true, some, [], ◌∷◌, ◌++◌, ℤ, arith}
use robot_controller.Double.{Double, IsOrdered, IsTruncating}
use robot_controller.Types.{JointState, angle, angular_velocity}
use robot_controller.CanFrame.{CanFrame}
use robot_controller.Codec.State
use robot_controller.Codec.Trip.{hundredths, decode-encode_state}
use robot_controller.CanBuffers.{read_state}
use robot_controller.Communication.{Communication, receive, accept_received, transmit_state, cycle}
use robot_controller.Communication.Defined.{IsFrameOf, encode-Reach}
use robot_controller.Robot
use robot_controller.Robot.{Robot}
use robot_controller.Robot.Reach.{Reach}
use robot_controller.ControlLoop.Statistics.{Timing}
use robot_controller.ControlLoop.Cycle.{ControlLoop, Inputs, update, first_state}
use robot_controller.ControlLoop.Published.{IsAtRest, read_state-publish}
use robot_controller.ControlLoop.Safe.{control_robot-Reach}

module _ {W : Type 0} ⦃d : Double W⦄ where
  -- What the decoder makes of the frame that a round of the communication thread transmits.
  abbrev pub decoded : ℤ → ℤ → JointState W
  decoded p v = record {
    position = angle (hundredths p);
    velocity = angular_velocity (hundredths v);
  }

  cycle-transmits :
      (c : Communication W) (s : JointState W) (frame : CanFrame)
      → State.encode s ≡ some frame
      → cycle c (some s)
        ≡ some (record {
          can = (receive c.can).1 ++ (frame ∷ []);
          commands = accept_received c.commands (receive c.can).0;
        })
  unfolding cycle transmit_state
  cycle-transmits c s frame e = ground (arith, e)

module _ {W : Type 0} ⦃d : Double W⦄ (laws : IsOrdered W) (cut : IsTruncating W) where
  -- After a cycle of the control loop, on a robot that the public operations can make, if the position
  -- and the velocity of joint 1 are numbers: a round of the communication thread that reads the state
  -- then, with no publication of a state under way before the cycle, has no undefined conversion. It
  -- puts one frame behind those that wait, and that frame decodes to the position and the velocity of
  -- joint 1, cut to hundredths, whose absolute values are at most 180 degrees and 60 degrees/s.
  cycle-update :
      (scheduler : Timing W) (i : Inputs W) (l : ControlLoop W) (c : Communication W) (t : ℕ)
      (old : JointState W)
      → Reach l.robot
      → IsAtRest 2 l.can_state
      → let next = update scheduler i l in
        let s = first_state (Robot.state next.robot) in
        d.le s.position.degrees s.position.degrees ≡ true
        → d.le s.velocity.degrees_per_second s.velocity.degrees_per_second ≡ true
        → (p : ℤ) × (v : ℤ) × (frame : CanFrame) × (c' : Communication W) × IsFrameOf s p v
          × (cycle c (read_state (λ _. next.can_state) t) ≡ some c')
          × (c'.can ≡ (receive c.can).1 ++ (frame ∷ []))
          × (State.decode frame old ≡ (decoded p v, true))
  unfolding update
  cycle-update scheduler i l c t old reached rest number number' =
      let s = first_state (Robot.state (update scheduler i l).robot) in
      let (p, v, fits) =
        encode-Reach laws cut (control_robot-Reach l.robot i.can_command reached) number number' in
      let (frame, encoded, back) =
        decode-encode_state s old p v fits.cut_position fits.cut_velocity in
      let next : Communication W = record {
        can = (receive c.can).1 ++ (frame ∷ []);
        commands = accept_received c.commands (receive c.can).0;
      } in
      (
        p,
        v,
        frame,
        next,
        fits,
        ap (cycle c) (read_state-publish s l.can_state t rest) ∙ cycle-transmits c s frame encoded,
        refl,
        back,
      )

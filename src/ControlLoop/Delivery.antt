-- ===== src/ControlLoop/Delivery.antt =====
-- A command on its way from the CAN transport to joint 1.
use mathlib.Core.Option
use robot_controller.Prelude.{
  ℕ, ◌≡◌, ap, ◌∙◌, Bool, true, false, Option, some, inl, inr, Option-cases, List, ◌∷◌, ℤ, arith,
}
use robot_controller.Double.{Double}
use robot_controller.Types.{JointCommand, JointState, angle, nought, default_command}
use robot_controller.CanFrame.{CanFrame}
use robot_controller.Word.{int32_of_double}
use robot_controller.Codec.Command
use robot_controller.Codec.Trip.{hundredths, decode-encode_command}
use robot_controller.Seqlock.{Memory, perform_all}
use robot_controller.Seqlock.Quiet.{read-publish}
use robot_controller.CanBuffers
use robot_controller.CanBuffers.{publish_command, read_command, command_of_cells}
use robot_controller.Communication.{Communication, accept, cycle, transmit_state}
use robot_controller.Robot.{Robot}
use robot_controller.ControlLoop.Cycle.{control_robot}
use robot_controller.ControlLoop.Command.{commands, retarget, control_robot-commands}
use robot_controller.ControlLoop.Published.{IsAtRest}

module _ {W : Type 0} ⦃d : Double W⦄ where
  open d use {decimal, mul}

  read_command-publish :
      (c : JointCommand W) (m : Memory W) (t : ℕ)
      → IsAtRest 1 m
      → read_command (λ _. perform_all (publish_command c) m) t ≡ some c
  unfolding read_command publish_command Option.bind
  read_command-publish c m t (size, even) =
      ap (λ o. Option.bind o command_of_cells)
        (read-publish nought (CanBuffers.cells_of_command c) m 2 t size even)

  pub accept-decoded :
      (frame : CanFrame) (c : JointCommand W) (m : Memory W)
      → Command.decode frame default_command ≡ (c, true)
      → accept m frame ≡ perform_all (publish_command c) m
  unfolding accept
  accept-decoded frame c m e =
      ap
        (λ (p : JointCommand W × Bool). elim p.1 as (λ _. Memory W) [
          | true ↦ perform_all (publish_command p.0) m
          | false ↦ m
        ])
        e

  cycle-commands :
      (can : List CanFrame) (frame : CanFrame) (m : Memory W) (observed : Option (JointState W))
      (c' : Communication W)
      → cycle (record { can = frame ∷ can; commands = m }) observed ≡ some c'
      → c'.commands ≡ accept m frame
  unfolding cycle
  cycle-commands can frame m observed c' e = elim (Option-cases (transmit_state can observed)) [
    | inl failed ↦ absurd (ground (arith, failed))
    | inr (frames, found) ↦ ground (arith, found)
  ]

  -- A command whose hundredths, cut to a whole number `n`, fit 32 bits, and whose frame is the next one
  -- on the transport: a round of the communication thread, with no publication of a command under way
  -- before it and no undefined conversion in it, and then a control cycle make n / 100 the target of
  -- joint 1, and leave the other targets as they were.
  pub cycle-control_robot :
      (command : JointCommand W) (n : ℤ) (frame : CanFrame) (rest : List CanFrame) (m : Memory W)
      (observed : Option (JointState W)) (c' : Communication W) (r : Robot W) (t : ℕ)
      → int32_of_double (mul command.target_position.degrees (decimal 100 0)) ≡ some n
      → Command.encode command ≡ some frame
      → IsAtRest 1 m
      → cycle (record { can = frame ∷ rest; commands = m }) observed ≡ some c'
      → commands (control_robot r (read_command (λ _. c'.commands) t)).joints
        ≡ retarget (some (record { target_position = angle (hundredths n) })) (commands r.joints)
  cycle-control_robot command n frame rest m observed c' r t fits encoded still e =
      let target : JointCommand W = record { target_position = angle (hundredths n) } in
      let (sent, encoded', decoded) = decode-encode_command command default_command n fits in
      let same : sent ≡ frame = cc in
      let published : c'.commands ≡ perform_all (publish_command target) m =
        cycle-commands rest frame m observed c' e
        ∙ accept-decoded frame target m (rw same at decoded) in
      let found : read_command (λ _. c'.commands) t ≡ some target =
        rw published (read_command-publish target m t still) in
      control_robot-commands r (read_command (λ _. c'.commands) t)
      ∙ ap (λ o. retarget o (commands r.joints)) found

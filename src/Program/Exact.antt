-- ===== src/Program/Exact.antt =====
-- The 90 degrees that `main` sends, in exact arithmetic on whole numbers.
use mathlib.Core.Option
use mathlib.Core.Path.{subst}
use robot_controller.Prelude.{
  none, true, Option, ◌≡◌, ◌⊎◌, refl, ap, ◌∙◌, inl, inr, some, [], ◌∷◌, pos, ◌*ℤ◌, arith,
}
use robot_controller.Double.{Double, IsOrdered, IsTruncating, IsRounding, IsExact}
use robot_controller.Types.{angle, default_command, JointCommand}
use robot_controller.Word.{int32_of_double}
use robot_controller.Codec.Command
use robot_controller.Codec.Exact.{int32_of_double-int, hundredths-int}
use robot_controller.Scheduler.Platform.{Platform, Boot, ControlScheduler, create_control_scheduler}
use robot_controller.Program.{
  Program, Reach, CommandRead, begin, new_program, outgoing_command, period, start,
}
use robot_controller.Program.Stop.{Runs, Ends}
use robot_controller.Program.End.{Reach-Ends}
use robot_controller.Program.Targets.{delivered, encode-outgoing, Reach-IsAimed}
use robot_controller.Program.Delivered.{Aims}
use robot_controller.Program.Delivered.Phases
use robot_controller.Program.Delivered.Accepted.{Runs-read}
use robot_controller.ControlLoop.Cycle.{control_robot}

module _ {W : Type 0} ⦃d : Double W⦄ (exact : IsExact W) where
  outgoing_fits : int32_of_double (d.mul (d.decimal 90 0) (d.decimal 100 0)) ≡ some (pos 9_000)
  unfolding ◌*ℤ◌
  outgoing_fits =
      rw (← exact.of_int_pos 90 (omega arith)) (int32_of_double-int exact (pos 90) (omega arith))

  pub delivered_lem : delivered {W = W} (pos 9_000) ≡ outgoing_command
  unfolding ◌*ℤ◌
  delivered_lem =
      ap (λ x. record { target_position = angle x })
        (hundredths-int exact (pos 90) (omega arith) ∙ exact.of_int_pos 90 (omega arith))

  -- At every moment of the program, whatever the order of its threads' steps, the target of joint 1 is
  -- zero, which every joint starts with, or exactly the 90 degrees of the command that `main`
  -- transmits, and the target of each of the five other joints is zero.
  pub Reach-Aims :
      {platform : Platform} {b : Boot} {p : Program W}
      → Reach platform b p
      → Aims p.loop.robot default_command ⊎ Aims p.loop.robot outgoing_command
  Reach-Aims {p} reached =
      let (c, aim, aims) = Reach-IsAimed (pos 9_000) outgoing_fits reached in
      elim aim [
        | inl e ↦ inl (subst (Aims p.loop.robot) e aims)
        | inr e ↦ inr (subst (Aims p.loop.robot) (e ∙ delivered_lem) aims)
      ]

  -- In every interleaving of the program's threads: once joint 1 has the 90 degrees of the command that
  -- `main` transmits as its target it keeps them, whatever steps follow: no cycle sets it back to zero,
  -- and no other joint is given a target.
  pub Runs-Aims_outgoing :
      {platform : Platform} {b : Boot} {p p' : Program W}
      → Reach platform b p
      → Aims p.loop.robot outgoing_command
      → Runs p p'
      → Aims p'.loop.robot outgoing_command
  Runs-Aims_outgoing {p} {p'} reached aims runs =
      rw delivered_lem at
        (Phases.Runs-Aims (pos 9_000) outgoing_fits reached (rw delivered_lem aims) runs)

  -- In every interleaving: once the communication thread has dealt with a frame, a cycle that reads the
  -- command buffer finds exactly the 90 degrees that `main` transmits, unless the read fails, and makes
  -- them the target of joint 1; the other joints have none.
  pub Runs-CommandRead :
      {platform : Platform} {b : Boot} {p q : Program W} (o : Option (JointCommand W))
      → Reach platform b p
      → p.accepted ≡ true
      → Runs p q
      → CommandRead q o
      → (o ≡ none)
        ⊎ ((o ≡ some outgoing_command) × Aims (control_robot q.loop.robot o) outgoing_command)
  Runs-CommandRead o reached dealt runs read =
      rw delivered_lem at (Runs-read (pos 9_000) outgoing_fits o reached dealt runs read)

  begin-some :
      (platform : Platform) (b : Boot) (scheduler : ControlScheduler W)
      → create_control_scheduler platform b period ≡ some scheduler
      → begin platform b ≡ some (new_program scheduler (Command.frame_of (pos 9_000)))
  unfolding begin Option.bind
  begin-some platform b scheduler made = rw (made, encode-outgoing W (pos 9_000) outgoing_fits) refl

  -- The program starts on every platform on which its scheduler can be made, with the frame of 9000
  -- hundredths of a degree on the transport, and then some steps end it.
  pub begin-Ends :
      IsOrdered W
      → IsTruncating W
      → IsRounding W
      → (platform : Platform) (b : Boot) (scheduler : ControlScheduler W)
      → create_control_scheduler platform b period ≡ some scheduler
      → (p : Program W) × (begin platform b ≡ some p)
        × (p.communication.can ≡ Command.frame_of (pos 9_000) ∷ [])
        × Ends p
  unfolding new_program
  begin-Ends laws cut rounding platform b scheduler made =
      let begun = begin-some platform b scheduler made in
      (_, begun, refl, Reach-Ends laws cut rounding (start begun))

-- ===== src/Program/Delivered/Phases.antt =====
-- The three phases of the program: before the command, between its delivery and its effect, and after.
use mathlib.Core.Path.{subst}
use robot_controller.Prelude.{
  ◌≡◌, ◌⊎◌, refl, sym, ◌∙◌, inl, inr, Option, none, some, List, ℤ, All, arith,
}
use robot_controller.Double.{Double}
use robot_controller.Types.{JointCommand, default_command}
use robot_controller.CanFrame.{CanFrame}
use robot_controller.Word.{int32_of_double}
use robot_controller.Seqlock.{Memory}
use robot_controller.Communication.{receive, accept_received}
use robot_controller.Robot.{Robot, new_robot, standard_joint, on_joint, initialize_joint_position}
use robot_controller.Joint.{new_joint, initialize_position}
use robot_controller.ControlLoop.Cycle.{control_robot}
use robot_controller.Scheduler.Platform.{Platform, Boot}
use robot_controller.Program.Invariant.{begin_cases}
use robot_controller.Program.Stop.{Runs, Reach-Runs}
use robot_controller.Program.Targets
use robot_controller.Program.Delivered.{
  Aims, Known-weaken, Stands, take-Stands, retarget-Stands, finish-Stands, Closed, Step-Closed,
  Runs-Closed,
}
use robot_controller.Program.Targets.{delivered, IsAim, IsKnown, accept_received-buffer}
use robot_controller.Program.{Program, Reach, begin, new_program, start, later, CommandRead}

module _ {W : Type 0} ⦃d : Double W⦄ (n : ℤ) where
  module _ (fits : int32_of_double (d.mul (d.decimal 90 0) (d.decimal 100 0)) ≡ some n) where
    -- The command has been delivered and has reached joint 1.
    After : Memory W → Option (Option (JointCommand W)) → Robot W → Type 0
    After = Stands (delivered n) (λ c. c ≡ delivered n) (delivered n)

    -- How far it has come.
    data Phase (m : Memory W) (taken : Option (Option (JointCommand W))) (r : Robot W)
        : Type 0 where
      before :
          Stands default_command (λ c. c ≡ default_command) default_command m taken r
          → Phase m taken r
      between : Stands (delivered n) (IsAim n) default_command m taken r → Phase m taken r
      after : After m taken r → Phase m taken r

    After-Closed : Closed n After
    unfolding After
    After-Closed = record {
      accepting = λ can m taken r known v.
          elim (accept_received-buffer n fits can m (delivered n) known v.holds) [
            | inl h ↦ record { holds = h; known = v.known; aims = v.aims }
            | inr h ↦ record { holds = h; known = v.known; aims = v.aims }
          ];
      taking = λ p o read v. take-Stands p o refl read v;
      finishing = λ m r o v. elim (finish-Stands r o v) [
        | inl kept ↦ kept
        | inr (c, e, new) ↦ retarget-Stands c e new
      ];
    }

    accept-Phase :
        (can : List CanFrame) (m : Memory W) (taken : Option (Option (JointCommand W)))
        (r : Robot W)
        → All (IsKnown n) can
        → Phase m taken r
        → Phase (accept_received m (receive can).0) taken r
    accept-Phase can m taken r known (before v) =
        elim (accept_received-buffer n fits can m default_command known v.holds) [
          | inl h ↦ before (record { holds = h; known = v.known; aims = v.aims })
          | inr h ↦ between (record {
            holds = h;
            known = Known-weaken (λ c. c ≡ default_command) (IsAim n) (λ c e. inl e) taken v.known;
            aims = v.aims;
          })
        ]
    accept-Phase can m taken r known (between v) =
        elim (accept_received-buffer n fits can m (delivered n) known v.holds) [
          | inl h ↦ between (record { holds = h; known = v.known; aims = v.aims })
          | inr h ↦ between (record { holds = h; known = v.known; aims = v.aims })
        ]
    accept-Phase can m taken r known (after v) =
        after (After-Closed.accepting can m taken r known v)

    take-Phase :
        (p : Program W) (o : Option (JointCommand W))
        → CommandRead p o
        → Phase p.communication.commands none p.loop.robot
        → Phase p.communication.commands (some o) p.loop.robot
    take-Phase p o read (before v) = before (take-Stands p o refl read v)
    take-Phase p o read (between v) = between (take-Stands p o (inr refl) read v)
    take-Phase p o read (after v) = after (After-Closed.taking p o read v)

    finish-Phase :
        (m : Memory W) (r : Robot W) (o : Option (JointCommand W))
        → Phase m (some o) r
        → Phase m none (control_robot r o)
    unfolding After
    finish-Phase m r o (before v) = elim (finish-Stands r o v) [
      | inl kept ↦ before kept
      | inr (c, e, new) ↦ before (retarget-Stands c e new)
    ]
    finish-Phase m r o (between v) = elim (finish-Stands r o v) [
      | inl kept ↦ between kept
      | inr (c, inl e, new) ↦ between (retarget-Stands c e new)
      | inr (c, inr e, new) ↦
          let now = retarget-Stands c e new in
          after (record { holds = now.holds; known = tt; aims = now.aims })
    ]
    finish-Phase m r o (after v) = after (After-Closed.finishing m r o v)

    Phase-Closed : Closed n Phase
    Phase-Closed = record {
      accepting = accept-Phase;
      taking = take-Phase;
      finishing = finish-Phase;
    }

    new_program-Phase :
        (platform : Platform) (b : Boot) (p : Program W)
        → begin platform b ≡ some p
        → Phase p.communication.commands p.taken p.loop.robot
    unfolding new_program new_robot standard_joint new_joint initialize_joint_position on_joint
        initialize_position
    new_program-Phase platform b p e =
        let (scheduler, tx, made, encoded, same) = begin_cases platform b p e in
        subst (λ q. Phase q.communication.commands q.taken q.loop.robot) same
          (before (record {
            holds = record { cells = refl; even = refl };
            known = tt;
            aims = ground arith;
          }))

    Reach-Phase :
        {platform : Platform} {b : Boot} {p : Program W}
        → Reach platform b p
        → Phase p.communication.commands p.taken p.loop.robot
    Reach-Phase (start begun) = new_program-Phase _ _ _ begun
    Reach-Phase (later reached st) =
        Step-Closed n fits Phase Phase-Closed (Targets.Reach-Inv n fits reached) st
          (Reach-Phase reached)

    same_target : (r : Robot W) (c c' : JointCommand W) → Aims r c → Aims r c' → c ≡ c'
    same_target r c c' e e' = let lists = sym e ∙ e' in cc

    Phase-cases :
        {m : Memory W} {taken : Option (Option (JointCommand W))} {r : Robot W}
        → Phase m taken r
        → Aims r default_command ⊎ After m taken r
    Phase-cases (before v) = inl v.aims
    Phase-cases (between v) = inl v.aims
    Phase-cases (after v) = inr v

    -- The 90 degrees of the command that `main` transmits, in hundredths and cut to a whole number
    -- `n`, fit 32 bits. In every interleaving of the program's threads: once joint 1 has the target
    -- n / 100 it keeps it, whatever steps follow: no cycle sets it back to zero, and no other joint is
    -- given a target.
    pub Runs-Aims :
        {platform : Platform} {b : Boot} {p p' : Program W}
        → Reach platform b p
        → Aims p.loop.robot (delivered n)
        → Runs p p'
        → Aims p'.loop.robot (delivered n)
    unfolding After
    Runs-Aims {p} {p'} reached aims runs = elim (Phase-cases (Reach-Phase reached)) [
      | inr v ↦ (Runs-Closed n fits After After-Closed reached runs v).aims
      | inl first ↦ elim (Phase-cases (Reach-Phase (Reach-Runs reached runs))) [
        | inr v ↦ v.aims
        | inl still ↦
            subst (Aims p'.loop.robot)
              (same_target p.loop.robot default_command (delivered n) first aims) still
      ]
    ]

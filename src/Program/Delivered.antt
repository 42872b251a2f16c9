-- ===== src/Program/Delivered.antt =====
-- The command on its way through the buffer to joint 1.
pub mod Phases
pub mod Accepted
use mathlib.Core.Path.{subst}
use robot_controller.Prelude.{
  ℕ, ◌≡◌, ◌⊎◌, refl, sym, ap, ◌∙◌, inl, inr, Option, none, some, List, [], ◌∷◌, ℤ, All, arith, ◌%◌,
}
use robot_controller.Double.{Double}
use robot_controller.Types.{JointCommand, default_command}
use robot_controller.CanFrame.{CanFrame}
use robot_controller.Word.{int32_of_double}
use robot_controller.Seqlock.{Memory}
use robot_controller.CanBuffers.{read_command}
use robot_controller.Communication.{receive, accept_received}
use robot_controller.Robot.{Robot, new_robot, standard_joint, on_joint, initialize_joint_position}
use robot_controller.Joint.{new_joint, initialize_position}
use robot_controller.ControlLoop.Cycle.{control_robot, update}
use robot_controller.ControlLoop.Command.{commands, retarget, control_robot-commands}
use robot_controller.Scheduler.Platform.{Platform, Boot}
use robot_controller.Program.Invariant.{begin_cases}
use robot_controller.Program.Stop.{Runs, here, next, Reach-Runs}
use robot_controller.Program.Targets
use robot_controller.CanBuffers.Held.{Holds, read-Holds}
use robot_controller.Program.Targets.{delivered, IsAim, IsKnown, accept_received-buffer}
use robot_controller.Program.{
  Program, Step, Reach, begin, new_program, open_can, launch, pause, poll, join, report, close,
  leave, head, wait, take, finish, round, accept, reply, start, later, CommandRead, missed, seen,
}

module _ {W : Type 0} ⦃d : Double W⦄ where
  -- A target of joint 1, where the others have none.
  abbrev pub Aims : Robot W → JointCommand W → Type 0
  Aims r c =
      commands r.joints
      ≡ c ∷ default_command ∷ default_command ∷ default_command ∷ default_command ∷ default_command
        ∷ []

  abbrev Known : (JointCommand W → Type 0) → Option (Option (JointCommand W)) → Type 0
  Known P none = Unit
  Known P (some none) = Unit
  Known P (some (some c)) = P c

  pub Known-weaken :
      (P Q : JointCommand W → Type 0)
      → ((c : JointCommand W) → P c → Q c)
      → (taken : Option (Option (JointCommand W))) → Known P taken
      → Known Q taken
  Known-weaken P Q h none k = tt
  Known-weaken P Q h (some none) k = tt
  Known-weaken P Q h (some (some c)) k = h c k

  -- The command in the buffer, what is known of one that the cycle under way has read, and the target.
  pub record Stands (held : JointCommand W) (P : JointCommand W → Type 0) (target : JointCommand W)
      (m : Memory W) (taken : Option (Option (JointCommand W))) (r : Robot W) : Type 0 where
    pub holds : Holds m held
    pub known : Known P taken
    pub aims : Aims r target

  read-Known :
      (P : JointCommand W → Type 0) (held : JointCommand W) (p : Program W)
      (o : Option (JointCommand W))
      → Holds p.communication.commands held
      → P held
      → CommandRead p o
      → Known P (some o)
  read-Known P held p _ h known (missed at not_yet) = tt
  read-Known P held p _ h known (seen t) = rw (read-Holds p.communication.commands held t h) known

  pub take-Stands :
      {held target : JointCommand W} {P : JointCommand W → Type 0} (p : Program W)
      (o : Option (JointCommand W))
      → P held
      → CommandRead p o
      → Stands held P target p.communication.commands none p.loop.robot
      → Stands held P target p.communication.commands (some o) p.loop.robot
  take-Stands {held} {P} p o known read v = record {
    holds = v.holds;
    known = read-Known P held p o v.holds known read;
    aims = v.aims;
  }

  -- The command that was read is known.
  pub retarget-Stands :
      {held target : JointCommand W} {P : JointCommand W → Type 0} {m : Memory W} {r : Robot W}
      (c : JointCommand W)
      → c ≡ target
      → Stands held P c m none r
      → Stands held P target m none r
  retarget-Stands {held} {P} {m} {r} c e v = subst (λ x. Stands held P x m none r) e v

  -- A cycle that has found nothing keeps the target; one that has read a command makes it the target.
  pub finish-Stands :
      {held target : JointCommand W} {P : JointCommand W → Type 0} {m : Memory W} (r : Robot W)
      (o : Option (JointCommand W))
      → Stands held P target m (some o) r
      → Stands held P target m none (control_robot r o)
        ⊎ ((c : JointCommand W) × P c × Stands held P c m none (control_robot r o))
  finish-Stands {target} {P} r none v =
      inl (record { holds = v.holds; known = tt; aims = control_robot-commands r none ∙ v.aims })
  finish-Stands {target} {P} r (some c) v = inr (
    c,
    v.known,
    record {
      holds = v.holds;
      known = tt;
      aims = control_robot-commands r (some c) ∙ ap (retarget (some c)) v.aims;
    },
  )

module _ {W : Type 0} ⦃d : Double W⦄ (n : ℤ) where
  -- What the steps on the command buffer and on the robot keep, in a program whose frames are known.
  pub record Closed (Q : Memory W → Option (Option (JointCommand W)) → Robot W → Type 0)
      : Type 0 where
    pub accepting :
        (can : List CanFrame) (m : Memory W) (taken : Option (Option (JointCommand W)))
        (r : Robot W)
        → All (IsKnown n) can
        → Q m taken r
        → Q (accept_received m (receive can).0) taken r
    pub taking :
        (p : Program W) (o : Option (JointCommand W))
        → CommandRead p o
        → Q p.communication.commands none p.loop.robot
        → Q p.communication.commands (some o) p.loop.robot
    pub finishing :
        (m : Memory W) (r : Robot W) (o : Option (JointCommand W))
        → Q m (some o) r
        → Q m none (control_robot r o)

  module _ (fits : int32_of_double (d.mul (d.decimal 90 0) (d.decimal 100 0)) ≡ some n) where
    module _ (Q : Memory W → Option (Option (JointCommand W)) → Robot W → Type 0)
        (closed : Closed Q) where
      pub Step-Closed :
          {p p' : Program W}
          → Targets.Inv n p
          → Step p p'
          → Q p.communication.commands p.taken p.loop.robot
          → Q p'.communication.commands p'.taken p'.loop.robot
      unfolding update
      Step-Closed v (open_can s) q = q
      Step-Closed v (launch s) q = q
      Step-Closed v (pause s waiting) q = q
      Step-Closed v (poll s enough) q = q
      Step-Closed v (join s over) q = q
      Step-Closed v (report o elapsed s read) q = q
      Step-Closed v (close read out s over) q = q
      Step-Closed v (leave read out s over) q = q
      Step-Closed v (head k at) q = q
      Step-Closed v (wait k w scheduler scheduled_start at not_yet back) q = q
      Step-Closed {p} v (take k scheduled_start o at waited nothing read) q =
          closed.taking p o read (rw nothing at q)
      Step-Closed {p} v (finish k reported i at waited processor taken) q =
          closed.finishing p.communication.commands p.loop.robot i.can_command (rw taken at q)
      Step-Closed v (round at) q = q
      Step-Closed {p} v (accept at not_yet) q =
          closed.accepting p.communication.can p.communication.commands p.taken p.loop.robot v.queue
            q
      Step-Closed v (reply o frames at accepted read sent) q = q

      pub Runs-Closed :
          {platform : Platform} {b : Boot} {p p' : Program W}
          → Reach platform b p
          → Runs p p'
          → Q p.communication.commands p.taken p.loop.robot
          → Q p'.communication.commands p'.taken p'.loop.robot
      Runs-Closed reached here q = q
      Runs-Closed reached (next runs st) q =
          Step-Closed (Targets.Reach-Inv n fits (Reach-Runs reached runs)) st
            (Runs-Closed reached runs q)

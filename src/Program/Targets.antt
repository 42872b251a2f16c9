-- ===== src/Program/Targets.antt =====
-- Where the joints are sent while the program runs.

use mathlib.Core.Option.{some-injective}
use mathlib.Core.Path.{subst}
use robot_controller.Prelude.{
  ◌≡◌, ◌⊎◌, refl, sym, ap, ◌∙◌, inl, inr, Option, none, some, List, [], ◌∷◌, ◌++◌, ℤ, All, true,
  arith,
}
use robot_controller.Double.{Double}
use robot_controller.Types.{JointCommand, angle, default_command}
use robot_controller.CanFrame.{CanFrame}
use robot_controller.Word.{int32_of_double}
use robot_controller.Codec.Command
use robot_controller.Codec.Trip.{hundredths, decode-encode_command}
use robot_controller.Seqlock.{Memory}
use robot_controller.CanBuffers.Held.{Holds, read-Holds, publish-Holds}
use robot_controller.Communication
use robot_controller.Communication.{receive, accept_received}
use robot_controller.Communication.Order.{IsState, accept-State, transmit_state-IsState}
use robot_controller.Robot.{Robot, new_robot, standard_joint, on_joint, initialize_joint_position}
use robot_controller.Joint.{new_joint, initialize_position}
use robot_controller.ControlLoop.Cycle.{control_robot, update}
use robot_controller.ControlLoop.Command.{commands, retarget, control_robot-commands}
use robot_controller.ControlLoop.Delivery.{accept-decoded}
use robot_controller.Scheduler.Platform.{Platform, Boot}
use robot_controller.Program.Invariant.{begin_cases}
use robot_controller.Program.{
  Program, Step, Reach, begin, new_program, outgoing_command, open_can, launch, pause, poll, join,
  report, close, leave, head, wait, take, finish, round, accept, reply, start, later, CommandRead,
  missed, seen,
}

module _ (n : ℤ) where
  -- The frame of `main`, or one that encodes a state.
  abbrev pub IsKnown : CanFrame → Type 0
  IsKnown frame = (frame ≡ Command.frame_of n) ⊎ IsState frame

  All-IsKnown : (xs ys : List CanFrame) → All IsKnown xs → All IsState ys → All IsKnown (xs ++ ys)
  All-IsKnown [] [] h k = tt
  All-IsKnown [] (y ∷ ys) h (k, ks) = (inr k, All-IsKnown [] ys h ks)
  All-IsKnown (x ∷ xs) ys (h, hs) k = (h, All-IsKnown xs ys hs k)

  receive-IsKnown : (can : List CanFrame) → All IsKnown can → All IsKnown (receive can).1
  receive-IsKnown [] known = tt
  receive-IsKnown (frame ∷ frames) (known, rest) = rest

pub encode-outgoing :
    (W : Type 0) ⦃d : Double W⦄ (n : ℤ)
    → int32_of_double (d.mul (d.decimal 90 0) (d.decimal 100 0)) ≡ some n
    → Command.encode (outgoing_command {W = W}) ≡ some (Command.frame_of n)
unfolding Command.encode Command.frame_of
encode-outgoing W n fits = rw (Command.encode, fits) refl

module _ {W : Type 0} ⦃d : Double W⦄ (n : ℤ) where
  -- The command as the frame of `main` delivers it.
  abbrev pub delivered : JointCommand W
  delivered = record { target_position = angle (hundredths n) }

  abbrev pub IsAim : JointCommand W → Type 0
  IsAim c = (c ≡ default_command) ⊎ (c ≡ delivered)

  abbrev TakenIsAim : Option (Option (JointCommand W)) → Type 0
  TakenIsAim none = Unit
  TakenIsAim (some none) = Unit
  TakenIsAim (some (some c)) = IsAim c

  -- The first joint has some command, the others have none.
  abbrev pub IsAimed : Robot W → Type 0
  IsAimed r =
      (c : JointCommand W) × IsAim c
      × (commands r.joints
          ≡ c ∷ default_command ∷ default_command ∷ default_command ∷ default_command
            ∷ default_command ∷ [])

  pub record Inv (p : Program W) : Type 0 where
    pub queue : All (IsKnown n) p.communication.can
    pub buffer : (c : JointCommand W) × IsAim c × Holds p.communication.commands c
    pub taken : TakenIsAim p.taken
    pub aimed : IsAimed p.loop.robot

  control_robot-IsAimed :
      (r : Robot W) (o : Option (JointCommand W))
      → TakenIsAim (some o)
      → IsAimed r
      → IsAimed (control_robot r o)
  control_robot-IsAimed r none known (c, aim, e) = (c, aim, control_robot-commands r none ∙ e)
  control_robot-IsAimed r (some c) known (old, aim, e) =
      (c, known, control_robot-commands r (some c) ∙ ap (retarget (some c)) e)

  -- What is read from the buffer is known.
  read-IsAim :
      (p : Program W) (o : Option (JointCommand W))
      → ((c : JointCommand W) × IsAim c × Holds p.communication.commands c)
      → CommandRead p o
      → TakenIsAim (some o)
  read-IsAim p _ held (missed at not_yet) = tt
  read-IsAim p _ (c, aim, h) (seen t) = rw (read-Holds p.communication.commands c t h) aim

  module _ (fits : int32_of_double (d.mul (d.decimal 90 0) (d.decimal 100 0)) ≡ some n) where
    pub decode-delivered : Command.decode (Command.frame_of n) default_command ≡ (delivered, true)
    decode-delivered =
        let (sent, encoded, decoded) =
          decode-encode_command outgoing_command default_command n fits in
        let same : sent ≡ Command.frame_of n =
          some-injective _ _ (sym encoded ∙ encode-outgoing W n fits) in
        rw same at decoded

    -- A known frame leaves the buffer as it is, or brings the command of `main`.
    accept-buffer :
        (m : Memory W) (frame : CanFrame) (c : JointCommand W)
        → IsKnown n frame
        → Holds m c
        → Holds (Communication.accept m frame) c ⊎ Holds (Communication.accept m frame) delivered
    accept-buffer m frame c (inr s) h = rw (accept-State m frame s) (inl h)
    accept-buffer m frame c (inl e) h =
        rw (e, accept-decoded (Command.frame_of n) delivered m decode-delivered)
          (inr (publish-Holds m delivered c h))

    pub accept_received-buffer :
        (can : List CanFrame) (m : Memory W) (c : JointCommand W)
        → All (IsKnown n) can
        → Holds m c
        → Holds (accept_received m (receive can).0) c
          ⊎ Holds (accept_received m (receive can).0) delivered
    accept_received-buffer [] m c known h = inl h
    accept_received-buffer (frame ∷ frames) m c (known, rest) h = accept-buffer m frame c known h

    accept-Inv :
        (p : Program W)
        → Inv p
        → (c : JointCommand W) × IsAim c
          × Holds (accept_received p.communication.commands (receive p.communication.can).0) c
    accept-Inv p v =
        let (c, aim, h) = v.buffer in
        elim (accept_received-buffer p.communication.can p.communication.commands c v.queue h) [
          | inl kept ↦ (c, aim, kept)
          | inr new ↦ (delivered, inr refl, new)
        ]

    new_program-Inv :
        (platform : Platform) (b : Boot) (p : Program W) → begin platform b ≡ some p → Inv p
    unfolding new_program new_robot standard_joint new_joint initialize_joint_position on_joint
        initialize_position
    new_program-Inv platform b p e =
        let (scheduler, tx, made, encoded, same) = begin_cases platform b p e in
        let frame : tx ≡ Command.frame_of n =
          some-injective _ _ (sym encoded ∙ encode-outgoing W n fits) in
        subst Inv same (record {
          queue = (inl frame, tt);
          buffer = (default_command, inl refl, record { cells = refl; even = refl });
          taken = tt;
          aimed = (default_command, inl refl, ground arith);
        })

    Step-Inv : {p p' : Program W} → Step p p' → Inv p → Inv p'
    unfolding update
    Step-Inv (open_can s) v = ground arith
    Step-Inv (launch s) v = ground arith
    Step-Inv (pause s waiting) v = v
    Step-Inv (poll s enough) v = ground arith
    Step-Inv (join s over) v = ground arith
    Step-Inv (report o elapsed s read) v = ground arith
    Step-Inv (close read out s over) v = ground arith
    Step-Inv (leave read out s over) v = ground arith
    Step-Inv (head n at) v = ground arith
    Step-Inv (wait n w scheduler scheduled_start at not_yet back) v = ground arith
    Step-Inv {p} (take n scheduled_start o at waited nothing read) v = record {
      queue = v.queue;
      buffer = v.buffer;
      taken = read-IsAim p o v.buffer read;
      aimed = v.aimed;
    }
    Step-Inv {p} (finish n reported i at waited processor taken) v = record {
      queue = v.queue;
      buffer = v.buffer;
      taken = tt;
      aimed =
          control_robot-IsAimed p.loop.robot i.can_command (subst TakenIsAim taken v.taken) v.aimed;
    }
    Step-Inv (round at) v = ground arith
    Step-Inv {p} (accept at not_yet) v = record {
      queue = receive-IsKnown n p.communication.can v.queue;
      buffer = accept-Inv p v;
      taken = v.taken;
      aimed = v.aimed;
    }
    Step-Inv {p} (reply o frames at accepted read sent) v =
        let (new, own, split) = transmit_state-IsState p.communication.can o frames sent in
        record {
          queue = rw split (All-IsKnown _ p.communication.can new v.queue own);
          buffer = v.buffer;
          taken = v.taken;
          aimed = v.aimed;
        }

    pub Reach-Inv : {platform : Platform} {b : Boot} {p : Program W} → Reach platform b p → Inv p
    Reach-Inv (start begun) = new_program-Inv _ _ _ begun
    Reach-Inv (later reached step) = Step-Inv step (Reach-Inv reached)

    -- The 90 degrees of the command that `main` transmits, in hundredths and cut to a whole number
    -- `n`, fit 32 bits: at every moment of the program, whatever the order of its threads' steps, the
    -- target of joint 1 is zero, which every joint starts with, or n / 100, and the target of each of
    -- the five other joints is zero.
    pub Reach-IsAimed :
        {platform : Platform} {b : Boot} {p : Program W} → Reach platform b p → IsAimed p.loop.robot
    Reach-IsAimed reached = (Reach-Inv reached).aimed

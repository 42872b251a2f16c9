-- ===== src/Program/Delivered/Accepted.antt =====
-- What the command buffer holds once the communication thread has dealt with a frame.
use robot_controller.Prelude.{
  ◌≡◌, ◌⊎◌, refl, sym, ap, ◌∙◌, inl, inr, Option, none, some, [], ◌∷◌, ◌++◌, ℤ, All, Bool, true,
  false,
}
use mathlib.Core.Option.{some-injective}
use mathlib.Core.Path.{subst}
use robot_controller.Double.{Double}
use robot_controller.Types.{JointCommand, JointState}
use robot_controller.Word.{int32_of_double}
use robot_controller.Codec.Command
use robot_controller.Seqlock.{Memory}
use robot_controller.CanBuffers.Held.{Holds, read-Holds, publish-Holds}
use robot_controller.Communication.{SimulatedCan, receive, accept_received, transmit_state}
use robot_controller.Communication.Order.{transmit_state-IsState}
use robot_controller.ControlLoop.Cycle.{control_robot}
use robot_controller.ControlLoop.Command.{commands, retarget, control_robot-commands}
use robot_controller.ControlLoop.Delivery.{accept-decoded}
use robot_controller.Scheduler.Platform.{Platform, Boot}
use robot_controller.Program.Invariant.{begin_cases}
use robot_controller.Program.Stop.{Runs, Reach-Runs}
use robot_controller.Program.Targets
use robot_controller.Program.Targets.{
  delivered, IsKnown, IsAimed, accept_received-buffer, decode-delivered, encode-outgoing,
}
use robot_controller.Program.Delivered.{Aims, Closed, Runs-Closed}
use robot_controller.Program.{
  Program, Step, Reach, new_program, open_can, launch, pause, poll, join, report, close, leave,
  head, wait, take, finish, round, accept, reply, start, later, CommandRead, missed, seen,
}

-- The first of the frames that wait is the one of `main`.
abbrev IsNext : ℤ → SimulatedCan → Type 0
IsNext n [] = ⊥
IsNext n (frame ∷ rest) = frame ≡ Command.frame_of n

IsNext-append : (n : ℤ) (can rest : SimulatedCan) → IsNext n can → IsNext n (can ++ rest)
IsNext-append n [] rest e = absurd e
IsNext-append n (frame ∷ can) rest e = e

module _ {W : Type 0} ⦃d : Double W⦄ (n : ℤ) where
  -- The command has been delivered to the buffer, or it is next and no frame has been dealt with.
  abbrev Status : Memory W → SimulatedCan → Bool → Type 0
  Status m can accepted = Holds m (delivered n) ⊎ (IsNext n can × (accepted ≡ false))

  module _ (fits : int32_of_double (d.mul (d.decimal 90 0) (d.decimal 100 0)) ≡ some n) where
    receive-Holds :
        (m : Memory W) (can : SimulatedCan) (c : JointCommand W)
        → IsNext n can
        → Holds m c
        → Holds (accept_received m (receive can).0) (delivered n)
    receive-Holds m [] c e h = absurd e
    receive-Holds m (frame ∷ can) c e h =
        rw (e, accept-decoded (Command.frame_of n) (delivered n) m (decode-delivered n fits))
          (publish-Holds m (delivered n) c h)

    -- No known frame brings another command.
    kept-Holds :
        (can : SimulatedCan) (m : Memory W)
        → All (IsKnown n) can
        → Holds m (delivered n)
        → Holds (accept_received m (receive can).0) (delivered n)
    kept-Holds can m known h = elim (accept_received-buffer n fits can m (delivered n) known h) [
      | inl kept ↦ kept
      | inr new ↦ new
    ]

    accept-Holds :
        (p : Program W)
        → Targets.Inv n p
        → Status p.communication.commands p.communication.can p.accepted
        → Holds
            (accept_received p.communication.commands (receive p.communication.can).0)
            (delivered n)
    accept-Holds p v (inl h) = kept-Holds p.communication.can p.communication.commands v.queue h
    accept-Holds p v (inr (first, not_yet)) =
        let (c, aim, h) = v.buffer in
        receive-Holds p.communication.commands p.communication.can c first h

    reply-Status :
        (p : Program W) (o : Option (JointState W)) (frames : SimulatedCan)
        → transmit_state p.communication.can o ≡ some frames
        → Status p.communication.commands p.communication.can p.accepted
        → Status p.communication.commands frames false
    reply-Status p o frames sent (inl h) = inl h
    reply-Status p o frames sent (inr (first, not_yet)) =
        let (new, own, split) = transmit_state-IsState p.communication.can o frames sent in
        inr (rw split (IsNext-append n p.communication.can new first), refl)

    Step-Status :
        {p p' : Program W}
        → Step p p'
        → Targets.Inv n p
        → Status p.communication.commands p.communication.can p.accepted
        → Status p'.communication.commands p'.communication.can p'.accepted
    Step-Status (open_can s) v h = h
    Step-Status (launch s) v h = h
    Step-Status (pause s waiting) v h = h
    Step-Status (poll s enough) v h = h
    Step-Status (join s over) v h = h
    Step-Status (report o elapsed s read) v h = h
    Step-Status (close read out s over) v h = h
    Step-Status (leave read out s over) v h = h
    Step-Status (head k at) v h = h
    Step-Status (wait k w scheduler scheduled_start at not_yet back) v h = h
    Step-Status (take k scheduled_start o at waited nothing read) v h = h
    Step-Status (finish k reported i at waited processor taken) v h = h
    Step-Status (round at) v h = h
    Step-Status {p} (accept at not_yet) v h = inl (accept-Holds p v h)
    Step-Status {p} (reply o frames at accepted read sent) v h = reply-Status p o frames sent h

    Reach-Status :
        {platform : Platform} {b : Boot} {p : Program W}
        → Reach platform b p
        → Status p.communication.commands p.communication.can p.accepted
    unfolding new_program
    Reach-Status {platform} {b} {p} (start e) =
        let (scheduler, tx, made, encoded, same) = begin_cases platform b p e in
        let frame : tx ≡ Command.frame_of n =
          some-injective _ _ (sym encoded ∙ encode-outgoing W n fits) in
        subst (λ q. Status q.communication.commands q.communication.can q.accepted) same
          (inr (frame, refl))
    Reach-Status (later reached st) =
        Step-Status st (Targets.Reach-Inv n fits reached) (Reach-Status reached)

    Holds-Closed : Closed {W = W} n (λ m taken r. Holds m (delivered n))
    Holds-Closed = record {
      accepting = λ can m taken r known h. kept-Holds can m known h;
      taking = λ p o read h. h;
      finishing = λ m r o h. h;
    }

    Runs-Holds :
        {platform : Platform} {b : Boot} {p q : Program W}
        → Reach platform b p
        → p.accepted ≡ true
        → Runs p q
        → Holds q.communication.commands (delivered n)
    Runs-Holds reached dealt runs = elim (Reach-Status reached) [
      | inl h ↦ Runs-Closed n fits _ Holds-Closed reached runs h
      | inr (first, not_yet) ↦ absurd (cc)
    ]

    read-delivered :
        (p : Program W) (o : Option (JointCommand W))
        → IsAimed n p.loop.robot
        → Holds p.communication.commands (delivered n)
        → CommandRead p o
        → (o ≡ none)
          ⊎ ((o ≡ some (delivered n)) × Aims (control_robot p.loop.robot o) (delivered n))
    read-delivered p _ aimed h (missed at not_yet) = inl refl
    read-delivered p _ (c, aim, e) h (seen t) =
        let found = read-Holds p.communication.commands (delivered n) t h in
        inr (
          found,
          control_robot-commands p.loop.robot _
              ∙ ap (λ o. retarget o (commands p.loop.robot.joints)) found
              ∙ ap (retarget (some (delivered n))) e,
        )

    -- Once the communication thread has dealt with a frame, a cycle finds the command or nothing.
    pub Runs-read :
        {platform : Platform} {b : Boot} {p q : Program W} (o : Option (JointCommand W))
        → Reach platform b p
        → p.accepted ≡ true
        → Runs p q
        → CommandRead q o
        → (o ≡ none)
          ⊎ ((o ≡ some (delivered n)) × Aims (control_robot q.loop.robot o) (delivered n))
    Runs-read {q} o reached dealt runs read =
        read-delivered q o (Targets.Reach-IsAimed n fits (Reach-Runs reached runs))
          (Runs-Holds reached dealt runs) read

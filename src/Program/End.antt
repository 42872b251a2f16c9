-- ===== src/Program/End.antt =====
-- That the program can always end.
use robot_controller.Prelude.{◌≡◌, ap, ◌∙◌, refl, inl, inr, true, Bool-cases, some, arith}
use robot_controller.Double.{Double}
use robot_controller.CanBuffers.{read_state}
use robot_controller.Communication.{SimulatedCan, transmit_state}
use robot_controller.Communication.Thread.{Place, go}
use robot_controller.Program.{Program, Reach, accept, reply, later, observed}
use robot_controller.Program.Run.{Reach-Inv}
use robot_controller.Program.Transmits.{reached_frame}
use robot_controller.Program.Free.{Ends_free}
use robot_controller.Program.Stop.{Ends, Ends-first}
use robot_controller.Double.{IsOrdered, IsTruncating, IsRounding}
use robot_controller.Scheduler.Platform.{Platform, Boot}

module _ {W : Type 0} ⦃d : Double W⦄ where
  -- The state that the communication thread reads, if the control thread does nothing meanwhile, can be
  -- transmitted.
  abbrev CanTransmit : Program W → Type 0
  CanTransmit p =
      (frames : SimulatedCan)
      → (frames' : SimulatedCan) × (transmit_state frames (read_state (λ _. p.loop.can_state) 0)
          ≡ some frames')

  Ends_reply :
      {platform : Platform} {b : Boot} (p : Program W)
      → Reach platform b p
      → CanTransmit p
      → p.service.place ≡ Place.in_round
      → p.accepted ≡ true
      → Ends p
  unfolding go
  Ends_reply p reached can at accepted =
      let (frames, sent) = can p.communication.can in
      let st = reply _ frames at accepted (observed 0) sent in
      Ends-first st (Ends_free (later reached st) (λ e. absurd (ground arith)))

  Ends_round :
      {platform : Platform} {b : Boot} (p : Program W)
      → Reach platform b p
      → CanTransmit p
      → p.service.place ≡ Place.in_round
      → Ends p
  Ends_round p reached can at = elim (Bool-cases p.accepted) [
    | inl accepted ↦ Ends_reply p reached can at accepted
    | inr not_yet ↦
        let st = accept at not_yet in Ends-first st (Ends_reply _ (later reached st) can at refl)
  ]

  Ends_place :
      {platform : Platform} {b : Boot} (p : Program W) (place : Place)
      → Reach platform b p
      → CanTransmit p
      → p.service.place ≡ place
      → Ends p
  Ends_place p Place.in_round reached can at = Ends_round p reached can at
  Ends_place p Place.no_thread reached can at = Ends_free reached (λ e. absurd (cc))
  Ends_place p Place.at_head reached can at = Ends_free reached (λ e. absurd (cc))
  Ends_place p Place.ended reached can at = Ends_free reached (λ e. absurd (cc))

module _ {W : Type 0} ⦃d : Double W⦄ (laws : IsOrdered W) (cut : IsTruncating W)
    (rounding : IsRounding W) where
  Reach-CanTransmit :
      {platform : Platform} {b : Boot} {p : Program W} → Reach platform b p → CanTransmit p
  Reach-CanTransmit {p} reached frames =
      let (after, sent, reports) = reached_frame laws cut rounding frames reached in
      (after, ap (transmit_state frames) ((Reach-Inv reached).sound.sent 0) ∙ sent)

  -- Whatever the threads have done so far, and whatever frames and times they got: some further steps
  -- end the program.
  pub Reach-Ends : {platform : Platform} {b : Boot} {p : Program W} → Reach platform b p → Ends p
  Reach-Ends {p} reached = Ends_place p _ reached (Reach-CanTransmit reached) refl

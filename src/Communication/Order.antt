-- ===== src/Communication/Order.antt =====
-- Which frames become commands.
use mathlib.Core.Option.{some-injective}
use mathlib.Core.List.{append-nil, append_assoc}
use robot_controller.Word.{int32_of_double}
use robot_controller.Prelude.{
  ◌≡◌, refl, ap, sym, ◌∙◌, Option, none, some, inl, inr, Option-cases, List, [], ◌∷◌, ◌++◌, ℤ, All,
  arith, length, zero, suc, ℕ,
}
use robot_controller.Double.{Double}
use robot_controller.Types.{JointState}
use robot_controller.CanFrame.{CanFrame}
use robot_controller.Codec.Command
use robot_controller.Codec.State
use robot_controller.Seqlock.{Memory}
use robot_controller.Communication.{
  SimulatedCan, receive, Communication, accept, accept_received, transmit_state, cycle, run,
}

-- A frame that encodes a state.
abbrev pub IsState : CanFrame → Type 0
IsState frame = (p : ℤ) × (v : ℤ) × (frame ≡ State.frame_of p v)

All-append : (xs ys : List CanFrame) → All IsState xs → All IsState ys → All IsState (xs ++ ys)
All-append [] ys _ q = q
All-append (x ∷ xs) ys (p, ps) q = (p, All-append xs ys ps q)

module _ {W : Type 0} ⦃d : Double W⦄ where
  pub accept-State :
      (commands : Memory W) (frame : CanFrame) → IsState frame → accept commands frame ≡ commands
  unfolding accept Command.decode State.frame_of
  accept-State commands frame (p, v, e) = rw e

  -- The first frames of a queue, accepted in turn.
  pub accept_first : ℕ → Memory W → List CanFrame → Memory W
  accept_first zero commands frames = commands
  accept_first (suc n) commands [] = commands
  accept_first (suc n) commands (frame ∷ frames) = accept_first n (accept commands frame) frames

  encode-IsState :
      (state : JointState W) (frame : CanFrame) → State.encode state ≡ some frame → IsState frame
  unfolding State.encode
  encode-IsState state frame e =
      elim (Option-cases (int32_of_double (d.mul state.position.degrees (d.decimal 100 0)))) [
        | inl none_p ↦ absurd (cc (rw (none_p, State.encode) at e))
        | inr (p, found_p) ↦
            elim (Option-cases
              (int32_of_double (d.mul state.velocity.degrees_per_second (d.decimal 100 0)))) [
                | inl none_v ↦ absurd (ground (arith, found_p, none_v))
                | inr (v, found_v) ↦ (p, v, ground (arith, found_p, found_v))
              ]
      ]

  pub transmit_state-IsState :
      (frames : SimulatedCan) (observed : Option (JointState W)) (frames' : SimulatedCan)
      → transmit_state frames observed ≡ some frames'
      → (sent : List CanFrame) × All IsState sent × (frames' ≡ frames ++ sent)
  unfolding transmit_state
  transmit_state-IsState frames none frames' e =
      ([], tt, sym (some-injective _ _ e) ∙ sym (append-nil frames))
  transmit_state-IsState frames (some state) frames' e = elim (Option-cases (State.encode state)) [
    | inl failed ↦ absurd (ground (arith, failed))
    | inr (frame, found) ↦
        (frame ∷ [], (encode-IsState state frame found, tt), ground (arith, found))
  ]

  accept_first-nil : (n : ℕ) (commands : Memory W) → accept_first n commands [] ≡ commands
  unfolding accept_first
  accept_first-nil zero commands = refl
  accept_first-nil (suc n) commands = refl

  cycle_cases :
      (c : Communication W) (observed : Option (JointState W)) (rest : List (Option (JointState W)))
      (c' : Communication W)
      → run c (observed ∷ rest) ≡ some c'
      → (frames : SimulatedCan) × (transmit_state (receive c.can).1 observed ≡ some frames)
        × (run
              (record { can = frames; commands = accept_received c.commands (receive c.can).0 })
              rest
            ≡ some c')
  unfolding run cycle
  cycle_cases c observed rest c' e =
      elim (Option-cases (transmit_state (receive c.can).1 observed)) [
        | inl failed ↦ absurd (ground (arith, failed))
        | inr (frames, found) ↦ (frames, found, ground (arith, found))
      ]

  -- The frames of the transport, followed by state frames of the thread's own.
  run-accept_first_lem :
      (observed : List (Option (JointState W))) (frames sent : List CanFrame) (commands : Memory W)
      (c' : Communication W)
      → All IsState sent
      → run (record { can = frames ++ sent; commands = commands }) observed ≡ some c'
      → c'.commands ≡ accept_first (length observed) commands frames
  unfolding accept_first run
  run-accept_first_lem [] frames sent commands c' states e =
      ap (λ r. r.commands) (sym (some-injective _ _ e))
  run-accept_first_lem (o ∷ rest) [] [] commands c' states e =
      let (queue, sends, next) =
        cycle_cases (record { can = []; commands = commands }) o rest c' e in
      let (new, own, split) = transmit_state-IsState [] o queue sends in
      run-accept_first_lem rest [] new commands c' own (rw split at next)
      ∙ accept_first-nil (length rest) commands
  run-accept_first_lem (o ∷ rest) [] (s ∷ sent) commands c' (state, states) e =
      let (queue, sends, next) =
        cycle_cases (record { can = s ∷ sent; commands = commands }) o rest c' e in
      let (new, own, split) = transmit_state-IsState sent o queue sends in
      run-accept_first_lem rest [] (sent ++ new) commands c' (All-append sent new states own)
        (rw (split, accept-State commands s state) at next)
      ∙ accept_first-nil (length rest) commands
  run-accept_first_lem (o ∷ rest) (f ∷ frames) sent commands c' states e =
      let (queue, sends, next) =
        cycle_cases (record { can = f ∷ (frames ++ sent); commands = commands }) o rest c' e in
      let (new, own, split) = transmit_state-IsState (frames ++ sent) o queue sends in
      run-accept_first_lem rest frames (sent ++ new) (accept commands f) c'
        (All-append sent new states own) (rw (split, append_assoc frames sent new) at next)

  -- After some rounds the command buffer is what it becomes by accepting, in order, as many of the
  -- frames that were waiting at the start as there were rounds (all, if fewer were waiting). The state
  -- frames that the thread transmits, and receives again, change nothing in it.
  pub run-accept_first :
      (c c' : Communication W) (observed : List (Option (JointState W)))
      → run c observed ≡ some c'
      → c'.commands ≡ accept_first (length observed) c.commands c.can
  run-accept_first c c' observed e =
      run-accept_first_lem observed c.can [] c.commands c' tt (rw append-nil e)

-- ===== src/Communication.antt =====
-- src/communication/CanCommunication.cpp and SimulatedCan.cpp: the communication thread, between the
-- CAN transport and the two buffers. The mutex of `SimulatedCan` makes each of its operations one
-- step. The state that the thread reads is written by the control thread meanwhile, so the result of
-- that read is an input of the step.
pub mod Order
pub mod Defined
pub mod Thread
use robot_controller.Prelude.{Bool, true, false, Option, none, some, List, [], ◌∷◌, ◌++◌}
use robot_controller.Double.{Double}
use robot_controller.Types.{JointCommand, JointState, default_command, default_state}
use robot_controller.CanFrame.{CanFrame}
use robot_controller.Codec.Command
use robot_controller.Codec.State
use robot_controller.Seqlock.{Memory, perform_all}
use robot_controller.CanBuffers.{publish_command}

-- `received_frames_`
abbrev pub SimulatedCan : Type 0
SimulatedCan = List CanFrame

-- `none` is `false`, with the caller's frame unchanged.
abbrev pub receive : SimulatedCan → Option CanFrame × SimulatedCan
receive [] = (none, [])
receive (frame ∷ frames) = (some frame, frames)

-- A transmitted frame is received again.
abbrev pub transmit : SimulatedCan → CanFrame → SimulatedCan
transmit frames frame = frames ++ (frame ∷ [])

pub record Communication (W : Type 0) : Type 0 where
  pub can : SimulatedCan
  pub commands : Memory W

module _ {W : Type 0} ⦃d : Double W⦄ where
  -- A received frame that decodes to a command is published.
  unfoldable pub accept : Memory W → CanFrame → Memory W
  accept commands frame =
      let (command, done) = Command.decode frame default_command in
      elim done [ true ↦ perform_all (publish_command command) commands | false ↦ commands ]

  abbrev pub accept_received : Memory W → Option CanFrame → Memory W
  accept_received commands none = commands
  accept_received commands (some frame) = accept commands frame

  -- `transmitState`, from what the read of the state buffer gave; `none` is undefined behaviour.
  unfoldable pub transmit_state : SimulatedCan → Option (JointState W) → Option SimulatedCan
  transmit_state frames none = some frames
  transmit_state frames (some state) = elim (State.encode state) [
    | none ↦ none
    | some frame ↦ some (transmit frames frame)
  ]

  -- The body of the loop of `run`.
  unfoldable pub cycle : Communication W → Option (JointState W) → Option (Communication W)
  cycle c observed =
      let (received, frames) = receive c.can in
      let commands = accept_received c.commands received in
      elim (transmit_state frames observed) [
        | none ↦ none
        | some frames' ↦ some (record { can = frames'; commands = commands })
      ]

  -- `run`, for as many rounds as there are reads of the state buffer.
  unfoldable pub run : Communication W → List (Option (JointState W)) → Option (Communication W)
  run c [] = some c
  run c (observed ∷ rest) = elim (cycle c observed) [ none ↦ none | some c' ↦ run c' rest ]

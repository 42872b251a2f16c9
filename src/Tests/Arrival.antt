-- ===== src/Tests/Arrival.antt =====
-- A program whose command has come to joint 1.
use mathlib.Core.Option
use robot_controller.Joint.{new_joint, initialize_position}
use robot_controller.Robot.{new_robot, standard_joint, on_joint, initialize_joint_position}
use robot_controller.Prelude.{
  ◌⊎◌, none, true, ◌≡◌, refl, ap, ◌∙◌, some, [], ◌∷◌, pos, negsuc, ◌*ℤ◌, quot, false,
}
use robot_controller.Double.Fixed.{Fixed, fixed_double}
use robot_controller.Types.{default_command}
use robot_controller.Word.{int32_of_double, signed32, join, byte_at, unsigned32}
use robot_controller.Seqlock
use robot_controller.Seqlock.{attempt, perform_all, perform, load_cells}
use robot_controller.Communication
use robot_controller.Codec.Command
use robot_controller.Codec.State
use robot_controller.CanBuffers.{read_command, read_state, publish_command}
use robot_controller.Communication.{Communication, transmit_state, receive, accept_received}
use robot_controller.Communication.Thread
use robot_controller.Communication.Thread.{go}
use robot_controller.ControlLoop.Statistics.{timing}
use robot_controller.ControlLoop.Cycle.{Inputs, update, control_robot}
use robot_controller.ControlLoop.Command.{commands, retarget, control_robot-commands}
use robot_controller.ControlLoop.Lifecycle.{run, work}
use robot_controller.Scheduler.Portable
use robot_controller.Scheduler.Portable.{new_scheduler, advance_schedule}
use robot_controller.Scheduler.Platform.{Platform, ControlScheduler, wait_for_next_cycle}
use robot_controller.Program.{
  Program, Stage, Reach, later, open_can, launch, round, accept, reply, observed, head, wait, take,
  finish, seen, new_program, cycle_count, outgoing_command,
}
use robot_controller.Program.Stop.{Ends, here}
use robot_controller.Program.Free.{Ends_free}
use robot_controller.Program.Targets.{delivered}
use robot_controller.Program.Delivered.{Aims}
use robot_controller.Program.Exact.{Runs-Aims_outgoing, Runs-CommandRead, delivered_lem}
use robot_controller.Double.Fixed.Exact.{Fixed-IsExact}
use mathlib.Core.Path.{subst}
use robot_controller.Tests.Programs.{program, boot, program-Reach}

-- After a round of the communication thread, which receives the frame and transmits the state.
abbrev exchanged : Communication Fixed
exchanged = record {
  can = State.frame_of (pos 0) (pos 0) ∷ [];
  commands = accept_received program.communication.commands (receive program.communication.can).0;
}

abbrev cycle : Inputs Fixed
cycle = record {
  scheduled_start = pos 7_000;
  cycle_start = pos 7_900;
  processor = negsuc 0;
  control_start = pos 8_000;
  can_command = read_command (λ _. exchanged.commands) 0;
  control_end = pos 9_000;
  snapshot_start = pos 9_000;
  snapshot_end = pos 9_500;
  actual_end = pos 9_900;
}

-- After the first cycle.
abbrev arrived : Program Fixed
arrived = record program {
  loop = update (timing (advance_schedule (new_scheduler 1 (pos 7_000)))) cycle program.loop;
  lifecycle = work (work (run cycle_count program.lifecycle));
  service = go (go (Thread.start program.service));
  communication = exchanged;
  scheduler = ControlScheduler.portable (advance_schedule (new_scheduler 1 (pos 7_000)));
  stage = Stage.polling;
}

arrived-Reach : Reach Platform.other boot arrived
unfolding new_program Thread.start go run work wait_for_next_cycle Portable.wait_for_next_cycle
    new_scheduler transmit_state read_state Option.bind Seqlock.read attempt load_cells State.encode
    int32_of_double quot ◌*ℤ◌
arrived-Reach =
    let received =
      later (later (later (later program-Reach (open_can refl)) (round refl)) (accept refl refl))
        (reply _ exchanged.can refl refl (observed 0) refl) in
    let waited = later (later (later received (launch refl)) (head 2_500 refl)) (
      wait 2_499
        (record {
          eintr = 4;
          clock_nanosleep = λ _. [];
          calls = record {
            now = pos 0;
            set_timer = λ _. false;
            signalled = false;
            wake_time = pos 0;
            readings = [];
          };
        })
        (ControlScheduler.portable (advance_schedule (new_scheduler 1 (pos 7_000)))) (pos 7_000)
        refl refl refl) in
    later (later waited (take 2_499 (pos 7_000) _ refl refl refl (seen 0)))
      (finish 2_499 (negsuc 0) cycle refl refl refl refl)

-- The whole run that follows.
rest : Ends arrived
unfolding new_program go Thread.start
rest = Ends_free arrived-Reach (λ e. absurd (cc))

read_delivered : cycle.can_command ≡ some (delivered (pos 9_000))
unfolding read_command Option.bind new_program Seqlock.read attempt Communication.accept
    Command.decode Command.frame_of perform_all publish_command Seqlock.publish perform load_cells
    signed32 join byte_at unsigned32
read_delivered = refl

initial-commands : commands program.loop.robot.joints ≡ commands (new_robot {W = Fixed}).joints
unfolding new_program new_robot standard_joint new_joint initialize_joint_position on_joint
    initialize_position
initial-commands = refl

retargeted :
    retarget (some (delivered (pos 9_000))) (commands (new_robot {W = Fixed}).joints)
    ≡ delivered (pos 9_000)
      ∷ default_command
      ∷ default_command
      ∷ default_command
      ∷ default_command
      ∷ default_command
      ∷ []
unfolding new_robot standard_joint new_joint
retargeted = refl

arrived-Aims : Aims arrived.loop.robot (delivered (pos 9_000))
unfolding update
arrived-Aims =
    control_robot-commands program.loop.robot cycle.can_command
    ∙ ap (λ o. retarget o (commands program.loop.robot.joints)) read_delivered
    ∙ ap (retarget (some (delivered (pos 9_000)))) initial-commands
    ∙ retargeted

Runs-Aims_outgoing_example : Aims rest.last.loop.robot outgoing_command
Runs-Aims_outgoing_example =
    Runs-Aims_outgoing Fixed-IsExact arrived-Reach
      (subst (Aims arrived.loop.robot) (delivered_lem Fixed-IsExact) arrived-Aims) rest.runs

-- Where the communication thread has received the frame, and the state is still to be transmitted.
abbrev received : Program Fixed
received = record program {
  service = go (Thread.start program.service);
  communication = record { can = []; commands = exchanged.commands };
  accepted = true;
  stage = Stage.launching;
}

received-Reach : Reach Platform.other boot received
unfolding new_program Thread.start go
received-Reach = later (later (later program-Reach (open_can refl)) (round refl)) (accept refl refl)

Runs-CommandRead_example :
    let o = read_command (λ _. received.communication.commands) 5 in
    (o ≡ none)
    ⊎ ((o ≡ some outgoing_command) × Aims (control_robot received.loop.robot o) outgoing_command)
Runs-CommandRead_example =
    Runs-CommandRead Fixed-IsExact (read_command (λ _. received.communication.commands) 5)
      received-Reach refl here (seen 5)

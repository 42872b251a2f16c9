-- ===== src/Program.antt =====
-- src/main.cpp: the whole program, as the steps of its three threads in any order. A read of a
-- sequence lock is one step, at the moment whose publication it gives or, if it fails, while the thread
-- that publishes may be publishing; a publication is one step too.
-- A control cycle is three steps, the wait, the read of the command and the rest, and a round of the
-- communication thread is two, the frame received and the state transmitted.
-- The rest of a cycle, and the transmission, are one step each. The robot and the statistics are the
-- control thread's alone until all cycles are complete, and the snapshot is read after that only; so
-- other threads can meet the publication for the CAN side and the number of cycles alone, of which no
-- thread reads both. The frames are the communication thread's alone once `main` has transmitted.
-- A round in which a conversion is undefined is no step. A program that has started ends in
-- `Stage.ended`, or where it aborts.
pub mod Cycles
pub mod Invariant
pub mod Run
pub mod Stop
pub mod Free
pub mod End
pub mod Exact
pub mod Targets
pub mod Times
pub mod Abort
pub mod Trace
pub mod Sequential
pub mod Totals
pub mod Delivered
pub mod Numbers
pub mod Overflow
pub mod Transmits
use mathlib.Core.Option
use robot_controller.Prelude.{
  ℕ, ◌≤◌, ◌<◌, ◌≡◌, ◌⊎◌, Bool, true, false, Option, none, some, List, [], ◌∷◌, ◌++◌, ℤ, pos,
}
use robot_controller.Double.{Double}
use robot_controller.Types.{JointCommand, JointState, RobotState, angle, default_state, nought}
use robot_controller.CanFrame.{CanFrame}
use robot_controller.Codec.Command
use robot_controller.CanBuffers.{new_command_buffer, new_state_buffer, read_command, read_state}
use robot_controller.Snapshot
use robot_controller.Snapshot.{new_snapshot_buffer}
use robot_controller.Communication.{
  SimulatedCan, Communication, receive, transmit, accept_received, transmit_state,
}
use robot_controller.Communication.Thread
use robot_controller.Communication.Thread.{
  Service, Place, new_service, begin_stop, end_stop, destroy, go, IsOver,
}
use robot_controller.Robot.{Robot, new_robot, initialize_joint_position}
use robot_controller.ControlLoop.Statistics.{timing, new_statistics}
use robot_controller.ControlLoop.Cycle.{ControlLoop, Inputs, update, state}
use robot_controller.ControlLoop.Lifecycle.{Worker, Loop, new_loop, run, work, IsJoinable}
use robot_controller.Scheduler.Platform.{
  Platform, Boot, ControlScheduler, WaitCalls, Wait, base, create_control_scheduler,
  wait_for_next_cycle, max_wake_lateness, current_processor,
}
use robot_controller.Report.{Token, print_snapshot, print_timing_statistics}

abbrev pub cycle_count : ℕ
cycle_count = 2_500

-- The scheduler's period in milliseconds.
abbrev pub period : ℕ
period = 1

-- Where `main` is.
pub data Stage (W : Type 0) : Type 0 where
  opening : Stage W  -- before communication.start()
  launching : Stage W  -- before control_loop.run(cycle_count)
  polling : Stage W  -- in the loop that waits for the cycles
  stopping : Stage W  -- in communication.stop()
  reporting : Stage W  -- before control_loop.state()
  -- with the state read and the output: before `communication` is destroyed, before `control_loop` is
  returning : RobotState W → List (Token W) → Stage W
  unwinding : RobotState W → List (Token W) → Stage W
  ended : RobotState W → List (Token W) → Stage W

pub record Program (W : Type 0) : Type 0 where
  pub loop : ControlLoop W
  pub last_state : RobotState W
  pub lifecycle : Loop
  pub service : Service
  pub communication : Communication W
  -- the round under way has dealt with the frame received
  pub accepted : Bool
  pub scheduler : ControlScheduler W
  -- the scheduled start of the cycle under way, once its wait has returned
  pub scheduled : Option ℤ
  -- what the cycle under way has read from the command buffer, once it has
  pub taken : Option (Option (JointCommand W))
  pub stage : Stage W

module _ {W : Type 0} ⦃d : Double W⦄ where
  abbrev pub outgoing_command : JointCommand W
  outgoing_command = record { target_position = angle (d.decimal 90 0) }

  abbrev default_robot_state : RobotState W
  default_robot_state =
      default_state ∷ default_state ∷ default_state ∷ default_state ∷ default_state ∷ default_state
      ∷ []

  -- `control_loop` as it is made, and the robot that it refers to.
  abbrev pub initial_loop : ControlLoop W
  initial_loop = record {
    robot = (initialize_joint_position new_robot (record { value = 0 }) (angle nought)).0;
    can_state = new_state_buffer;
    state_snapshot = new_snapshot_buffer;
    statistics = new_statistics;
    completed_cycles = 0;
  }

  -- The start of `main`, with the frame that it transmits.
  unfoldable pub new_program : ControlScheduler W → CanFrame → Program W
  new_program scheduler tx = record {
    loop = initial_loop;
    last_state = default_robot_state;
    lifecycle = new_loop;
    service = new_service;
    communication = record { can = transmit [] tx; commands = new_command_buffer };
    accepted = false;
    scheduler = scheduler;
    scheduled = none;
    taken = none;
    stage = Stage.opening;
  }

  -- `none` is an exception of the scheduler's constructor, or undefined behaviour: the command does not
  -- fit its frame.
  unfoldable pub begin : Platform → Boot → Option (Program W)
  begin platform b =
      Option.bind (create_control_scheduler platform b period)
        λ scheduler. Option.map (new_program scheduler) (Command.encode outgoing_command)

  -- What `main` prints, from the greatest lateness of the scheduler and its own running time.
  unfoldable pub output : ControlLoop W → RobotState W → W → ℤ → List (Token W)
  output l read lateness elapsed =
      print_snapshot read
      ++ (print_timing_statistics lateness l.statistics
          ++ (Token.text "Completed cycles: "
              ∷ Token.count l.completed_cycles
              ∷ Token.text "\n"
              ∷ Token.text "\nReal execution time: "
              ∷ Token.number (d.div (d.of_int elapsed) (d.decimal 1_000_000_000 0))
              ∷ Token.text " s\n"
              ∷ Token.text "Simulated time: "
              ∷ Token.number (d.mul (d.of_int (pos cycle_count)) (d.decimal 1 3))
              ∷ Token.text " s\n"
              ∷ []))

  -- The reads of the buffers. One may fail only while the thread that publishes may be publishing. The
  -- stores of the state buffer are relaxed: a read of it that succeeds while the control thread may be
  -- publishing may give a mixture of states (CanBuffers.Relaxed), for which any state stands here.
  pub data SnapshotRead (p : Program W) : Option (RobotState W) → Type 0 where
    failed : (n : ℕ) → p.lifecycle.worker ≡ Worker.in_cycle n → SnapshotRead p none
    found : (t : ℕ) → SnapshotRead p (Snapshot.read (λ _. p.loop.state_snapshot) t)

  pub data CommandRead (p : Program W) : Option (JointCommand W) → Type 0 where
    missed : p.service.place ≡ Place.in_round → p.accepted ≡ false → CommandRead p none
    seen : (t : ℕ) → CommandRead p (read_command (λ _. p.communication.commands) t)

  pub data StateRead (p : Program W) : Option (JointState W) → Type 0 where
    overtaken : (n : ℕ) → p.lifecycle.worker ≡ Worker.in_cycle n → StateRead p none
    torn :
        (n : ℕ) (s : JointState W) → p.lifecycle.worker ≡ Worker.in_cycle n → StateRead p (some s)
    observed : (t : ℕ) → StateRead p (read_state (λ _. p.loop.can_state) t)

  pub data Step (p : Program W) : Program W → Type 0 where
    -- main
    open_can :
        p.stage ≡ Stage.opening
        → Step p (record p { service = Thread.start p.service; stage = Stage.launching })
    launch :
        p.stage ≡ Stage.launching
        → Step p (record p { lifecycle = run cycle_count p.lifecycle; stage = Stage.polling })
    -- A turn of the loop that waits for the cycles; the last one leaves it.
    pause : p.stage ≡ Stage.polling → p.loop.completed_cycles < cycle_count → Step p p
    poll :
        p.stage ≡ Stage.polling
        → cycle_count ≤ p.loop.completed_cycles
        → Step p (record p { service = begin_stop p.service; stage = Stage.stopping })
    join :
        p.stage ≡ Stage.stopping
        → IsOver p.service.place
        → Step p (record p { service = end_stop p.service; stage = Stage.reporting })
    report :
        (o : Option (RobotState W)) (elapsed : ℤ)
        → p.stage ≡ Stage.reporting
        → SnapshotRead p o
        → Step p (record p {
          last_state = state p.last_state o;
          stage =
              Stage.returning
                (state p.last_state o)
                (output p.loop (state p.last_state o) (max_wake_lateness p.scheduler) elapsed);
        })
    -- The destructor of `communication` calls `stop`.
    close :
        (read : RobotState W) (out : List (Token W))
        → p.stage ≡ Stage.returning read out
        → IsOver p.service.place
        → Step p (record p { service = destroy p.service; stage = Stage.unwinding read out })
    -- That of the thread in `control_loop` joins it. The stop that it asks for comes when no cycle is
    -- left.
    leave :
        (read : RobotState W) (out : List (Token W))
        → p.stage ≡ Stage.unwinding read out
        → IsJoinable p.lifecycle.worker
        → Step p (record p { stage = Stage.ended read out })
    -- the control thread
    head :
        (n : ℕ)
        → p.lifecycle.worker ≡ Worker.at_head n
        → Step p (record p { lifecycle = work p.lifecycle })
    wait :
        (n : ℕ) (w : WaitCalls) (scheduler : ControlScheduler W) (scheduled_start : ℤ)
        → p.lifecycle.worker ≡ Worker.in_cycle n
        → p.scheduled ≡ none
        → wait_for_next_cycle w p.scheduler ≡ Wait.returned scheduler scheduled_start
        → Step p (record p { scheduler = scheduler; scheduled = some scheduled_start })
    take :
        (n : ℕ) (scheduled_start : ℤ) (o : Option (JointCommand W))
        → p.lifecycle.worker ≡ Worker.in_cycle n
        → p.scheduled ≡ some scheduled_start
        → p.taken ≡ none
        → CommandRead p o
        → Step p (record p { taken = some o })
    finish :
        (n : ℕ) (reported : ℤ) (i : Inputs W)
        → p.lifecycle.worker ≡ Worker.in_cycle n
        → p.scheduled ≡ some i.scheduled_start
        → i.processor ≡ current_processor p.scheduler reported
        → p.taken ≡ some i.can_command
        → Step p (record p {
          loop = update (timing (base p.scheduler)) i p.loop;
          lifecycle = work p.lifecycle;
          scheduled = none;
          taken = none;
        })
    -- the communication thread
    round : p.service.place ≡ Place.at_head → Step p (record p { service = go p.service })
    accept :
        p.service.place ≡ Place.in_round
        → p.accepted ≡ false
        → Step p (record p {
          communication = record {
            can = (receive p.communication.can).1;
            commands = accept_received p.communication.commands (receive p.communication.can).0;
          };
          accepted = true;
        })
    reply :
        (o : Option (JointState W)) (frames : SimulatedCan)
        → p.service.place ≡ Place.in_round
        → p.accepted ≡ true
        → StateRead p o
        → transmit_state p.communication.can o ≡ some frames
        → Step p (record p {
          communication = record p.communication { can = frames };
          accepted = false;
          service = go p.service;
        })

  -- A wait that throws: the exception leaves the function of the control thread, and `std::terminate`
  -- ends the program with all its threads.
  pub data Aborts (p : Program W) : Type 0 where
    throw :
        (n : ℕ) (w : WaitCalls)
        → p.lifecycle.worker ≡ Worker.in_cycle n
        → p.scheduled ≡ none
        → wait_for_next_cycle w p.scheduler ≡ Wait.thrown
        → Aborts p

  pub data Reach (platform : Platform) (b : Boot) : Program W → Type 0 where
    start : {p : Program W} → begin platform b ≡ some p → Reach platform b p
    later : {p p' : Program W} → Reach platform b p → Step p p' → Reach platform b p'

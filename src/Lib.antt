-- ===== src/Lib.antt =====
-- The robot controller: a simulated arm of six joints under a control loop of 1 kHz, with commands and
-- states over a CAN bus.
--
-- The control thread (include/robot_controller/control/ControlLoop.hpp, src/control/ControlLoop.cpp)
-- waits for its scheduler (src/scheduler), takes the latest command from a buffer, updates the robot
-- (src/core/Robot.cpp) and publishes the new state twice: to the CAN side (src/communication) and in a
-- snapshot for monitoring (src/synchronization). In an update the controller
-- (src/control/PDController.cpp) asks for an acceleration for each joint, the safety layer
-- (src/safety/SafetyLayer.cpp) accepts or refuses it, the joint (src/core/Joint.cpp) hands it to its
-- motor (src/motor/SimulatedMotor.cpp), and then the simulator (src/simulation/RobotSimulator.cpp)
-- moves all joints. A second thread exchanges frames with the CAN transport and moves commands and
-- states between frames and buffers.
--
-- Files:
--   Double, Double/Fixed,      `double` with its laws; thousandths that meet them, for the tests
--     Double/Fixed/Rounding,
--     .../Exact
--   Types                      include/robot_controller/core: Angle, AngularVelocity,
--                              AngularAcceleration, Duration, JointState, JointCommand, RobotState
--   Joint, Joint/Limits        Joint and SimulatedMotor: initializePosition, setTargetPosition,
--                              setAcceleration, simulate, state; the limits
--   Safety, Safety/Accept      SafetyLayer::validate; what the joint makes of an accepted request
--   Controller, .../Request    PDController::calculate; what the safety layer makes of its request
--   Simulator, .../Stops,      RobotSimulator::update; the stop at a position limit; steps from numbers
--     Numbers
--   Robot, .../Safe, Reach,    Robot: state, the operations on an indexed joint, update; the commands
--     Index, Still, Config,    on the motors, reachable robots, the joint that an index selects, a
--     Cases, Numbers           step of no length, the limits, the cases of an update, its numbers
--   Seqlock, .../Writer,       the sequence lock that SnapshotBuffer, CanCommandBuffer and
--     Reader, Quiet, Failed    CanStateBuffer share, access by access; a writer and a reader at once
--   Snapshot, .../Read         SnapshotBuffer::publish and read
--   CanFrame                   CanFrame
--   Word, Word/Bits            the casts between double, 32-bit integers and bytes
--   Codec/Command, State,      JointCommandCodec and JointStateCodec: encode, decode; frames of one
--     Trip, Exact              codec read by either; whole numbers of degrees
--   CanBuffers, .../Relaxed,   CanCommandBuffer and CanStateBuffer: publish, read; the effect of
--     Held                     relaxed stores; a buffer at rest
--   Communication, .../Order,  SimulatedCan and CanCommunication::run, transmitState; the order of
--     Thread, Defined          the commands; start, stop and the thread, as steps; the states that
--                              have a frame
--   Scheduler/Portable,        the three schedulers: waitForNextCycle, hasBacklog, schedulingDelay,
--     Linux, Windows           backlog, addDuration, toWindows100ns
--   Scheduler/Timeline,        the scheduled times, the Linux sleep, the Windows spin
--     Sleep, Spin
--   Scheduler/Setup            the constructors of the Linux and the Windows scheduler, the destructor
--                              of the latter, and configureRealtimeScheduling
--   Scheduler/Platform,        IControlScheduler and createControlScheduler; the schedule on every
--     .../Schedule, Kind       platform, and the platform of a scheduler
--   ControlLoop/Statistics,    ControlLoop: the statistics, update, state
--     Cycle
--   ControlLoop/Lifecycle      ControlLoop: run, wait, requestStop, destructor and worker, as steps
--   ControlLoop/Counts,        the counters and the maxima, the command within a cycle and the state
--     Maxima, Command,         after it, a command from the transport to joint 1, the robot under
--     Published, Delivery,     the loop, the thread in any interleaving, a state from joint 1 to
--     Safe, Threads,           the transport
--     Telemetry
--   ControlLoop/Extremes,      the least and greatest periods, gaps and margins
--     .../Bounds
--   ControlLoop/Tally, .../    the counters, as counts over the list of the cycles; how many cycles are
--     Sums, Totals; Recovery   late after a delay
--   Report, .../Counters       printTimingStatistics, printSnapshot, Robot::printState; the counters
--                              in the report
--   Program                    src/main.cpp: the three threads as steps
--   Program/Cycles, Invariant, the data after any cycles; what holds at every moment; the run and its end
--     Run, Stop, Free, End
--   Program/Targets,           the targets of the joints; the command on its way to joint 1, and the
--     Delivered, .../Phases,   command buffer after the first frame; the 90 degrees in exact
--     Accepted; Exact          arithmetic
--   Program/Times, Abort       the times of the cycles; an exception in the control thread
--   Program/Trace, Sequential, the cycles and the reads of a run; the cycles one after another; what is
--     Totals                   printed of them
--   Program/Numbers,           numbers and NaN in the program; the conversions of the states that are
--     Transmits, Overflow      transmitted; the counters as machine integers
--   Prelude, .../Tests,        shared names and lemmas
--     Lists, Int
--   Tests/...                  each result with conditions at a concrete input, and runs
--
-- Numbers. `double` is any type with the operations that the code uses (Double). Where a theorem
-- depends on comparisons it takes their laws, IsOrdered: they hold of IEEE 754 binary64, NaN, the
-- infinities and both zeros included, and say nothing of rounding. Where one depends on the codec's
-- conversion, a product with 100 cut to an integer, it takes IsTruncating, which binary64 meets too: the
-- bounds of the number carry over. Where one depends on the rounding of sums and products it takes
-- IsRounding: a result that would lie between two whole numbers below 2^53 does so after rounding, which
-- binary64 meets too, since it has these numbers exactly and rounds monotonely. Where one depends on
-- products and quotients that are themselves such whole numbers it takes IsExact: they
-- are not rounded.
-- The counters of type `int` are natural numbers without the overflow after 2^31 cycles. The 64-bit
-- sequence numbers and the 32-bit words of the codecs wrap. A conversion that the language leaves
-- undefined is `none`.
--
-- Loops. A read of a buffer makes 3 rounds, as in the code, and then fails. Loops on results of the
-- system (the interrupted sleep on Linux, the spin on Windows) run along the list of those results, and
-- say that the thread is still waiting where the list ends. The communication loop runs for as many
-- rounds as there are results of reading the state buffer; its flag `running_` is what ends the list.
--
-- Threads. An atomic access is one step, in one order for all threads; a mutex makes an operation one
-- step. CanBuffers/Relaxed has the weaker order that `memory_order_relaxed` allows. An exception
-- is a result of what throws it: of a scheduler's constructor, which fails, and of a wait.
--
-- The program's threads (Program) take steps in any order. A read or a publication of a buffer is one
-- step there, a read at the moment whose publication it gives, or while the other thread may be
-- publishing, if it fails; Seqlock has the accesses themselves. A read of CanStateBuffer, whose stores
-- are relaxed, may give any state while the control thread may be publishing. What no other thread can
-- meet halfway is one step: the rest of a cycle after its read of the command, and the transmission of
-- a state. A wait that throws ends the program, with all its threads: `Aborts` has the states in which
-- it may. The calls that set up the control thread (Scheduler/Setup) change nothing that the program
-- reads, and are no step.
--
-- Not modelled: how a number is written in digits.
pub mod Prelude
pub mod Double
pub mod Types
pub mod Joint
pub mod Safety
pub mod Controller
pub mod Simulator
pub mod Robot
pub mod Seqlock
pub mod Snapshot
pub mod CanFrame
pub mod Word
pub mod Codec
pub mod CanBuffers
pub mod Communication
pub mod Scheduler
pub mod ControlLoop
pub mod Report
pub mod Program
pub mod Tests

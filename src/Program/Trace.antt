-- ===== src/Program/Trace.antt =====
-- What the steps of the program's control thread have been, read off a run.
use robot_controller.Prelude.{Option, List, [], ◌∷◌, ◌++◌}
use robot_controller.Double.{Double}
use robot_controller.Types.{JointCommand}
use robot_controller.Scheduler.Platform.{Platform, Boot}
use robot_controller.ControlLoop.Cycle.{Inputs}
use robot_controller.Program.{Program, Step, Reach, take, finish, start, later}

module _ {W : Type 0} ⦃d : Double W⦄ where
  abbrev pub add_cycle : {p p' : Program W} → Step p p' → List (Inputs W) → List (Inputs W)
  add_cycle (finish n reported i at waited processor taken) cycles = cycles ++ (i ∷ [])
  add_cycle _ cycles = cycles

  -- What the complete cycles have got, in order.
  abbrev pub cycles_of :
      {platform : Platform} {b : Boot} {p : Program W} → Reach platform b p → List (Inputs W)
  cycles_of (start e) = []
  cycles_of (later reached st) = add_cycle st (cycles_of reached)

  abbrev pub add_read :
      {p p' : Program W}
      → Step p p'
      → List (Option (JointCommand W))
      → List (Option (JointCommand W))
  add_read (take n scheduled_start o at waited nothing read) reads = reads ++ (o ∷ [])
  add_read _ reads = reads

  -- What the reads of the command buffer have given, in order.
  abbrev pub reads_of :
      {platform : Platform} {b : Boot} {p : Program W}
      → Reach platform b p
      → List (Option (JointCommand W))
  reads_of (start e) = []
  reads_of (later reached st) = add_read st (reads_of reached)

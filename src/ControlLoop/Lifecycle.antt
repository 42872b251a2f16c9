-- ===== src/ControlLoop/Lifecycle.antt =====
-- The life of the control thread in src/control/ControlLoop.cpp: `run`, `wait`, `requestStop`, the
-- destructor and the worker, interleaved in any order.
use robot_controller.Prelude.{ℕ, suc, ◌+◌, ◌≡◌, Bool, true, false, ◌||◌}

pub data LifecycleState : Type 0 where
  idle running finished : LifecycleState

-- The worker: before it exists, at the head of its loop with some cycles to go, in a cycle with some
-- to go after it, or returned and not joined.
pub data Worker : Type 0 where
  no_thread : Worker
  at_head : ℕ → Worker
  in_cycle : ℕ → Worker
  ended : Worker

pub record Loop : Type 0 where
  pub lifecycle_state : LifecycleState
  pub stop_requested : Bool
  -- the worker's stop token, which the destructor of `thread_` alone asks to stop
  pub stop_token : Bool
  pub worker : Worker
  -- `wait` holds lifecycle_mutex_ while it joins the worker
  pub waiting : Bool
  pub completed_cycles : ℕ

abbrev pub new_loop : Loop
new_loop = record {
  lifecycle_state = LifecycleState.idle;
  stop_requested = false;
  stop_token = false;
  worker = Worker.no_thread;
  waiting = false;
  completed_cycles = 0;
}

-- `run(cycle_count)` with the mutex free; a count that is not positive is `zero`. It leaves the loop as
-- it is unless this is idle.
abbrev start : LifecycleState → ℕ → Loop → Loop
start LifecycleState.idle (suc n) l = record l {
  stop_requested = false;
  stop_token = false;
  lifecycle_state = LifecycleState.running;
  worker = Worker.at_head (suc n);
}
start _ _ l = l

unfoldable pub run : ℕ → Loop → Loop
run cycle_count l = start l.lifecycle_state cycle_count l

unfoldable pub request_stop : Loop → Loop
request_stop l = record l { stop_requested = true }

-- `wait` from the lock to the join, and from there to the return.
unfoldable pub begin_wait : Loop → Loop
begin_wait l = record l { waiting = true }

unfoldable pub end_wait : Loop → Loop
end_wait l = record l {
  lifecycle_state = LifecycleState.idle;
  worker = Worker.no_thread;
  waiting = false;
}

-- The destructor up to the join of the worker. Where there is none it asks nothing to stop.
abbrev destroy_from : Worker → Loop → Loop
destroy_from Worker.no_thread l = l
destroy_from _ l = record l { stop_token = true }

unfoldable pub begin_destroy : Loop → Loop
begin_destroy l = destroy_from l.worker l

-- The worker's next step: the head of its loop, with the test for a stop, or the rest of a cycle.
abbrev work_from : Worker → Bool → Loop → Loop
work_from Worker.no_thread stop l = l
work_from Worker.ended stop l = l
work_from (Worker.in_cycle n) stop l = record l {
  worker = Worker.at_head n;
  completed_cycles = l.completed_cycles + 1;
}
work_from (Worker.at_head (suc n)) false l = record l { worker = Worker.in_cycle n }
work_from (Worker.at_head _) _ l = record l {
  lifecycle_state = LifecycleState.finished;
  worker = Worker.ended;
}

unfoldable pub work : Loop → Loop
work l = work_from l.worker (l.stop_token || l.stop_requested) l

-- Whether the join returns.
abbrev pub IsJoinable : Worker → Type 0
IsJoinable Worker.no_thread = Unit
IsJoinable Worker.ended = Unit
IsJoinable _ = ⊥

-- `target` is what completed_cycles_ comes to if the last run that was accepted is not stopped.
abbrev retarget : LifecycleState → ℕ → Loop → ℕ → ℕ
retarget LifecycleState.idle (suc n) l target = l.completed_cycles + suc n
retarget _ _ l target = target

-- Once the destructor is under way no member is called, and it is not called while one is.
pub data Step (l : Loop) (target : ℕ) : Loop → ℕ → Type 0 where
  running :
      (n : ℕ)
      → l.stop_token ≡ false
      → l.waiting ≡ false
      → Step l target (run n l) (retarget l.lifecycle_state n l target)
  stopping : l.stop_token ≡ false → Step l target (request_stop l) target
  locking : l.stop_token ≡ false → l.waiting ≡ false → Step l target (begin_wait l) target
  joining : l.waiting ≡ true → IsJoinable l.worker → Step l target (end_wait l) target
  destroying : l.stop_token ≡ false → l.waiting ≡ false → Step l target (begin_destroy l) target
  working : Step l target (work l) target

pub data Reach : Loop → ℕ → Type 0 where
  fresh : Reach new_loop 0
  later : {l l' : Loop} {n n' : ℕ} → Reach l n → Step l n l' n' → Reach l' n'

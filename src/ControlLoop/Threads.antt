-- ===== src/ControlLoop/Threads.antt =====
-- What holds of the control thread in every interleaving.
use robot_controller.Prelude.{
  ℕ, zero, suc, ◌+◌, ◌≤◌, ◌≡◌, ◌≢◌, ◌∙◌, refl, Bool, true, false, ◌||◌, arith,
}
use robot_controller.ControlLoop.Lifecycle.{
  LifecycleState, Worker, Loop, run, request_stop, begin_wait, end_wait, begin_destroy, work,
  IsJoinable, Step, running, stopping, locking, joining, destroying, working, Reach, fresh, later,
}

-- The state says what the worker is, and the completed cycles what it has done.
abbrev pub Agrees : LifecycleState → Worker → Type 0
Agrees LifecycleState.idle Worker.no_thread = Unit
Agrees LifecycleState.running (Worker.at_head n) = Unit
Agrees LifecycleState.running (Worker.in_cycle n) = Unit
Agrees LifecycleState.finished Worker.ended = Unit
Agrees _ _ = ⊥

abbrev pub Progress : Worker → Bool → ℕ → ℕ → Type 0
Progress Worker.no_thread stop completed target = completed ≤ target
Progress (Worker.at_head n) stop completed target = completed + n ≡ target
Progress (Worker.in_cycle n) stop completed target = completed + n + 1 ≡ target
Progress Worker.ended stop completed target =
    (completed ≤ target) × (stop ≡ false → completed ≡ target)

pub record Inv (l : Loop) (target : ℕ) : Type 0 where
  pub agrees : Agrees l.lifecycle_state l.worker
  pub progress : Progress l.worker (l.stop_token || l.stop_requested) l.completed_cycles target

pub Step-Inv : {l l' : Loop} {n n' : ℕ} → Step l n l' n' → Inv l n → Inv l' n'
unfolding run request_stop begin_wait end_wait begin_destroy work
Step-Inv (running n alive free) v = ground arith
Step-Inv (stopping alive) v = ground arith
Step-Inv (locking alive free) v = ground arith
Step-Inv (joining held j) v = ground arith
Step-Inv (destroying alive free) v = ground arith
Step-Inv working v = ground arith

pub Reach-Inv : {l : Loop} {n : ℕ} → Reach l n → Inv l n
Reach-Inv fresh = ground arith
Reach-Inv (later r st) = Step-Inv st (Reach-Inv r)

pub Inv-completed : (l : Loop) (target : ℕ) → Inv l target → l.completed_cycles ≤ target
Inv-completed l target v = ground arith

-- In every interleaving a call of `run` leaves the loop as it is, unless there is no worker that has
-- still to be joined: it never replaces one.
pub run_refused : {l : Loop} {n : ℕ} (m : ℕ) → Reach l n → l.worker ≢ Worker.no_thread → run m l ≡ l
unfolding run
run_refused m r busy = let v = Reach-Inv r in ground arith

-- In every interleaving, when the worker has returned the state says so; it has completed at most the
-- cycles that it was started for, and exactly those if no stop was requested since and the loop is not
-- being destroyed.
pub ended_complete :
    {l : Loop} {target : ℕ}
    → Reach l target
    → l.worker ≡ Worker.ended
    → (l.lifecycle_state ≡ LifecycleState.finished)
      × (l.completed_cycles ≤ target)
      × (l.stop_requested ≡ false → l.stop_token ≡ false → l.completed_cycles ≡ target)
ended_complete r e = let v = Reach-Inv r in ground arith

-- Some steps of any thread, none of which is a call of `run`.
pub data Onward (l : Loop) : Loop → Type 0 where
  here : Onward l l
  stop : {l' : Loop} → Onward l l' → Onward l (request_stop l')
  lock : {l' : Loop} → Onward l l' → Onward l (begin_wait l')
  join : {l' : Loop} → Onward l l' → Onward l (end_wait l')
  destroy : {l' : Loop} → Onward l l' → Onward l (begin_destroy l')
  go : {l' : Loop} → Onward l l' → Onward l (work l')

-- The cycle that is under way.
abbrev pub under_way : Worker → ℕ
under_way (Worker.in_cycle n) = 1
under_way _ = 0

Onward-completed :
    {l l' : Loop}
    → (l.stop_token || l.stop_requested) ≡ true
    → Onward l l'
    → ((l'.stop_token || l'.stop_requested) ≡ true)
      × (l'.completed_cycles + under_way l'.worker ≤ l.completed_cycles + under_way l.worker)
unfolding request_stop begin_wait end_wait begin_destroy work
Onward-completed s here = ground arith
Onward-completed s (stop o) = let h = Onward-completed s o in ground arith
Onward-completed s (lock o) = let h = Onward-completed s o in ground arith
Onward-completed s (join o) = let h = Onward-completed s o in ground arith
Onward-completed s (destroy o) = let h = Onward-completed s o in ground arith
Onward-completed s (go o) = let h = Onward-completed s o in ground arith

stopped-IsJoinable :
    (l : Loop) → (l.stop_token || l.stop_requested) ≡ true → IsJoinable (work (work l)).worker
unfolding work
stopped-IsJoinable l s = ground arith

-- After a stop request, or once the destructor has asked the worker to stop, and until the next call of
-- `run`, whatever the threads do: only the cycle that was under way is still completed, and two steps of
-- the worker let a join return.
pub stop_bound :
    {l l' : Loop}
    → (l.stop_token || l.stop_requested) ≡ true
    → Onward l l'
    → (l'.completed_cycles ≤ l.completed_cycles + under_way l.worker)
      × IsJoinable (work (work l')).worker
stop_bound {l'} s o =
    let (asked, bound) = Onward-completed s o in (omega (arith, bound), stopped-IsJoinable l' asked)

-- The worker's own steps, and how many it takes for some cycles.
unfoldable work_steps : ℕ → Loop → Loop
work_steps zero l = l
work_steps (suc k) l = work_steps k (work l)

abbrev steps_for : ℕ → ℕ
steps_for zero = 1
steps_for (suc n) = suc (suc (steps_for n))

-- A worker with some cycles to go, and no stop requested.
abbrev at_work : Loop → ℕ → ℕ → Loop
at_work l n completed = record l {
  lifecycle_state = LifecycleState.running;
  stop_requested = false;
  stop_token = false;
  worker = Worker.at_head n;
  completed_cycles = completed;
}

work_steps-at_work :
    (l : Loop) (n completed : ℕ)
    → work_steps (steps_for n) (at_work l n completed) ≡ record l {
      lifecycle_state = LifecycleState.finished;
      stop_requested = false;
      stop_token = false;
      worker = Worker.ended;
      completed_cycles = completed + n;
    }
unfolding work_steps work
work_steps-at_work l zero completed = ground arith
work_steps-at_work l (suc n) completed = work_steps-at_work l n (completed + 1) ∙ ground arith

-- A call of `run` on an idle loop has all its cycles completed, and the loop finished, after finitely
-- many steps of the worker, two for each cycle and one to return, if no stop is requested meanwhile.
run_completes :
    (l : Loop) (n : ℕ)
    → l.lifecycle_state ≡ LifecycleState.idle
    → let done = work_steps (steps_for (suc n)) (run (suc n) l) in
      (done.completed_cycles ≡ l.completed_cycles + suc n)
      × (done.worker ≡ Worker.ended)
      × (done.lifecycle_state ≡ LifecycleState.finished)
unfolding run
run_completes l n idle =
    let e = work_steps-at_work l (suc n) l.completed_cycles in rw idle (rw e (refl, refl, refl))

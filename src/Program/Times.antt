-- ===== src/Program/Times.antt =====
-- When the cycles of the program are scheduled.
use mathlib.Core.Path.{subst}
use robot_controller.Prelude.{
  ℕ, suc, ◌+◌, ◌*◌, ◌≡◌, refl, ap, ◌∙◌, Option, none, some, ℤ, pos, ◌+ℤ◌, arith,
}
use robot_controller.Double.{Double}
use robot_controller.Scheduler.Portable
use robot_controller.Scheduler.Portable.{
  PortableControlScheduler, new_scheduler, advance_schedule, scheduled_cycle,
}
use robot_controller.Scheduler.Timeline.{after, scheduled-after}
use robot_controller.Scheduler.Platform.{Platform, Boot, ControlScheduler, base}
use robot_controller.Scheduler.Platform.Schedule.{returned_base, base-create}
use robot_controller.ControlLoop.Cycle.{update}
use robot_controller.Program.{
  Program, Step, Reach, period, begin, new_program, open_can, launch, pause, poll, join, report,
  close, leave, head, wait, take, finish, round, accept, reply, start, later,
}
use robot_controller.Program.Invariant.{begin_cases}

-- The schedule after some waits have returned.
schedule : ℤ → ℕ → PortableControlScheduler
schedule now n = after n (new_scheduler period now)

-- How many waits have returned, for the cycles completed and the one under way.
abbrev waits : Option ℤ → ℕ → ℕ
waits none completed = completed
waits (some scheduled) completed = completed + 1

abbrev InTime : ℤ → Option ℤ → ℕ → Type 0
InTime now none completed = Unit
InTime now (some scheduled) completed = scheduled ≡ now +ℤ pos (completed * (period * 1_000_000))

schedule-advance : (now : ℤ) (n : ℕ) → advance_schedule (schedule now n) ≡ schedule now (n + 1)
unfolding schedule after Portable.wait_for_next_cycle
schedule-advance now n =
    let next : advance_schedule (schedule now n) ≡ schedule now (suc n) = refl in
    let same : suc n ≡ n + 1 = omega arith in next ∙ ap (schedule now) same

scheduled_cycle-schedule :
    (now : ℤ) (n : ℕ) → scheduled_cycle (schedule now n) ≡ now +ℤ pos (n * (period * 1_000_000))
unfolding schedule Portable.wait_for_next_cycle
scheduled_cycle-schedule now n = scheduled-after n period now

module _ {W : Type 0} ⦃d : Double W⦄ (b : Boot) where
  record Inv (p : Program W) : Type 0 where
    pub on_schedule :
        base p.scheduler ≡ schedule b.base_now (waits p.scheduled p.loop.completed_cycles)
    pub in_time : InTime b.base_now p.scheduled p.loop.completed_cycles

  new_program-Inv : (platform : Platform) (p : Program W) → begin platform b ≡ some p → Inv p
  unfolding new_program schedule after
  new_program-Inv platform p e =
      let (scheduler, tx, made, encoded, same) = begin_cases platform b p e in
      subst Inv same
        (record { on_schedule = base-create platform b period scheduler made; in_time = tt })

  wait-Inv :
      (p : Program W) (scheduler : ControlScheduler W) (scheduled_start : ℤ)
      → p.scheduled ≡ none
      → Inv p
      → (scheduled_start ≡ scheduled_cycle (base p.scheduler))
        × (base scheduler ≡ advance_schedule (base p.scheduler))
      → Inv (record p { scheduler = scheduler; scheduled = some scheduled_start })
  wait-Inv p scheduler scheduled_start not_yet v (same, advanced) =
      let n = p.loop.completed_cycles in
      let now : base p.scheduler ≡ schedule b.base_now n = rw not_yet at v.on_schedule in
      record {
        on_schedule = advanced ∙ ap advance_schedule now ∙ schedule-advance b.base_now n;
        in_time = same ∙ ap scheduled_cycle now ∙ scheduled_cycle-schedule b.base_now n;
      }

  Step-Inv : {p p' : Program W} → Step p p' → Inv p → Inv p'
  unfolding update
  Step-Inv (open_can s) v = ground arith
  Step-Inv (launch s) v = ground arith
  Step-Inv (pause s waiting) v = v
  Step-Inv (poll s enough) v = ground arith
  Step-Inv (join s over) v = ground arith
  Step-Inv (report o elapsed s read) v = ground arith
  Step-Inv (close read out s over) v = ground arith
  Step-Inv (leave read out s over) v = ground arith
  Step-Inv (head n at) v = ground arith
  Step-Inv {p} (wait n w scheduler scheduled_start at not_yet back) v =
      wait-Inv p scheduler scheduled_start not_yet v
        (returned_base p.scheduler w scheduler scheduled_start back)
  Step-Inv (take n scheduled_start o at waited none_yet read) v = ground arith
  Step-Inv (finish n reported i at waited processor taken) v = record {
    on_schedule = rw waited at v.on_schedule;
    in_time = tt;
  }
  Step-Inv (round at) v = ground arith
  Step-Inv (accept at not_yet) v = ground arith
  Step-Inv (reply o frames at accepted read sent) v = ground arith

  Reach-Inv : {platform : Platform} {p : Program W} → Reach platform b p → Inv p
  Reach-Inv (start e) = new_program-Inv _ _ e
  Reach-Inv (later reached st) = Step-Inv st (Reach-Inv reached)

module _ {W : Type 0} ⦃d : Double W⦄ where
  -- On every platform and in every interleaving: the wait of the cycle that follows `k` complete ones,
  -- once it has returned, has given the time of the construction of the scheduler and `k` milliseconds,
  -- however late the cycles before it were.
  pub Reach-scheduled :
      {platform : Platform} {b : Boot} {p : Program W} (scheduled_start : ℤ)
      → Reach platform b p
      → p.scheduled ≡ some scheduled_start
      → scheduled_start ≡ b.base_now +ℤ pos (p.loop.completed_cycles * 1_000_000)
  Reach-scheduled {platform} {b} {p} scheduled_start reached waited =
      rw waited at (Reach-Inv b reached).in_time

-- ===== src/Program/Sequential.antt =====
-- The control loop of the whole program as its cycles alone, one after another.
use mathlib.Core.Path.{subst}
use robot_controller.Prelude.{
  ℕ, zero, suc, ◌+◌, ◌*◌, ◌≡◌, refl, sym, ap, ◌∙◌, List, [], ◌∷◌, ◌++◌, map, length, length-append,
  Option, none, some, ℤ, pos, ◌+ℤ◌, arith,
}
use robot_controller.Double.{Double}
use robot_controller.Scheduler.Portable
use robot_controller.Scheduler.Portable.{PortableControlScheduler, new_scheduler, advance_schedule}
use robot_controller.Scheduler.Platform.{Platform, Boot, base}
use robot_controller.Scheduler.Platform.Schedule.{returned_base, base-create}
use robot_controller.ControlLoop.Statistics.{Timing, timing}
use robot_controller.ControlLoop.Cycle.{ControlLoop, Inputs, update}
use robot_controller.ControlLoop.Maxima.{measure}
use robot_controller.ControlLoop.Tally.Totals.{IsTotal, measure-IsTotal}
use robot_controller.Program.{
  Program, Step, Reach, period, initial_loop, begin, new_program, open_can, launch, pause, poll,
  join, report, close, leave, head, wait, take, finish, round, accept, reply, start, later,
}
use robot_controller.Program.Invariant.{begin_cases}
use robot_controller.Program.Times.{Reach-scheduled}
use robot_controller.Program.Trace.{add_cycle, add_read, cycles_of, reads_of}
use robot_controller.Types.{JointCommand}

-- The times of some cycles, a millisecond apart.
pub timeline : ℤ → ℕ → List ℤ
timeline now zero = []
timeline now (suc n) = timeline now n ++ ((now +ℤ pos (n * 1_000_000)) ∷ [])

timeline-add_one :
    (now : ℤ) (n : ℕ) → timeline now (n + 1) ≡ timeline now n ++ ((now +ℤ pos (n * 1_000_000)) ∷ [])
unfolding timeline
timeline-add_one now n = let same : n + 1 ≡ suc n = omega arith in ap (timeline now) same

map-append_one :
    {A B : Type 0} (f : A → B) (xs : List A) (x : A)
    → map f (xs ++ (x ∷ [])) ≡ map f xs ++ (f x ∷ [])
map-append_one f [] x = refl
map-append_one f (y ∷ ys) x = ap (λ rest. f y ∷ rest) (map-append_one f ys x)

module _ {W : Type 0} ⦃d : Double W⦄ where
  -- Some cycles with nothing between them.
  abbrev pub sequence : Timing W → List (Inputs W) → ControlLoop W → ControlLoop W
  sequence scheduler [] l = l
  sequence scheduler (i ∷ rest) l = sequence scheduler rest (update scheduler i l)

  sequence-append_one :
      (scheduler : Timing W) (cycles : List (Inputs W)) (i : Inputs W) (l : ControlLoop W)
      → sequence scheduler (cycles ++ (i ∷ [])) l ≡ update scheduler i (sequence scheduler cycles l)
  sequence-append_one scheduler [] i l = refl
  sequence-append_one scheduler (j ∷ rest) i l =
      sequence-append_one scheduler rest i (update scheduler j l)

  statistics-sequence :
      (scheduler : Timing W) (cycles : List (Inputs W)) (l : ControlLoop W)
      → (sequence scheduler cycles l).statistics ≡ measure scheduler cycles l.statistics
  unfolding measure update
  statistics-sequence scheduler [] l = refl
  statistics-sequence scheduler (i ∷ rest) l =
      statistics-sequence scheduler rest (update scheduler i l)

  -- The scheduler's tests, for a period of a millisecond.
  abbrev pub every_millisecond : Timing W
  every_millisecond = timing (record { period = pos 1_000_000; next_cycle = pos 0 })

  timing-period :
      (s : PortableControlScheduler)
      → s.period ≡ pos 1_000_000
      → timing {W = W} s ≡ every_millisecond
  unfolding Portable.has_backlog Portable.scheduling_delay Portable.backlog
  timing-period s e = ap (λ p. timing (record { period = p; next_cycle = pos 0 })) e

module _ {W : Type 0} ⦃d : Double W⦄ where
  -- The cycles have got what was read, but for a read of the cycle under way.
  abbrev Got :
      List (Option (JointCommand W))
      → Option (Option (JointCommand W))
      → List (Option (JointCommand W))
      → Type 0
  Got got none reads = got ≡ reads
  Got got (some o) reads = got ++ (o ∷ []) ≡ reads

module _ {W : Type 0} ⦃d : Double W⦄ (b : Boot) where
  -- The data of the control loop is what these cycles make of it, one after another, from the data it
  -- was made with; they are as many as are complete, were scheduled a millisecond apart, the first for
  -- the construction of the scheduler, and got what was read from the command buffer, in order.
  pub record IsSequential (cycles : List (Inputs W)) (reads : List (Option (JointCommand W)))
      (taken : Option (Option (JointCommand W))) (l : ControlLoop W) : Type 0 where
    pub many : length cycles ≡ l.completed_cycles
    pub same : l ≡ sequence every_millisecond cycles initial_loop
    pub in_time : map (λ i. i.scheduled_start) cycles ≡ timeline b.base_now l.completed_cycles
    pub got : Got (map (λ i. i.can_command) cycles) taken reads

  record Inv (cycles : List (Inputs W)) (reads : List (Option (JointCommand W))) (p : Program W)
      : Type 0 where
    pub millisecond : (base p.scheduler).period ≡ pos 1_000_000
    pub run : IsSequential cycles reads p.taken p.loop

  new_program-Inv : (platform : Platform) (p : Program W) → begin platform b ≡ some p → Inv [] [] p
  unfolding new_program timeline new_scheduler
  new_program-Inv platform p e =
      let (scheduler, tx, made, encoded, same) = begin_cases platform b p e in
      subst (Inv [] []) same (record {
        millisecond = ap (λ s. s.period) (base-create platform b period scheduler made);
        run = record { many = refl; same = refl; in_time = refl; got = refl };
      })

  update-IsSequential :
      {cycles : List (Inputs W)} {reads : List (Option (JointCommand W))}
      {taken : Option (Option (JointCommand W))} (scheduler : Timing W) (i : Inputs W)
      (l : ControlLoop W)
      → scheduler ≡ every_millisecond
      → i.scheduled_start ≡ b.base_now +ℤ pos (l.completed_cycles * 1_000_000)
      → taken ≡ some i.can_command
      → IsSequential cycles reads taken l
      → IsSequential (cycles ++ (i ∷ [])) reads none (update scheduler i l)
  unfolding update
  update-IsSequential {cycles} {reads} scheduler i l known at read v = record {
    many = length-append cycles (i ∷ []) ∙ ap (λ n. n + 1) v.many;
    same =
        rw known (ap (update every_millisecond i) v.same)
        ∙ sym (sequence-append_one every_millisecond cycles i initial_loop);
    in_time =
        map-append_one (λ j. j.scheduled_start) cycles i
        ∙ rw (v.in_time, at) (sym (timeline-add_one b.base_now l.completed_cycles));
    got =
        map-append_one (λ j. j.can_command) cycles i
        ∙ subst (λ o. Got (map (λ j. j.can_command) cycles) o reads) read v.got;
  }

  take-IsSequential :
      {cycles : List (Inputs W)} {reads : List (Option (JointCommand W))}
      {taken : Option (Option (JointCommand W))} {l : ControlLoop W} (o : Option (JointCommand W))
      → taken ≡ none
      → IsSequential cycles reads taken l
      → IsSequential cycles (reads ++ (o ∷ [])) (some o) l
  take-IsSequential {cycles} {reads} o nothing v = record {
    many = v.many;
    same = v.same;
    in_time = v.in_time;
    got =
        ap (λ got. got ++ (o ∷ []))
          (subst (λ t. Got (map (λ j. j.can_command) cycles) t reads) nothing v.got);
  }

  Step-Inv :
      {platform : Platform} {p p' : Program W} {cycles : List (Inputs W)}
      {reads : List (Option (JointCommand W))}
      → Reach platform b p
      → (st : Step p p') → Inv cycles reads p
      → Inv (add_cycle st cycles) (add_read st reads) p'
  unfolding advance_schedule
  Step-Inv reached (open_can s) v = record { millisecond = v.millisecond; run = v.run }
  Step-Inv reached (launch s) v = record { millisecond = v.millisecond; run = v.run }
  Step-Inv reached (pause s waiting) v = record { millisecond = v.millisecond; run = v.run }
  Step-Inv reached (poll s enough) v = record { millisecond = v.millisecond; run = v.run }
  Step-Inv reached (join s over) v = record { millisecond = v.millisecond; run = v.run }
  Step-Inv reached (report o elapsed s read) v = record { millisecond = v.millisecond; run = v.run }
  Step-Inv reached (close read out s over) v = record { millisecond = v.millisecond; run = v.run }
  Step-Inv reached (leave read out s over) v = record { millisecond = v.millisecond; run = v.run }
  Step-Inv reached (head n at) v = record { millisecond = v.millisecond; run = v.run }
  Step-Inv {p} reached (wait n w scheduler scheduled_start at not_yet back) v =
      let (_, advanced) = returned_base p.scheduler w scheduler scheduled_start back in
      record { millisecond = ap (λ s. s.period) advanced ∙ v.millisecond; run = v.run }
  Step-Inv reached (take n scheduled_start o at waited nothing read) v = record {
    millisecond = v.millisecond;
    run = take-IsSequential o nothing v.run;
  }
  Step-Inv {p} reached (finish n reported i at waited processor taken) v = record {
    millisecond = v.millisecond;
    run =
        update-IsSequential (timing (base p.scheduler)) i p.loop
          (timing-period (base p.scheduler) v.millisecond)
          (Reach-scheduled i.scheduled_start reached waited) taken v.run;
  }
  Step-Inv reached (round at) v = record { millisecond = v.millisecond; run = v.run }
  Step-Inv reached (accept at not_yet) v = record { millisecond = v.millisecond; run = v.run }
  Step-Inv reached (reply o frames at accepted read sent) v = record {
    millisecond = v.millisecond;
    run = v.run;
  }

  Reach-Inv :
      {platform : Platform} {p : Program W} (reached : Reach platform b p)
      → Inv (cycles_of reached) (reads_of reached) p
  Reach-Inv (start e) = new_program-Inv _ _ e
  Reach-Inv (later reached st) = Step-Inv reached st (Reach-Inv reached)

module _ {W : Type 0} ⦃d : Double W⦄ where
  -- On every platform and in every interleaving, for the cycles that have been completed, in order: the
  -- data of the control loop is what they make of it one after another, from the data it was made with;
  -- they were scheduled a millisecond apart, the first for the time at which the scheduler was made;
  -- and the commands that they got are those that the reads of the command buffer gave, in order, with
  -- none lost and none taken twice. The read of a cycle under way is the last one.
  pub Reach-IsSequential :
      {platform : Platform} {b : Boot} {p : Program W} (reached : Reach platform b p)
      → IsSequential b (cycles_of reached) (reads_of reached) p.taken p.loop
  Reach-IsSequential {b} reached = (Reach-Inv b reached).run

  -- The counters of such data are the counts over its cycles.
  pub Reach-IsTotal :
      {platform : Platform} {b : Boot} {p : Program W} (reached : Reach platform b p)
      → IsTotal every_millisecond (cycles_of reached) p.loop.statistics
  Reach-IsTotal reached =
      let cycles = cycles_of reached in
      let statistics =
        ap (λ l. l.statistics) (Reach-IsSequential reached).same
        ∙ statistics-sequence every_millisecond cycles initial_loop in
      subst (IsTotal every_millisecond cycles) (sym statistics)
        (measure-IsTotal every_millisecond cycles)

-- ===== src/ControlLoop/Recovery.antt =====
-- How soon the control loop is on schedule again after a delay.
use robot_controller.Prelude.{
  ℕ, zero, suc, ◌+◌, ◌*◌, ◌-◌, ◌≤◌, ◌<◌, ◌≡◌, ◌⊎◌, inl, inr, false, Bool, List, [], ◌∷◌, ℤ, pos,
  ◌+ℤ◌, ◌≤ℤ◌, ◌<ℤ◌, leb_ℤ, ltb_ℤ, arith, int_laws,
}
use robot_controller.Double.{Double}
use robot_controller.Scheduler.Portable
use robot_controller.Scheduler.Portable.{PortableControlScheduler}
use robot_controller.ControlLoop.Statistics.{timing, new_statistics}
use robot_controller.ControlLoop.Cycle.{Inputs, control_period}
use robot_controller.ControlLoop.Maxima.{measure}
use robot_controller.ControlLoop.Tally.{weight, behind_schedule, missed}
use robot_controller.ControlLoop.Tally.Sums.{count, greater_of}
use robot_controller.ControlLoop.Tally.Totals.{measure-IsTotal}

leb_ℤ-false : (a b : ℤ) → b <ℤ a → leb_ℤ a b ≡ false
leb_ℤ-false a b h = ground arith

ltb_ℤ-false : (a b : ℤ) → b ≤ℤ a → ltb_ℤ a b ≡ false
ltb_ℤ-false a b h = ground arith

greater_of-left : (m n : ℕ) → m ≤ greater_of m n
greater_of-left m n = ground arith

greater_of-right : (m n : ℕ) → n ≤ greater_of m n
greater_of-right m n = ground arith

one_more : (b : Bool) (n k : ℕ) → n ≤ k → weight b + n ≤ suc k
one_more b n k h = ground arith

still_small :
    (j e g delay : ℕ)
    → j + e + g ≡ 1_000_000
    → 1 ≤ g
    → delay + e < 1_000_000 + 0 * g
    → greater_of j (delay - g) + e < 1_000_000 + 0 * g
still_small j e g delay budget spare small = ground arith

smaller :
    (j e g k delay : ℕ)
    → j + e + g ≡ 1_000_000
    → 1 ≤ g
    → delay + e < 1_000_000 + suc k * g
    → greater_of j (delay - g) + e < 1_000_000 + k * g
smaller j e g k delay budget spare small =
    let more : suc k * g ≡ k * g + g = omega arith in ground (arith, more)

module _ {W : Type 0} where
  -- A cycle that is scheduled a period after another one, and starts at most `j` nanoseconds after the
  -- time for which it is scheduled or after the end of the other, whichever is later.
  pub record Follows (j : ℕ) (i next : Inputs W) : Type 0 where
    pub scheduled : next.scheduled_start ≡ i.scheduled_start +ℤ control_period
    pub started :
        (next.cycle_start ≤ℤ next.scheduled_start +ℤ pos j)
        ⊎ (next.cycle_start ≤ℤ i.actual_end +ℤ pos j)

  -- Cycles of at most `e` nanoseconds, each of which follows the one before it.
  abbrev pub Prompt : ℕ → ℕ → Inputs W → List (Inputs W) → Type 0
  Prompt j e i [] = i.actual_end ≤ℤ i.cycle_start +ℤ pos e
  Prompt j e i (next ∷ rest) =
      (i.actual_end ≤ℤ i.cycle_start +ℤ pos e) × Follows j i next × Prompt j e next rest

  -- What is left of a delay in the next cycle, if a cycle has `g` nanoseconds to spare.
  left_over :
      (j e g delay : ℕ) (i next : Inputs W)
      → j + e + g ≡ 1_000_000
      → i.actual_end ≤ℤ i.cycle_start +ℤ pos e
      → i.cycle_start ≤ℤ i.scheduled_start +ℤ pos delay
      → Follows j i next
      → next.cycle_start ≤ℤ next.scheduled_start +ℤ pos (greater_of j (delay - g))
  left_over j e g delay i next budget lasts start f = elim f.started [
    | inl at_time ↦ omega (int_laws, greater_of-left j (delay - g))
    | inr after_end ↦ rw f.scheduled (omega (int_laws, greater_of-right j (delay - g)))
  ]

module _ {W : Type 0} ⦃d : Double W⦄ (s : PortableControlScheduler) where
  on_time :
      (i : Inputs W) (delay : ℕ)
      → s.period ≡ control_period
      → i.cycle_start ≤ℤ i.scheduled_start +ℤ pos delay
      → delay < 1_000_000
      → behind_schedule (timing s) i ≡ false
  unfolding Portable.has_backlog
  on_time i delay period start small =
      rw period (leb_ℤ-false (i.scheduled_start +ℤ control_period) i.cycle_start (omega int_laws))

  in_time :
      (i : Inputs W) (e delay : ℕ)
      → i.actual_end ≤ℤ i.cycle_start +ℤ pos e
      → i.cycle_start ≤ℤ i.scheduled_start +ℤ pos delay
      → delay + e ≤ 1_000_000
      → missed (timing s) i ≡ false
  in_time i e delay lasts start small =
      ltb_ℤ-false (i.scheduled_start +ℤ control_period) i.actual_end (omega int_laws)

  -- The cycles that start a period late or later, and those that miss their deadline, are at most `k`.
  few :
      (j e g k delay : ℕ) (i : Inputs W) (rest : List (Inputs W))
      → s.period ≡ control_period
      → j + e + g ≡ 1_000_000
      → 1 ≤ g
      → delay + e < 1_000_000 + k * g
      → i.cycle_start ≤ℤ i.scheduled_start +ℤ pos delay
      → Prompt j e i rest
      → (count (behind_schedule (timing s)) (i ∷ rest) ≤ k)
        × (count (missed (timing s)) (i ∷ rest) ≤ k)
  few j e g zero delay i [] period budget spare small start lasts =
      rw
        (
          on_time i delay period start (omega (arith, small)),
          in_time i e delay lasts start (omega (arith, small)),
        )
        (omega arith, omega arith)
  few j e g (suc k) delay i [] period budget spare small start lasts = (
    one_more (behind_schedule (timing s) i) 0 k (omega arith),
    one_more (missed (timing s) i) 0 k (omega arith),
  )
  few j e g zero delay i (next ∷ rest) period budget spare small start (lasts, f, prompt) =
      let (delayed, misses) =
        few j e g zero (greater_of j (delay - g)) next rest period budget spare
          (still_small j e g delay budget spare small)
          (left_over j e g delay i next budget lasts start f) prompt in
      rw
        (
          on_time i delay period start (omega (arith, small)),
          in_time i e delay lasts start (omega (arith, small)),
        )
        (omega (arith, delayed), omega (arith, misses))
  few j e g (suc k) delay i (next ∷ rest) period budget spare small start (lasts, f, prompt) =
      let (delayed, misses) =
        few j e g k (greater_of j (delay - g)) next rest period budget spare
          (smaller j e g k delay budget spare small)
          (left_over j e g delay i next budget lasts start f) prompt in
      (
        one_more (behind_schedule (timing s) i) _ k delayed,
        one_more (missed (timing s) i) _ k misses,
      )

  -- A scheduler's period is a millisecond; each cycle starts at most `j` nanoseconds after the later of
  -- its scheduled time and the end of the one before, and takes at most `e`; `j` and `e` leave `g`, one
  -- or more, of the period. Then the time that is lost is made up: in a list of cycles scheduled a
  -- period apart, the first of which starts late by at most `delay`, at most `k` are counted as delayed,
  -- which are those that start a whole period or more after their scheduled time, and at most `k` miss
  -- their deadline, if `delay + e` is less than a millisecond and `k` times `g` together. A start that
  -- is late by less than a period is not counted, and not bounded here.
  pub recovery_bound :
      (j e g k delay : ℕ) (i : Inputs W) (rest : List (Inputs W))
      → s.period ≡ control_period
      → j + e + g ≡ 1_000_000
      → 1 ≤ g
      → delay + e < 1_000_000 + k * g
      → i.cycle_start ≤ℤ i.scheduled_start +ℤ pos delay
      → Prompt j e i rest
      → let after = measure (timing s) (i ∷ rest) new_statistics in
        (after.delayed_cycles ≤ k) × (after.deadline_misses ≤ k)
  recovery_bound j e g k delay i rest period budget spare small start prompt =
      let (delayed, misses) = few j e g k delay i rest period budget spare small start prompt in
      let total = measure-IsTotal (timing s) (i ∷ rest) in
      (rw total.delayed delayed, rw total.misses misses)

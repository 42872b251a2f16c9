-- ===== src/ControlLoop/Tally/Sums.antt =====
-- The counters after some cycles, as counts over the list of the cycles.
use robot_controller.Prelude.{
  ℕ, ◌+◌, ◌≤◌, ◌≡◌, ◌∙◌, Bool, true, false, ◌&&◌, not, List, [], ◌∷◌, ℤ, pos, ltb, leb_ℤ,
  if◌then◌else◌, arith,
}
use robot_controller.Double.{Double}
use robot_controller.ControlLoop.Statistics.{Timing}
use robot_controller.ControlLoop.Cycle.{Inputs}
use robot_controller.ControlLoop.Tally.{
  Tally, weight, differs, under_100us, up_to_1ms, up_to_5ms, up_to_10ms, over_10ms, behind_schedule,
  far, delay, missed, started_late, overran, counted, after,
}

abbrev pub greater_of : ℕ → ℕ → ℕ
greater_of m n = if ltb m n then n else m

module _ {A : Type 0} (p : A → Bool) where
  -- How many elements pass a test.
  abbrev pub count : List A → ℕ
  count [] = 0
  count (x ∷ xs) = weight (p x) + count xs

  -- How many elements at the start of a list pass a test, one after another.
  abbrev pub run : List A → ℕ
  run [] = 0
  run (x ∷ xs) = let rest = run xs in if p x then rest + 1 else 0

  -- The greatest number of elements that follow one another and pass a test.
  abbrev pub longest : List A → ℕ
  longest [] = 0
  longest (x ∷ xs) = greater_of (run (x ∷ xs)) (longest xs)

  pub run-longest : (xs : List A) → run xs ≤ longest xs
  run-longest [] = omega arith
  run-longest (x ∷ xs) = ground arith

-- How often a number differs from the one before it.
abbrev pub changes_from : ℤ → List ℤ → ℕ
changes_from p [] = 0
changes_from p (q ∷ rest) = weight (differs q p) + changes_from q rest

abbrev pub changes : List ℤ → ℕ
changes [] = 0
changes (p ∷ rest) = changes_from p rest

run_bounded :
    (b : Bool) (run longest : ℕ)
    → run ≤ longest
    → (if b then run + 1 else 0) ≤ (if b then greater_of longest (run + 1) else longest)
run_bounded true run longest h = ground arith
run_bounded false run longest h = omega arith

-- A further element `b`, after a run of `c` where the longest one was `l`, and before a list that starts
-- with a run of `r` and whose longest is `m`.
longer :
    (b : Bool) (l c r m : ℕ)
    → c ≤ l
    → r ≤ m
    → greater_of
        (greater_of (if b then greater_of l (c + 1) else l) ((if b then c + 1 else 0) + r))
        m
      ≡ greater_of
          (greater_of l (c + (if b then r + 1 else 0)))
          (greater_of (if b then r + 1 else 0) m)
longer true l c r m h k = ground arith
longer false l c r m h k = ground arith

module _ {W : Type 0} where
  -- The processors of the cycles whose processor the scheduler knows.
  abbrev pub known_processors : List (Inputs W) → List ℤ
  known_processors [] = []
  known_processors (i ∷ cycles) =
      let rest = known_processors cycles in
      if leb_ℤ (pos 0) i.processor then i.processor ∷ rest else rest

module _ {W : Type 0} ⦃d : Double W⦄ (scheduler : Timing W) where
  -- The counters, as what they count. A deadline that is missed is put down to scheduling, execution or
  -- both by whether the cycle started late and whether it ran longer than a period, and to execution
  -- where neither is so.
  pub record Counts (cycles : List (Inputs W)) (old new : Tally) : Type 0 where
    pub delayed : new.delayed ≡ old.delayed + count (behind_schedule scheduler) cycles
    pub backlog :
        new.backlog
        ≡ old.backlog + count (λ i. behind_schedule scheduler i && far scheduler i) cycles
    pub misses : new.misses ≡ old.misses + count (missed scheduler) cycles
    pub combined :
        new.combined
        ≡ old.combined
          + count
              (λ i. missed scheduler i && started_late scheduler i && overran scheduler i)
              cycles
    pub scheduling :
        new.scheduling
        ≡ old.scheduling
          + count
              (λ i. missed scheduler i && started_late scheduler i && not (overran scheduler i))
              cycles
    pub execution :
        new.execution
        ≡ old.execution + count (λ i. missed scheduler i && not (started_late scheduler i)) cycles
    pub under_100us :
        new.under_100us ≡ old.under_100us + count (λ i. under_100us (delay scheduler i)) cycles
    pub up_to_1ms :
        new.up_to_1ms ≡ old.up_to_1ms + count (λ i. up_to_1ms (delay scheduler i)) cycles
    pub up_to_5ms :
        new.up_to_5ms ≡ old.up_to_5ms + count (λ i. up_to_5ms (delay scheduler i)) cycles
    pub up_to_10ms :
        new.up_to_10ms ≡ old.up_to_10ms + count (λ i. up_to_10ms (delay scheduler i)) cycles
    pub over_10ms :
        new.over_10ms ≡ old.over_10ms + count (λ i. over_10ms (delay scheduler i)) cycles

  counted-Counts : (i : Inputs W) (t : Tally) → Counts (i ∷ []) t (counted scheduler i t)
  unfolding counted
  counted-Counts i t = record {
    delayed = ground arith;
    backlog = ground arith;
    misses = ground arith;
    combined = ground arith;
    scheduling = ground arith;
    execution = ground arith;
    under_100us = ground arith;
    up_to_1ms = ground arith;
    up_to_5ms = ground arith;
    up_to_10ms = ground arith;
    over_10ms = ground arith;
  }

  pub after-Counts :
      (cycles : List (Inputs W)) (t : Tally) → Counts cycles t (after scheduler cycles t)
  unfolding after
  after-Counts [] t = record {
    delayed = omega arith;
    backlog = omega arith;
    misses = omega arith;
    combined = omega arith;
    scheduling = omega arith;
    execution = omega arith;
    under_100us = omega arith;
    up_to_1ms = omega arith;
    up_to_5ms = omega arith;
    up_to_10ms = omega arith;
    over_10ms = omega arith;
  }
  after-Counts (i ∷ rest) t =
      let first = counted-Counts i t in
      let others = after-Counts rest (counted scheduler i t) in
      record {
        delayed = omega (arith, first.delayed, others.delayed);
        backlog = omega (arith, first.backlog, others.backlog);
        misses = omega (arith, first.misses, others.misses);
        combined = omega (arith, first.combined, others.combined);
        scheduling = omega (arith, first.scheduling, others.scheduling);
        execution = omega (arith, first.execution, others.execution);
        under_100us = omega (arith, first.under_100us, others.under_100us);
        up_to_1ms = omega (arith, first.up_to_1ms, others.up_to_1ms);
        up_to_5ms = omega (arith, first.up_to_5ms, others.up_to_5ms);
        up_to_10ms = omega (arith, first.up_to_10ms, others.up_to_10ms);
        over_10ms = omega (arith, first.over_10ms, others.over_10ms);
      }

  counted-run :
      (i : Inputs W) (t : Tally)
      → (counted scheduler i t).run ≡ (if behind_schedule scheduler i then t.run + 1 else 0)
  unfolding counted
  counted-run i t = ground arith

  counted-longest :
      (i : Inputs W) (t : Tally)
      → (counted scheduler i t).longest
        ≡ (if behind_schedule scheduler i then greater_of t.longest (t.run + 1) else t.longest)
  unfolding counted
  counted-longest i t = ground arith

  pub after-longest :
      (cycles : List (Inputs W)) (t : Tally)
      → t.run ≤ t.longest
      → (after scheduler cycles t).longest
        ≡ greater_of
            (greater_of t.longest (t.run + run (behind_schedule scheduler) cycles))
            (longest (behind_schedule scheduler) cycles)
  unfolding after
  after-longest [] t h = ground arith
  after-longest (i ∷ rest) t h =
      let counted_run = counted-run i t in
      let counted_longest = counted-longest i t in
      let bounded : (counted scheduler i t).run ≤ (counted scheduler i t).longest =
        rw (counted_run, counted_longest)
          (run_bounded (behind_schedule scheduler i) t.run t.longest h) in
      after-longest rest (counted scheduler i t) bounded
      ∙ rw (counted_run, counted_longest)
          (longer (behind_schedule scheduler i) t.longest t.run
            (run (behind_schedule scheduler) rest) (longest (behind_schedule scheduler) rest) h
            (run-longest (behind_schedule scheduler) rest))

  pub after-changes :
      (cycles : List (Inputs W)) (t : Tally)
      → (after scheduler cycles t).changes
        ≡ t.changes
          + (if leb_ℤ (pos 0) t.processor
              then changes_from t.processor (known_processors cycles)
              else changes (known_processors cycles))
  unfolding after counted
  after-changes [] t = ground arith
  after-changes (i ∷ rest) t = ground (arith, after-changes rest (counted scheduler i t))

-- ===== src/Seqlock/Reader.antt =====
-- What a read may return while the writer goes on.
use mathlib.Core.List.{append_assoc}
use mathlib.Core.Option.{some-injective}
use robot_controller.Prelude.{
  ℕ, zero, suc, ◌+◌, ◌*◌, ◌%◌, ◌≤◌, ◌<◌, ◌≡◌, refl, sym, ap₂, ◌-◌, ◌∙◌, inl, inr, Bool-cases,
  Option-cases, some, List, [], ◌∷◌, ◌++◌, ◌==◌, get_elem?, length, arith, length-append, ==_iff,
}
use robot_controller.Seqlock.{
  u64_mod, Write, advance, store, Memory, History, cell_or, or_else, load_cells, attempt, duration,
  read, publish,
}
use robot_controller.Seqlock.Writer.{
  Machine, Step, begin, write, Steps, here, then, Inv, Phase, idle, ready, storing, quiet_of_even,
  Steps-Inv,
}

module _ {W : Type 0} where
  Step-additions : {size : ℕ} {s t : Machine W} → Step size s t → s.additions ≤ t.additions
  Step-additions (begin values e p) = omega arith
  Step-additions (write w ws e) = omega arith

  Steps-additions : {size : ℕ} {s t : Machine W} → Steps size s t → s.additions ≤ t.additions
  Steps-additions here = omega arith
  Steps-additions (then r st) = omega (arith, Steps-additions r, Step-additions st)

  -- While the sequence number stays at an even value, so does the current publication.
  quiet-write :
      {s : Machine W} (w : Write W) (ws : List (Write W)) (u : List W)
      → s.pending ≡ w ∷ ws
      → Phase s
      → s.additions % 2 ≡ 0
      → (i : ℕ) (x : W) → w ≡ store i x
      → u ≡ s.current
  unfolding publish
  quiet-write w ws u e (idle p _) even i x q = absurd (cc)
  quiet-write w ws u e (ready p _) even i x q = absurd (cc)
  quiet-write w ws u e (storing j xs p _ odd) even i x q = absurd (omega arith)

  Step-current :
      {size : ℕ} {s t : Machine W}
      → Step size s t
      → Inv size s
      → s.additions % 2 ≡ 0
      → t.additions ≡ s.additions
      → t.current ≡ s.current
  Step-current (begin values e p) inv even same = refl
  Step-current (write advance ws e) inv even same = absurd (omega arith)
  Step-current (write (store i x) ws e) inv even same =
      quiet-write (store i x) ws _ e inv.phase even i x refl

  Steps-current :
      {size : ℕ} {s t : Machine W}
      → Steps size s t
      → Inv size s
      → s.additions % 2 ≡ 0
      → t.additions ≡ s.additions
      → t.current ≡ s.current
  Steps-current here inv even same = refl
  Steps-current {s = s} (then {t = m} r st) inv even same =
      let level : m.additions ≡ s.additions = omega (arith, Steps-additions r, Step-additions st) in
      Step-current st (Steps-Inv r inv) (rw level even) (omega arith)
      ∙ Steps-current r inv even level

  get_elem?-append :
      (before rest : List W) (x : W) → get_elem? (before ++ (x ∷ rest)) (length before) ≡ some x
  get_elem?-append [] rest x = refl
  get_elem?-append (b ∷ before) rest x = get_elem?-append before rest x

  length-snoc : (before : List W) (x : W) → length (before ++ (x ∷ [])) ≡ suc (length before)
  length-snoc before x = omega (arith, length-append before (x ∷ []))

  -- Loads from cells that stay the same give these.
  pub load_cells-append :
      (x₀ : W) (h : History W) (rest before : List W) (t : ℕ)
      → ((k : ℕ) → k < length rest → (h (t + k)).cells ≡ before ++ rest)
      → load_cells x₀ h t (length before) (length rest) ≡ rest
  unfolding load_cells
  load_cells-append x₀ h [] before t same = refl
  load_cells-append x₀ h (x ∷ rest) before t same = ap₂ ◌∷◌ head (
      rw (← length-snoc before x) (
        load_cells-append x₀ h rest (before ++ (x ∷ [])) (suc t)
          λ k q. shift k (same (suc k) (omega arith))))
    where
      shift :
          (k : ℕ)
          → (h (t + suc k)).cells ≡ before ++ (x ∷ rest)
          → (h (suc t + k)).cells ≡ (before ++ (x ∷ [])) ++ rest
      shift k e =
          let moment : suc t + k ≡ t + suc k = omega arith in
          rw (moment, append_assoc before (x ∷ []) rest) e

      head : cell_or x₀ (get_elem? (h t).cells (length before)) ≡ x
      head =
          let moment : t + 0 ≡ t = omega arith in
          rw (rw moment at (same 0 (omega arith)), get_elem?-append before rest x)

-- A buffer at a sequence of moments, between which the writer makes any number of steps.
pub record IsRun {W : Type 0} (size : ℕ) (at : ℕ → Machine W) : Type 0 where
  pub valid : Inv size (at 0)
  pub steps : (t : ℕ) → Steps size (at t) (at (suc t))

module _ {W : Type 0} {size : ℕ} (at : ℕ → Machine W) (run : IsRun size at) where
  pub at-Inv : (t : ℕ) → Inv size (at t)
  at-Inv zero = run.valid
  at-Inv (suc t) = Steps-Inv (run.steps t) (at-Inv t)

  pub additions_mono : (t k : ℕ) → (at t).additions ≤ (at (t + k)).additions
  additions_mono t zero = let e : t + 0 ≡ t = omega arith in rw e (omega arith)
  additions_mono t (suc k) =
      let e : t + suc k ≡ suc (t + k) = omega arith in
      rw e (omega (arith, additions_mono t k, Steps-additions (run.steps (t + k))))

  -- Between two moments with the same, even number of additions nothing happens to the cells.
  additions_between :
      (t k n : ℕ)
      → k ≤ n
      → (at (t + n)).additions ≡ (at t).additions
      → (at (t + k)).additions ≡ (at t).additions
  additions_between t k n q e =
      let moment : t + k + (n - k) ≡ t + n = omega arith in
      let later : (at (t + k)).additions ≤ (at (t + n)).additions =
        rw moment at (additions_mono (t + k) (n - k)) in
      omega (arith, additions_mono t k)

  current-eq :
      (t k : ℕ)
      → (at t).additions % 2 ≡ 0
      → (at (t + k)).additions ≡ (at t).additions
      → (at (t + k)).current ≡ (at t).current
  current-eq t zero even e = let m : t + 0 ≡ t = omega arith in rw m
  current-eq t (suc k) even e =
      let m : t + suc k ≡ suc (t + k) = omega arith in
      let before : (at (t + k)).additions ≡ (at t).additions =
        additions_between t k (suc k) (omega arith) e in
      rw m (
        Steps-current (run.steps (t + k)) (at-Inv (t + k)) (rw before even) (rw before (rw m at e))
        ∙ current-eq t k even before)

  cells-eq :
      (t k : ℕ)
      → (at t).additions % 2 ≡ 0
      → (at (t + k)).additions ≡ (at t).additions
      → (at (t + k)).memory.cells ≡ (at t).current
  cells-eq t k even e = quiet_of_even (at-Inv (t + k)) (rw e even) ∙ current-eq t k even e

  -- The read of a buffer of this run.
  abbrev pub seen : ℕ → Memory W
  seen t = (at t).memory

  loads-current :
      (x₀ : W) (t : ℕ)
      → (at t).additions % 2 ≡ 0
      → (at (suc t + size)).additions ≡ (at t).additions
      → load_cells x₀ seen (suc t) 0 size ≡ (at t).current
  loads-current x₀ t even same =
      rw (← (at-Inv t).current_size)
        (load_cells-append x₀ seen (at t).current [] (suc t) λ k q. cells k (omega arith))
    where
      cells : (k : ℕ) → k < length (at t).current → (at (suc t + k)).memory.cells ≡ (at t).current
      cells k q =
          let m : suc t + k ≡ t + suc k = omega arith in
          let end : suc t + size ≡ t + suc size = omega arith in
          let size-eq = (at-Inv t).current_size in
          rw m (
            cells-eq t (suc k) even
              (additions_between t (suc k) (suc size) (omega arith) (rw end at same)))

  -- A round that succeeds returns what was the last complete publication when the round began.
  attempt-current :
      (x₀ : W) (t : ℕ) (values : List W)
      → ((u : ℕ) → (at u).additions < u64_mod)
      → attempt x₀ size seen t ≡ some values
      → values ≡ (at t).current
  unfolding attempt
  attempt-current x₀ t values bounded e = elim (Bool-cases (((at t).memory.sequence % 2) == 0)) [
    | inr odd ↦ absurd (cc (rw odd at e))
    | inl even ↦ elim (Bool-cases ((at t).memory.sequence == (at (suc t + size)).memory.sequence)) [
      | inr moved ↦ absurd (cc (rw (even, moved) at e))
      | inl still ↦
          let even' : (at t).memory.sequence % 2 ≡ 0 = (==_iff _ 0).0 even in
          let still' =
            (==_iff (at t).memory.sequence (at (suc t + size)).memory.sequence).0 still in
          let parity : (at t).additions % 2 ≡ 0 = omega (arith, (at-Inv t).sequence, bounded t) in
          let same : (at (suc t + size)).additions ≡ (at t).additions = omega (
            arith,
            (at-Inv t).sequence,
            (at-Inv (suc t + size)).sequence,
            bounded t,
            bounded (suc t + size),
          ) in
          some-injective _ _ (sym (rw (even, still) at e)) ∙ loads-current x₀ t parity same
    ]
  ]

  duration-le : (t : ℕ) → duration size seen t ≤ size + 2
  unfolding duration
  duration-le t = ground arith

  -- Whatever the writer does meanwhile, a read that succeeds returns a complete publication: the one
  -- that was the last when one of its rounds began. (The sequence number must not come round, which
  -- takes 2^63 publications.)
  pub read-current :
      (x₀ : W) (attempts t : ℕ) (values : List W)
      → ((u : ℕ) → (at u).additions < u64_mod)
      → read x₀ size attempts seen t ≡ some values
      → (u : ℕ) × (t ≤ u) × (u ≤ t + attempts * (size + 2)) × (values ≡ (at u).current)
  unfolding read
  read-current x₀ zero t values bounded e = absurd (cc)
  read-current x₀ (suc attempts) t values bounded e = elim (Option-cases (attempt x₀ size seen t)) [
    | inr (v, found) ↦ (
      t,
      omega arith,
      omega arith,
      some-injective _ _ (sym (rw (found, or_else) at e)) ∙ attempt-current x₀ t v bounded found,
    )
    | inl failed ↦
        let (u, low, high, same) =
          read-current x₀ attempts (t + duration size seen t) values bounded
            (rw (failed, or_else) at e) in
        (u, omega arith, omega (arith, duration-le t), same)
  ]

-- ===== src/Seqlock/Failed.antt =====
-- Why a read fails while the writer goes on.
use robot_controller.Prelude.{
  ℕ, suc, ◌+◌, ◌%◌, ◌≤◌, ◌<◌, ◌≡◌, ◌≢◌, ◌⊎◌, inl, inr, Bool-cases, Option-cases, none, [], ◌∷◌,
  ◌==◌, arith, ==_iff,
}
use robot_controller.Seqlock.{History, or_else, attempt, duration, read, max_read_attempts}
use robot_controller.Seqlock.Writer.{Machine, Phase, idle, ready, storing}
use robot_controller.Seqlock.Reader.{IsRun, at-Inv, additions_mono}

module _ {W : Type 0} where
  -- A publication is under way at `t`, or the writer advances the sequence number in the `k` moments
  -- that follow.
  abbrev pub Meets : (ℕ → Machine W) → ℕ → ℕ → Type 0
  Meets at t k = ((at t).pending ≢ []) ⊎ ((at t).additions < (at (t + k)).additions)

  odd-pending : {s : Machine W} → Phase s → s.additions % 2 ≢ 0 → s.pending ≢ []
  odd-pending (idle _ q) odd = absurd (odd q.1)
  odd-pending (ready _ q) odd = absurd (odd q.1)
  odd-pending (storing i [] p _ _) odd = λ e. absurd (cc)
  odd-pending (storing i (x ∷ xs) p _ _) odd = λ e. absurd (cc)

  read-none :
      (x₀ : W) (n attempts : ℕ) (h : History W) (t : ℕ)
      → read x₀ n (suc attempts) h t ≡ none
      → (attempt x₀ n h t ≡ none) × (read x₀ n attempts h (t + duration n h t) ≡ none)
  unfolding read
  read-none x₀ n attempts h t e = elim (Option-cases (attempt x₀ n h t)) [
    | inl failed ↦ (failed, rw (failed, or_else) at e)
    | inr (v, found) ↦ absurd (cc (rw (found, or_else) at e))
  ]

  duration-bounds :
      (n : ℕ) (h : History W) (t : ℕ) → (1 ≤ duration n h t) × (duration n h t ≤ n + 2)
  unfolding duration
  duration-bounds n h t = ground arith

module _ {W : Type 0} {size : ℕ} (at : ℕ → Machine W) (run : IsRun size at) where
  attempt-Meets :
      (x₀ : W) (t : ℕ) → attempt x₀ size (λ u. (at u).memory) t ≡ none → Meets at t (suc size)
  unfolding attempt
  attempt-Meets x₀ t e =
      let v = at-Inv at run t in
      let v' = at-Inv at run (suc t + size) in
      let moment : suc t + size ≡ t + suc size = omega arith in
      elim (Bool-cases (((at t).memory.sequence % 2) == 0)) [
        | inr odd ↦ inl (
            odd-pending v.phase λ even.
              let hit =
                (==_iff ((at t).memory.sequence % 2) 0).1 (omega (arith, v.sequence, even)) in
              cc)
        | inl even ↦
            elim (Bool-cases ((at t).memory.sequence == (at (suc t + size)).memory.sequence)) [
              | inl still ↦ absurd (cc (rw (even, still) at e))
              | inr moved ↦
                  let apart : (at t).additions ≢ (at (suc t + size)).additions = λ same.
                    let hit =
                      (==_iff (at t).memory.sequence (at (suc t + size)).memory.sequence).1
                        (omega (arith, v.sequence, v'.sequence, same)) in
                    cc in
                  inr (omega (arith, additions_mono at run t (suc size), rw moment at apart))
            ]
      ]

  -- Each of the three rounds of a read that fails meets a publication: one is under way when the round
  -- begins, or the sequence number is advanced before its last access. The rounds follow one another.
  pub read-Meets :
      (x₀ : W) (t : ℕ)
      → read x₀ size max_read_attempts (λ u. (at u).memory) t ≡ none
      → (u v : ℕ) × (t < u)
        × (u < v)
        × (u ≤ t + size + 2)
        × (v ≤ u + size + 2)
        × Meets at t (suc size)
        × Meets at u (suc size)
        × Meets at v (suc size)
  read-Meets x₀ t e =
      let h : History W = λ u. (at u).memory in
      let (first, e1) = read-none x₀ size 2 h t e in
      let u = t + duration size h t in
      let (second, e2) = read-none x₀ size 1 h u e1 in
      let v = u + duration size h u in
      let (third, _) = read-none x₀ size 0 h v e2 in
      (
        u,
        v,
        omega (arith, (duration-bounds size h t).0),
        omega (arith, (duration-bounds size h u).0),
        omega (arith, (duration-bounds size h t).1),
        omega (arith, (duration-bounds size h u).1),
        attempt-Meets x₀ t first,
        attempt-Meets x₀ u second,
        attempt-Meets x₀ v third,
      )

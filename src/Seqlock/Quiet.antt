-- ===== src/Seqlock/Quiet.antt =====
-- A publication and a read that nothing interrupts.
use robot_controller.Prelude.{ℕ, suc, ◌+◌, ◌%◌, ◌≡◌, refl, some, List, [], ◌∷◌, ◌++◌, length, arith}
use robot_controller.Seqlock.{
  u64_mod, advance, store, Memory, perform, perform_all, stores, publish, attempt, read,
}
use robot_controller.Seqlock.Writer.{stored, stored_all}
use robot_controller.Seqlock.Reader.{load_cells-append}

module _ {W : Type 0} where
  perform_all-stores :
      (i : ℕ) (xs : List W) (m : Memory W)
      → perform_all (stores i xs ++ (advance ∷ [])) m
        ≡ record { sequence = (m.sequence + 1) % u64_mod; cells = stored i xs m.cells }
  unfolding perform_all perform
  perform_all-stores i [] m = refl
  perform_all-stores i (x ∷ xs) m = perform_all-stores (suc i) xs (perform (store i x) m)

  -- A publication of any size advances the sequence number twice.
  pub sequence-publish :
      (values : List W) (m : Memory W)
      → (perform_all (publish values) m).sequence ≡ ((m.sequence + 1) % u64_mod + 1) % u64_mod
  unfolding perform_all perform publish
  sequence-publish values m = rw (perform_all-stores 0 values (perform advance m))

  pub perform_all-publish :
      (values : List W) (m : Memory W)
      → length m.cells ≡ length values
      → perform_all (publish values) m
        ≡ record { sequence = ((m.sequence + 1) % u64_mod + 1) % u64_mod; cells = values }
  unfolding perform_all perform publish
  perform_all-publish values m e =
      rw (perform_all-stores 0 values (perform advance m), stored_all values m.cells e)

  -- A read of a buffer at rest returns its cells in the first round.
  pub read_at_rest :
      (x₀ : W) (m : Memory W) (attempts t : ℕ)
      → m.sequence % 2 ≡ 0
      → read x₀ (length m.cells) (suc attempts) (λ _. m) t ≡ some m.cells
  unfolding read attempt
  read_at_rest x₀ m attempts t even =
      let loads = load_cells-append x₀ (λ _. m) m.cells [] (suc t) (λ k q. refl) in
      ground (arith, loads)

  -- A read after a publication, neither being interrupted, returns the values published.
  pub read-publish :
      (x₀ : W) (values : List W) (m : Memory W) (attempts t : ℕ)
      → length m.cells ≡ length values
      → m.sequence % 2 ≡ 0
      → read x₀ (length values) (suc attempts) (λ _. perform_all (publish values) m) t ≡ some values
  read-publish x₀ values m attempts t e even = rw (perform_all-publish values m e) (
      read_at_rest x₀
        (record { sequence = ((m.sequence + 1) % u64_mod + 1) % u64_mod; cells = values }) attempts
        t (omega arith))

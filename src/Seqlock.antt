-- ===== src/Seqlock.antt =====
-- The sequence lock that src/synchronization/SnapshotBuffer.cpp uses, and with fewer cells the two CAN
-- buffers of src/communication: one writer, readers that never block it.
-- Every access is one atomic step, in one order for all threads (`memory_order_seq_cst`). The cells
-- are the buffer's atomics of type `double`, in the order in which both loops visit them.
pub mod Writer
pub mod Reader
pub mod Quiet
pub mod Failed
use robot_controller.Prelude.{
  ℕ, zero, suc, ◌+◌, ◌%◌, ◌^◌, ◌≡◌, Bool, true, false, Option, none, some, List, [], ◌∷◌, ◌++◌,
  ◌==◌, set, get_elem?, length, if◌then◌else◌,
}

-- `std::uint64_t`
abbrev pub u64_mod : ℕ
u64_mod = 2 ^ 64

-- An atomic write of `publish`.
pub data Write (W : Type 0) : Type 0 where
  -- `sequence_.fetch_add(1)`
  advance : Write W
  -- a `store` to the cell with this index
  store : ℕ → W → Write W

pub record Memory (W : Type 0) : Type 0 where
  pub sequence : ℕ
  pub cells : List W

abbrev pub max_read_attempts : ℕ
max_read_attempts = 3

-- What a read sees: the memory at each of its accesses, numbered from some `t` on.
abbrev pub History : Type 0 → Type 0
History W = ℕ → Memory W

module _ {W : Type 0} where
  unfoldable pub perform : Write W → Memory W → Memory W
  perform advance m = record m { sequence = (m.sequence + 1) % u64_mod }
  perform (store i x) m = record m { cells = set m.cells i x }

  abbrev pub stores : ℕ → List W → List (Write W)
  stores i [] = []
  stores i (x ∷ xs) = store i x ∷ stores (suc i) xs

  -- The writes of `publish`, in program order.
  unfoldable pub publish : List W → List (Write W)
  publish values = advance ∷ (stores 0 values ++ (advance ∷ []))

  -- A publication that nothing interrupts.
  unfoldable pub perform_all : List (Write W) → Memory W → Memory W
  perform_all [] m = m
  perform_all (w ∷ ws) m = perform_all ws (perform w m)

  abbrev pub cell_or : W → Option W → W
  cell_or x₀ none = x₀
  cell_or x₀ (some x) = x

  -- The loads of `n` cells from cell `i` on. A cell that is not there gives the default.
  unfoldable pub load_cells : W → History W → ℕ → ℕ → ℕ → List W
  load_cells x₀ h t i zero = []
  load_cells x₀ h t i (suc n) =
      cell_or x₀ (get_elem? (h t).cells i) ∷ load_cells x₀ h (suc t) (suc i) n

  -- One round of the loop of `read`: the values, if the sequence number was even before the loads and
  -- the same after them.
  unfoldable pub attempt : W → ℕ → History W → ℕ → Option (List W)
  attempt x₀ n h t =
      let before = (h t).sequence in
      let after = (h (suc t + n)).sequence in
      if (before % 2) == 0
      then (if before == after then some (load_cells x₀ h (suc t) 0 n) else none)
      else none

  -- The accesses that a round makes.
  unfoldable pub duration : ℕ → History W → ℕ → ℕ
  duration n h t = if ((h t).sequence % 2) == 0 then n + 2 else 1

  abbrev pub or_else : Option (List W) → Option (List W) → Option (List W)
  or_else none rest = rest
  or_else (some values) rest = some values

  -- `read`, with the number of attempts left; `none` is `false`.
  unfoldable pub read : W → ℕ → ℕ → History W → ℕ → Option (List W)
  read x₀ n zero h t = none
  read x₀ n (suc attempts) h t =
      let rest = read x₀ n attempts h (t + duration n h t) in or_else (attempt x₀ n h t) rest

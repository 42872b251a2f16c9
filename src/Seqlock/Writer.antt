-- ===== src/Seqlock/Writer.antt =====
-- The writer as a state machine, with what has been published.
use mathlib.Core.List.{append_assoc}
use robot_controller.Prelude.{
  ℕ, suc, ◌+◌, ◌%◌, ◌≡◌, refl, ap, ◌∙◌, List, [], ◌∷◌, ◌++◌, set, length, arith, length-append,
  length-set,
}
use robot_controller.Seqlock.{u64_mod, Write, advance, store, Memory, perform, stores, publish}

-- The buffer between two accesses. `additions` counts the writes to the sequence number, `current` is
-- the last complete publication, and `next` the one that is under way.
pub record Machine (W : Type 0) : Type 0 where
  pub memory : Memory W
  pub pending : List (Write W)
  pub additions : ℕ
  pub current : List W
  pub next : List W

module _ {W : Type 0} where
  abbrev counts : Write W → ℕ
  counts advance = 1
  counts (store i x) = 0

  -- The publication is complete with its last write.
  abbrev finished : List (Write W) → List W → List W → List W
  finished [] current next = next
  finished (w ∷ ws) current next = current

  -- The writer begins to publish some values, or performs its next write.
  pub data Step (size : ℕ) (s : Machine W) : Machine W → Type 0 where
    begin :
        (values : List W)
        → length values ≡ size
        → s.pending ≡ []
        → Step size s (record s { pending = publish values; next = values })
    write :
        (w : Write W) (ws : List (Write W))
        → s.pending ≡ w ∷ ws
        → Step size s (record s {
          memory = perform w s.memory;
          pending = ws;
          additions = s.additions + counts w;
          current = finished ws s.current s.next;
        })

  pub data Steps (size : ℕ) (s : Machine W) : Machine W → Type 0 where
    here : Steps size s s
    then : {t u : Machine W} → Steps size s t → Step size t u → Steps size s u

  -- The stores that are left, performed.
  abbrev pub stored : ℕ → List W → List W → List W
  stored i [] cells = cells
  stored i (x ∷ xs) cells = stored (suc i) xs (set cells i x)

  -- Nothing is under way and the cells hold the current values; or the stores of the next values are
  -- under way, and those that are left complete them.
  abbrev Quiet : Machine W → Type 0
  Quiet s = (s.memory.cells ≡ s.current) × (s.additions % 2 ≡ 0)

  pub data Phase (s : Machine W) : Type 0 where
    idle : s.pending ≡ [] → Quiet s → Phase s
    ready : s.pending ≡ publish s.next → Quiet s → Phase s
    storing :
        (i : ℕ) (xs : List W)
        → s.pending ≡ stores i xs ++ (advance ∷ [])
        → stored i xs s.memory.cells ≡ s.next
        → s.additions % 2 ≡ 1
        → Phase s

  pub record Inv (size : ℕ) (s : Machine W) : Type 0 where
    pub sequence : s.memory.sequence ≡ s.additions % u64_mod
    pub current_size : length s.current ≡ size
    pub next_size : length s.next ≡ size
    pub cells_size : length s.memory.cells ≡ size
    pub phase : Phase s

  -- Where the number of additions is even nothing has been stored since the last publication.
  pub quiet_of_even :
      {size : ℕ} {s : Machine W} → Inv size s → s.additions % 2 ≡ 0 → s.memory.cells ≡ s.current
  quiet_of_even {s = s} inv e = go inv.phase
    where
      go : Phase s → s.memory.cells ≡ s.current
      go (idle _ q) = q.0
      go (ready _ q) = q.0
      go (storing i xs _ _ odd) = absurd (omega arith)

  set-append :
      (before rest : List W) (c x : W)
      → set (before ++ (c ∷ rest)) (length before) x ≡ before ++ (x ∷ rest)
  set-append [] rest c x = refl
  set-append (b ∷ before) rest c x = ap (λ l. b ∷ l) (set-append before rest c x)

  length-snoc : (before : List W) (x : W) → length (before ++ (x ∷ [])) ≡ suc (length before)
  length-snoc before x = omega (arith, length-append before (x ∷ []))

  -- The stores overwrite the cells from theirs on.
  stored-append :
      (xs before rest : List W)
      → length rest ≡ length xs
      → stored (length before) xs (before ++ rest) ≡ before ++ xs
  stored-append [] before [] e = refl
  stored-append [] before (c ∷ rest) e = absurd (omega arith)
  stored-append (x ∷ xs) before [] e = absurd (omega arith)
  stored-append (x ∷ xs) before (c ∷ rest) e =
      let later : stored (length (before ++ (x ∷ []))) xs ((before ++ (x ∷ [])) ++ rest)
          ≡ (before ++ (x ∷ [])) ++ xs =
        stored-append xs (before ++ (x ∷ [])) rest (omega arith) in
      rw (set-append before rest c x) (
        rw
          (length-snoc before x, append_assoc before (x ∷ []) rest, append_assoc before (x ∷ []) xs)
          at later)

  pub stored_all : (xs cells : List W) → length cells ≡ length xs → stored 0 xs cells ≡ xs
  stored_all xs cells e = stored-append xs [] cells e

  finished-append :
      (ws : List (Write W)) (w : Write W) (current next : List W)
      → finished (ws ++ (w ∷ [])) current next ≡ current
  finished-append [] w current next = refl
  finished-append (v ∷ ws) w current next = refl

  begin-Inv :
      {size : ℕ} (s : Machine W) (values : List W)
      → length values ≡ size
      → s.pending ≡ []
      → Inv size s
      → Inv size (record s { pending = publish values; next = values })
  begin-Inv s values e p inv = record {
    sequence = inv.sequence;
    current_size = inv.current_size;
    next_size = e;
    cells_size = inv.cells_size;
    phase = go inv.phase;
  }
    where
      go : Phase s → Phase (record s { pending = publish values; next = values })
      go (idle _ q) = ready refl q
      go (ready p' _) = absurd (unfold publish in cc)
      go (storing i [] p' _ _) = absurd (cc)
      go (storing i (x ∷ xs) p' _ _) = absurd (cc)

  -- The machine after a write.
  abbrev written : Machine W → Write W → List (Write W) → Machine W
  written s w ws = record s {
    memory = perform w s.memory;
    pending = ws;
    additions = s.additions + counts w;
    current = finished ws s.current s.next;
  }

  write-Inv :
      {size : ℕ} (s : Machine W) (w : Write W) (ws : List (Write W))
      → s.pending ≡ w ∷ ws
      → Inv size s
      → Phase s
      → Inv size (written s w ws)
  unfolding perform publish
  write-Inv s w ws e inv (idle p _) = absurd (cc)
  write-Inv s w ws e inv (ready p (same, even)) =
      let head : w ≡ advance = cc in
      let tail : ws ≡ stores 0 s.next ++ (advance ∷ []) = cc in
      rw (head, tail)
        (record {
          sequence = omega (arith, inv.sequence);
          current_size = rw finished-append inv.current_size;
          next_size = inv.next_size;
          cells_size = inv.cells_size;
          phase =
              storing 0 s.next refl
                (stored_all s.next s.memory.cells (omega (arith, inv.cells_size, inv.next_size)))
                (omega arith);
        })
  write-Inv s w ws e inv (storing i [] p same odd) =
      let head : w ≡ advance = cc in
      let tail : ws ≡ [] = cc in
      rw (head, tail)
        (record {
          sequence = omega (arith, inv.sequence);
          current_size = inv.next_size;
          next_size = inv.next_size;
          cells_size = inv.cells_size;
          phase = idle refl (same, omega arith);
        })
  write-Inv s w ws e inv (storing i (x ∷ xs) p same odd) =
      let head : w ≡ store i x = cc in
      let tail : ws ≡ stores (suc i) xs ++ (advance ∷ []) = cc in
      rw (head, tail)
        (record {
          sequence = omega (arith, inv.sequence);
          current_size = rw finished-append inv.current_size;
          next_size = inv.next_size;
          cells_size = length-set s.memory.cells i x ∙ inv.cells_size;
          phase = storing (suc i) xs refl same (omega arith);
        })

  pub Step-Inv : {size : ℕ} {s t : Machine W} → Step size s t → Inv size s → Inv size t
  Step-Inv {s = s} (begin values e p) inv = begin-Inv s values e p inv
  Step-Inv {s = s} (write w ws e) inv = write-Inv s w ws e inv inv.phase

  pub Steps-Inv : {size : ℕ} {s t : Machine W} → Steps size s t → Inv size s → Inv size t
  Steps-Inv here inv = inv
  Steps-Inv (then r st) inv = Step-Inv st (Steps-Inv r inv)

  -- A writer that nothing delays performs all that is pending.
  unfoldable pub drain : List (Write W) → Machine W → Machine W
  drain [] s = s
  drain (w ∷ ws) s = drain ws (written s w ws)

  pub Steps-drain :
      {size : ℕ} {s : Machine W} (ws : List (Write W)) (t : Machine W)
      → t.pending ≡ ws
      → Steps size s t
      → Steps size s (drain ws t)
  unfolding drain
  Steps-drain [] t e r = r
  Steps-drain (w ∷ ws) t e r = Steps-drain ws (written t w ws) refl (then r (write w ws e))

-- ===== src/CanFrame.antt =====
-- src/communication/CanFrame.cpp: a frame of at most eight bytes.
use robot_controller.Prelude.{ℕ, List, [], ◌∷◌, set, Option, none, some, get_elem?}

abbrev pub max_data_length : ℕ
max_data_length = 8

pub record CanFrame : Type 0 where
  pub id : ℕ  -- std::uint32_t
  pub length : ℕ  -- std::uint8_t
  pub bytes : List ℕ  -- std::array<std::uint8_t, max_data_length>

-- `CanFrame frame;`
abbrev pub new_frame : CanFrame
new_frame = record { id = 0; length = 0; bytes = 0 ∷ 0 ∷ 0 ∷ 0 ∷ 0 ∷ 0 ∷ 0 ∷ 0 ∷ [] }

abbrev pub set_id : CanFrame → ℕ → CanFrame
set_id f id = record f { id = id }

abbrev pub set_length : CanFrame → ℕ → CanFrame
set_length f length = record f { length = length }

-- `frame.data()[i] = b`
abbrev pub set_byte : CanFrame → ℕ → ℕ → CanFrame
set_byte f i b = record f { bytes = set f.bytes i b }

abbrev value_or_zero : Option ℕ → ℕ
value_or_zero none = 0
value_or_zero (some b) = b

-- `frame.data()[i]`, for `i` below `max_data_length`.
abbrev pub byte : CanFrame → ℕ → ℕ
byte f i = value_or_zero (get_elem? f.bytes i)

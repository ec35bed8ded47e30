-- ===== src/Cache/Line.antt =====
-- src/GenericCacheLine.cpp. -1 as a tag or an owner is `none`, a null `m_data` is `none`, and the buffer
-- of a line is the list of its bytes. `exit(0)` is `none`.
use octopus_simulator.Common.{
  ℕ, zero, suc, Bool, false, Option, none, some, List, [], ◌∷◌, ltb, if◌then◌else◌,
}

pub record Line : Type 0 where
  pub valid : Bool
  pub insert_cycle : ℕ
  pub access_cycle : ℕ
  pub access_counter : ℕ
  pub tag : Option ℕ
  pub state : ℕ
  pub owner_id : Option ℕ
  pub block_size : ℕ
  pub bytes : Option (List ℕ)

unfoldable pub new_line : Line
new_line = record {
  valid = false;
  insert_cycle = 0;
  access_cycle = 0;
  access_counter = 0;
  tag = none;
  state = 0;
  owner_id = none;
  block_size = 0;
  bytes = none;
}

-- `memcpy` of `n` bytes to the start of a buffer.
abbrev pub copy_over : List ℕ → ℕ → List ℕ → List ℕ
copy_over buffer zero source = buffer
copy_over buffer (suc n) [] = buffer
copy_over [] (suc n) (s ∷ source) = s ∷ copy_over [] n source
copy_over (b ∷ buffer) (suc n) (s ∷ source) = s ∷ copy_over buffer n source

-- `memcpy` to `&buffer[offset]`.
unfoldable pub copy_at : List ℕ → ℕ → ℕ → List ℕ → List ℕ
copy_at buffer zero n source = copy_over buffer n source
copy_at [] (suc offset) n source = copy_over [] n source
copy_at (b ∷ buffer) (suc offset) n source = b ∷ copy_at buffer offset n source

-- The tag stays.
unfoldable pub copy_bits : Line → Line → Line
copy_bits self line = record self {
  valid = line.valid;
  insert_cycle = line.insert_cycle;
  access_cycle = line.access_cycle;
  access_counter = line.access_counter;
  state = line.state;
  owner_id = line.owner_id;
  block_size = line.block_size;
}

-- A fresh buffer is filled whole.
abbrev pub buffer_of : Option (List ℕ) → List ℕ
buffer_of none = []
buffer_of (some buffer) = buffer

unfoldable pub copy_data : Line → List ℕ → Line
copy_data self source = record self {
  bytes = some (copy_over (buffer_of self.bytes) self.block_size source);
}

-- `copy`, and with it the assignment of lines: a line without data leaves the buffer as it is.
unfoldable pub copy : Line → Line → Line
unfolding copy_bits copy_data
copy self line = elim line.bytes [
  | none ↦ copy_bits self line
  | some source ↦ copy_data (copy_bits self line) source
]

unfoldable pub modify_data : Line → List ℕ → ℕ → ℕ → Option Line
unfolding copy_at
modify_data self source offset size = elim self.bytes [
  | none ↦ none
  | some buffer ↦
      if ltb self.block_size offset
      then none
      else some (record self { bytes = some (copy_at buffer offset size source) })
]

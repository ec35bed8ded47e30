-- ===== src/Cache/Registers.antt =====
-- src/CacheDataHandler_COTS.cpp and header/CacheDataHandler_COTS.h: the array with the miss status
-- holding registers and the pending write-back registers, both maps from a block's address to a line.
-- The operations inherited from src/CacheDataHandler.cpp are here too, with the virtual `findline`,
-- `getLine` and `isReady` of this class. A `pwb_size` of -1 is `none`; `rand()` is an argument. A
-- `false` with an unchanged handler is kept apart from one that has changed it.
use octopus_simulator.Common.{
  ℕ, ◌^◌, Bool, true, false, ◌||◌, Option, none, some, List, [], ◌∷◌, ◌++◌, ◌==◌, if◌then◌else◌,
  is_some,
}
use octopus_simulator.Cache.Line.{Line, new_line, copy}
use octopus_simulator.Cache.Array.{
  Array, calculate_tag, calculate_set, calculate_address, mask_offset, get_line, put_line,
  find_line, find_empty_way, note_use, occupy, is_ready,
}

abbrev pub Registers : Type 0
Registers = List (ℕ × Line)

abbrev pub lookup : Registers → ℕ → Option Line
lookup [] k = none
lookup ((j, line) ∷ rs) k = if j == k then some line else lookup rs k

abbrev pub insert : Registers → ℕ → Line → Registers
insert [] k line = (k, line) ∷ []
insert ((j, old) ∷ rs) k line = if j == k then (k, line) ∷ rs else (j, old) ∷ insert rs k line

abbrev pub erase : Registers → ℕ → Registers
erase [] k = []
erase ((j, line) ∷ rs) k = if j == k then rs else (j, line) ∷ erase rs k

-- `rs[k] = line`: a new entry is a new line that is then assigned to.
unfoldable pub assign : Registers → ℕ → Line → Registers
unfolding copy new_line
assign rs k line = insert rs k (copy (elim (lookup rs k) [ none ↦ new_line | some old ↦ old ]) line)

pub record Handler : Type 0 where
  pub array : Array
  pub mshr : Registers
  pub pwb : Registers
  pub pwb_size : Option ℕ
  pub pending_issue : List ℕ

abbrev pub block_of : Handler → ℕ → ℕ
block_of h address = mask_offset h.array address

abbrev pub check_mshr : Handler → ℕ → Bool
check_mshr h address = is_some (lookup h.mshr (block_of h address))

abbrev pub check_pwb : Handler → ℕ → Bool
check_pwb h address = is_some (lookup h.pwb (block_of h address))

pub data Location : Type 0 where
  nowhere in_array in_mshr in_pwb : Location

-- The order of the tests in `findline`, in `getLine` and in `lineLocation`.
unfoldable pub locate : Option ℕ → Bool → Bool → Location
locate (some way) m p = in_array
locate none m p = if m then in_mshr else if p then in_pwb else nowhere

unfoldable pub line_location : Handler → ℕ → Location
unfolding locate find_line
line_location h address =
    locate (find_line h.array address) (check_mshr h address) (check_pwb h address)

unfoldable pub is_address_tracked : Handler → ℕ → Bool
is_address_tracked h address = elim (line_location h address) [ nowhere ↦ false | _ ↦ true ]

-- `isReady(address)`.
unfoldable pub is_ready_for : Handler → ℕ → Bool
unfolding is_ready
is_ready_for h address = check_mshr h address || check_pwb h address || is_ready h.array

unfoldable pub set_array : Handler → Array → Handler
set_array h a = record h { array = a }

-- `writeLine2MSHR`.
unfoldable pub write_line_to_mshr : Handler → ℕ → Line → Handler
unfolding assign copy new_line
write_line_to_mshr h address line =
    if line.valid
    then record h {
      mshr =
          insert h.mshr (block_of h address)
            (record (copy
              (elim (lookup h.mshr (block_of h address)) [ none ↦ new_line | some old ↦ old ])
              line) { block_size = 2 ^ h.array.block_bits });
    }
    else h

abbrev pub tag_or_zero : Option ℕ → ℕ
tag_or_zero none = 0
tag_or_zero (some t) = t

-- `moveLine2WB` for a way of the array.
unfoldable pub move_line_to_wb : Handler → ℕ → ℕ → Handler
unfolding assign put_line calculate_address
move_line_to_wb h s way =
    let line = get_line h.array s way in
    let address = calculate_address h.array (tag_or_zero line.tag) s in
    record h {
      pwb = assign h.pwb address line;
      array = put_line h.array s way (record line { valid = false });
      pending_issue = h.pending_issue ++ address ∷ [];
    }

-- `writeCacheLine_bypassLatency`, once the empty way is known.
unfoldable pub fill_way : Array → ℕ → Line → Bool → ℕ → Array
unfolding put_line copy note_use
fill_way a address line soft way =
    let s = calculate_set a address in
    let written =
      put_line a s way
        (record (copy (get_line a s way) line) { tag = some (calculate_tag a address) }) in
    if soft then written else note_use written s (some way)

unfoldable pub fill_if : Array → ℕ → Line → Bool → Option ℕ → Bool × Array
unfolding fill_way
fill_if a address line soft none = (false, a)
fill_if a address line soft (some way) = (true, fill_way a address line soft way)

unfoldable pub write_cache_line_bypass_latency : Array → ℕ → Line → Bool → Bool × Array
unfolding find_empty_way fill_if
write_cache_line_bypass_latency a address line soft =
    fill_if a address line soft (find_empty_way a address)

-- The array is occupied even if no way is empty.
unfoldable pub write_cache_line : Handler → ℕ → Line → Bool × Handler
unfolding is_ready_for write_cache_line_bypass_latency occupy set_array
write_cache_line h address line =
    if is_ready_for h address
    then (let r =
          write_cache_line_bypass_latency (if is_some line.bytes then occupy h.array else h.array)
            address line false in
        (r.0, set_array h r.1))
    else (false, h)

-- ===== src/Cache/Accesses.antt =====
-- src/CacheDataHandler_COTS.cpp and src/CacheDataHandler.cpp: the reads and updates of a line wherever it
-- is. A way of -1 in an update of the replacement policy is `none`.
use octopus_simulator.Common.{
  ℕ, ◌^◌, Bool, true, false, ◌&&◌, ◌||◌, not, Option, none, some, List, [], ◌∷◌, length, ltb,
  if◌then◌else◌, is_some,
}
use octopus_simulator.Cache.Line.{Line, new_line, copy, copy_bits, copy_data, modify_data}
use octopus_simulator.Cache.Array.{
  calculate_set, offset_of, get_line, put_line, find_line, allowed_ways, find_empty_way, candidate,
  note_use, occupy,
}
use octopus_simulator.Cache.Registers.{
  Handler, lookup, insert, erase, block_of, check_mshr, Location, in_array, in_mshr, in_pwb,
  nowhere, locate, line_location, is_ready_for, set_array, move_line_to_wb, write_cache_line,
}

abbrev line_or_new : Option Line → Line
unfolding new_line
line_or_new none = new_line
line_or_new (some line) = line

abbrev pub way_or_zero : Option ℕ → ℕ
way_or_zero none = 0
way_or_zero (some way) = way

-- `getLine(set, way)` after `findline` succeeded.
unfoldable pub found_line : Handler → ℕ → Location → Line
unfolding find_line new_line
found_line h address in_array =
    get_line h.array (calculate_set h.array address) (way_or_zero (find_line h.array address))
found_line h address in_mshr = line_or_new (lookup h.mshr (block_of h address))
found_line h address in_pwb = line_or_new (lookup h.pwb (block_of h address))
found_line h address nowhere = new_line

-- A write through the pointer that `getLine(set, way)` returns.
unfoldable pub put_found : Handler → ℕ → Location → Line → Handler
unfolding find_line put_line set_array
put_found h address in_array line = set_array h (
    put_line h.array (calculate_set h.array address) (way_or_zero (find_line h.array address)) line)
put_found h address in_mshr line = record h { mshr = insert h.mshr (block_of h address) line }
put_found h address in_pwb line = record h { pwb = insert h.pwb (block_of h address) line }
put_found h address nowhere line = h

-- The arguments `set, way` of the replacement policy.
unfoldable pub note_found : Handler → ℕ → Location → Handler
unfolding note_use set_array find_line
note_found h address in_array =
    set_array h (note_use h.array (calculate_set h.array address) (find_line h.array address))
note_found h address _ = set_array h (note_use h.array (block_of h address) none)

unfoldable pub with_bits : Handler → ℕ → Location → Line → Handler
unfolding put_found found_line copy_bits
with_bits h address nowhere line = h
with_bits h address place line =
    put_found h address place
      (record (copy_bits (found_line h address place) line) { block_size = 2 ^ h.array.block_bits })

unfoldable pub drop_invalid : Handler → ℕ → Location → Handler
drop_invalid h address in_mshr = record h { mshr = erase h.mshr (block_of h address) }
drop_invalid h address in_pwb = record h { pwb = erase h.pwb (block_of h address) }
drop_invalid h address _ = h

-- The location is looked up again after the bits are written.
unfoldable pub update_line_bits : Handler → ℕ → Line → Handler
unfolding line_location with_bits drop_invalid
update_line_bits h address line =
    let updated = with_bits h address (line_location h address) line in
    if line.valid then updated else drop_invalid updated address (line_location updated address)

-- The eviction before a fill from the miss status holding registers, unless a way is empty.
unfoldable pub evict_unless : ℕ → Handler → ℕ → Option ℕ → Handler
unfolding move_line_to_wb candidate allowed_ways
evict_unless rand h address (some way) = h
evict_unless rand h address none = move_line_to_wb h (calculate_set h.array address) (
    way_or_zero (
      candidate h.array.policy rand h.array.ways_count (calculate_set h.array address)
        (allowed_ways h.array)))

unfoldable pub make_room : ℕ → Handler → ℕ → Handler
unfolding find_empty_way evict_unless
make_room rand h address = evict_unless rand h address (find_empty_way h.array address)

-- The end of a fill: the register is released if the line was written.
unfoldable pub install : Handler → ℕ → Line → Bool × Handler
unfolding write_cache_line
install h address line =
    let r = write_cache_line h address line in
    if r.0
    then (true, record r.1 { mshr = erase r.1.mshr (block_of r.1 address) })
    else (false, r.1)

unfoldable pub update_at : ℕ → Handler → ℕ → List ℕ → Location → Bool × Handler
unfolding is_ready_for put_found found_line copy_data note_found occupy set_array make_room install
update_at rand h address source in_array =
    if is_ready_for h address
    then (
      true,
      note_found
          (let w =
              put_found h address in_array (copy_data (found_line h address in_array) source) in
            set_array w (occupy w.array))
          address in_array,
    )
    else (false, h)
update_at rand h address source in_mshr =
    let line = copy_data (found_line h address in_mshr) source in
    install (make_room rand (put_found h address in_mshr line) address) address line
update_at rand h address source in_pwb =
    (true, put_found h address in_pwb (copy_data (found_line h address in_pwb) source))
update_at rand h address source nowhere = (false, h)

-- `updateLineData`.
unfoldable pub update_line_data : ℕ → Handler → ℕ → List ℕ → Bool × Handler
unfolding update_at line_location
update_line_data rand h address source = update_at rand h address source (line_location h address)

-- `modifyData` of the handler; `none` when the line exits.
unfoldable pub modify_at : Handler → ℕ → List ℕ → ℕ → Bool → Location → Option (Bool × Handler)
unfolding is_ready_for modify_data found_line put_found note_found occupy set_array
modify_at h address source size soft nowhere = some (false, h)
modify_at h address source size soft place =
    if is_ready_for h address || soft
    then elim (modify_data (found_line h address place) source (offset_of h.array address) size) [
      | none ↦ none
      | some line ↦
          let w = put_found h address place line in
          let o = set_array w (occupy w.array) in
          some (true, if soft then o else note_found o address place)
    ]
    else some (false, h)

unfoldable pub modify_line_data : Handler → ℕ → List ℕ → ℕ → Bool → Option (Bool × Handler)
unfolding modify_at line_location
modify_line_data h address source size soft =
    modify_at h address source size soft (line_location h address)

-- `readCacheLine` into `out_line`, which is `none` for a null pointer.
unfoldable pub read_at :
    Handler → ℕ → Option Line → Bool → Location → (Bool × Option Line) × Handler
unfolding is_ready_for copy found_line note_found occupy set_array
read_at h address out soft nowhere = ((false, out), h)
read_at h address out soft place =
    if is_ready_for h address
    then elim out [
      | none ↦ ((true, none), if soft then h else note_found h address place)
      | some line ↦
          let o = set_array h (occupy h.array) in
          (
            (true, some (copy line (found_line h address place))),
            if soft then o else note_found o address place,
          )
    ]
    else ((false, out), h)

unfoldable pub read_cache_line : Handler → ℕ → Option Line → Bool → (Bool × Option Line) × Handler
unfolding read_at line_location
read_cache_line h address out soft = read_at h address out soft (line_location h address)

unfoldable pub read_line_bits : Handler → ℕ → Line → Bool × Line
unfolding line_location found_line copy_bits locate
read_line_bits h address out = elim (line_location h address) [
  | nowhere ↦ (false, out)
  | place ↦ (true, copy_bits out (found_line h address place))
]

-- `addressOfLinePendingWB`: the oldest address, removed when the flag is set.
unfoldable pub take_pending : List ℕ → Bool → Option ℕ × List ℕ
take_pending [] clear = (none, [])
take_pending (a ∷ pending) clear = (some a, if clear then pending else a ∷ pending)

unfoldable pub address_of_line_pending_wb : Handler → Bool → Option ℕ × Handler
unfolding take_pending
address_of_line_pending_wb h clear =
    let r = take_pending h.pending_issue clear in (r.0, record h { pending_issue = r.1 })

unfoldable pub has_space : Option ℕ → ℕ → Bool
has_space none n = true
has_space (some size) n = ltb n size

unfoldable pub pwb_has_space : Handler → Bool
unfolding has_space
pwb_has_space h = has_space h.pwb_size (length h.pwb)

-- `fillWouldOverflowPwb`, which the sources call nowhere.
unfoldable pub fill_would_overflow_pwb : Handler → ℕ → Bool
unfolding pwb_has_space find_line find_empty_way
fill_would_overflow_pwb h address =
    not (pwb_has_space h)
    && check_mshr h address
    && not (is_some (find_line h.array address))
    && not (is_some (find_empty_way h.array address))

-- ===== src/Cache/Tests.antt =====
-- Runs of a cache of two sets and two ways with blocks of four bytes, and the theorems applied to them.
use octopus_simulator.Common.{
  ℕ, ◌+◌, ◌^◌, ◌≤◌, ◌≡◌, refl, true, false, none, some, [], ◌∷◌, length, arith,
}
use octopus_simulator.Cache.Line.{Line, new_line}
use octopus_simulator.Cache.Array.{
  Array, least_recently_used, calculate_tag, calculate_set, calculate_address, mask_offset,
  first_way, find_line, find_empty_way, allowed_ways, allowed_in,
}
use octopus_simulator.Cache.Registers.{Handler, write_cache_line_bypass_latency}
use octopus_simulator.Cache.Accesses.{
  update_line_data, fill_would_overflow_pwb, pwb_has_space, has_space,
}
use octopus_simulator.Cache.Geometry.{calculate_address-round_trip}
use octopus_simulator.Cache.Found.{Result, write_cache_line_bypass_latency-Written}
use octopus_simulator.Cache.Spill.{update_line_data-bounded}

abbrev stored : ℕ → ℕ → Line
unfolding new_line
stored tag byte = record new_line {
  valid = true;
  tag = some tag;
  state = 2;
  block_size = 4;
  bytes = some (byte ∷ byte ∷ byte ∷ byte ∷ []);
}

-- Set 0 holds tags 0 and 1, set 1 holds tag 3 in its first way.
abbrev array : Array
unfolding new_line stored
array = record {
  block_bits = 2;
  set_bits = 1;
  ways_count = 2;
  lines = stored 0 7 ∷ stored 1 8 ∷ stored 3 9 ∷ new_line ∷ [];
  way_mask = [];
  shared_mask = 3;
  all_mask = 3;
  requester = none;
  policy = least_recently_used ((0, 5 ∷ 4 ∷ []) ∷ []);
  cycle = 10;
  data_access_latency = 3;
  ready_cycle = 0;
  pipelined = false;
}

-- The block at 16, of set 0 and tag 2, is in flight.
abbrev handler : Handler
unfolding new_line array
handler = record {
  array = array;
  mshr = (16, record new_line { valid = true; block_size = 4 }) ∷ [];
  pwb = [];
  pwb_size = some 1;
  pending_issue = [];
}

calculate_address-round_trip_example :
    (calculate_address array (calculate_tag array 29) (calculate_set array 29)
      ≡ mask_offset array 29)
    × (calculate_tag array (calculate_address array 3 1) ≡ 3)
    × (calculate_set array (calculate_address array 3 1) ≡ 1)
unfolding array
calculate_address-round_trip_example =
    calculate_address-round_trip array 29 3 1 61 (omega arith) refl (omega arith)

-- The bits of a tag above the 61 that fit are lost.
tag_lost : calculate_tag array (calculate_address array (2 ^ 61 + 5) 1) ≡ 5
unfolding array calculate_address
tag_lost = refl

write_cache_line_bypass_latency-Written_example :
    Result array 44 (stored 0 1) 1 (write_cache_line_bypass_latency array 44 (stored 0 1) false)
unfolding array stored new_line find_line find_empty_way first_way allowed_ways allowed_in
write_cache_line_bypass_latency-Written_example =
    write_cache_line_bypass_latency-Written array 44 1 (stored 0 1) false refl refl refl refl
      (omega arith)

update_line_data-bounded_example :
    length (update_line_data 0 handler 18 (6 ∷ 6 ∷ 6 ∷ 6 ∷ [])).1.pwb ≤ 1
unfolding handler array stored new_line fill_would_overflow_pwb pwb_has_space has_space find_line
    first_way
update_line_data-bounded_example =
    update_line_data-bounded 0 handler 18 1 (6 ∷ 6 ∷ 6 ∷ 6 ∷ []) refl (omega arith) refl

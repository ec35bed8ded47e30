-- ===== src/Cache/Array.antt =====
-- src/CacheDataHandler.cpp: the array of lines, its addresses and its timer. Block size and number of
-- sets are powers of two, kept by their exponents, so that a mask is a remainder and a shift a
-- quotient. A core id, a way or a requester of -1 is `none`.
use octopus_simulator.Common.{
  ℕ, zero, suc, ◌+◌, ◌-◌, ◌*◌, ◌/◌, ◌%◌, ◌^◌, Bool, false, ◌&&◌, ◌||◌, not, Option, none, some,
  List, [], ◌∷◌, set, leb, ◌==◌, if◌then◌else◌,
}
use octopus_simulator.Cache.Line.{Line, new_line}
use octopus_simulator.Replacement.{Lru, has_bit, lru_update, lru_candidate, random_candidate}

pub data Policy : Type 0 where
  least_recently_used : Lru → Policy
  random : Policy

pub record Array : Type 0 where
  pub block_bits : ℕ
  pub set_bits : ℕ
  pub ways_count : ℕ
  pub lines : List Line
  pub way_mask : List (ℕ × ℕ)
  pub shared_mask : ℕ
  pub all_mask : ℕ
  pub requester : Option ℕ
  pub policy : Policy
  pub cycle : ℕ
  pub data_access_latency : ℕ
  pub ready_cycle : ℕ
  pub pipelined : Bool

abbrev pub calculate_tag : Array → ℕ → ℕ
calculate_tag a address = address / 2 ^ a.block_bits / 2 ^ a.set_bits

abbrev pub calculate_set : Array → ℕ → ℕ
calculate_set a address = (address / 2 ^ a.block_bits) % 2 ^ a.set_bits

-- The shifts lose what leaves 64 bits. A set is below the number of sets, so that the or is a sum.
unfoldable pub calculate_address : Array → ℕ → ℕ → ℕ
calculate_address a tag s = (tag * 2 ^ a.set_bits + s) * 2 ^ a.block_bits % 2 ^ 64

-- `address & (m_block_size - 1)`.
abbrev pub offset_of : Array → ℕ → ℕ
offset_of a address = address % 2 ^ a.block_bits

abbrev pub mask_offset : Array → ℕ → ℕ
mask_offset a address = address - offset_of a address

abbrev pub line_at : List Line → ℕ → Line
line_at [] i = new_line
line_at (l ∷ ls) zero = l
line_at (l ∷ ls) (suc i) = line_at ls i

-- `m_cache[set * m_ways_count + way]`.
abbrev pub get_line : Array → ℕ → ℕ → Line
get_line a s way = line_at a.lines (s * a.ways_count + way)

unfoldable pub put_line : Array → ℕ → ℕ → Line → Array
put_line a s way line = record a { lines = set a.lines (s * a.ways_count + way) line }

-- The loops over the ways that return the first way with `ok`: the `left` ways from `i` on.
unfoldable pub first_way : (ℕ → Bool) → ℕ → ℕ → Option ℕ
first_way ok i zero = none
first_way ok i (suc left) = let rest = first_way ok (suc i) left in if ok i then some i else rest

abbrev pub has_tag : Option ℕ → ℕ → Bool
has_tag none t = false
has_tag (some u) t = u == t

-- The test of a line in `findline`.
abbrev pub holds : Array → ℕ → ℕ → Bool
holds a address way =
    (get_line a (calculate_set a address) way).valid
    && has_tag (get_line a (calculate_set a address) way).tag (calculate_tag a address)

-- CacheDataHandler::findline, for the way in the address's set.
unfoldable pub find_line : Array → ℕ → Option ℕ
unfolding first_way
find_line a address = first_way (holds a address) 0 a.ways_count

abbrev pub mask_of : List (ℕ × ℕ) → ℕ → ℕ → ℕ
mask_of [] core shared = shared
mask_of ((c, mask) ∷ masks) core shared = if c == core then mask else mask_of masks core shared

unfoldable pub allowed_in : Array → Option ℕ → List (ℕ × ℕ) → ℕ
allowed_in a none masks = a.all_mask
allowed_in a (some core) [] = a.all_mask
allowed_in a (some core) (m ∷ masks) = mask_of (m ∷ masks) core a.shared_mask

unfoldable pub allowed_ways : Array → ℕ
unfolding allowed_in
allowed_ways a = allowed_in a a.requester a.way_mask

-- The tests of a way in `findEmptyWay`.
abbrev pub is_free : Array → ℕ → ℕ → Bool
is_free a s way = has_bit (allowed_ways a) way && not (get_line a s way).valid

unfoldable pub find_empty_way : Array → ℕ → Option ℕ
unfolding first_way allowed_ways
find_empty_way a address = first_way (is_free a (calculate_set a address)) 0 a.ways_count

unfoldable pub policy_update : Policy → ℕ → Option ℕ → ℕ → Policy
unfolding lru_update
policy_update (least_recently_used lru) s way cycle =
    least_recently_used (lru_update lru s way cycle)
policy_update random s way cycle = random

unfoldable pub candidate : Policy → ℕ → ℕ → ℕ → ℕ → Option ℕ
unfolding lru_candidate random_candidate
candidate (least_recently_used lru) rand ways s allowed = some (lru_candidate lru ways s allowed)
candidate random rand ways s allowed = random_candidate rand ways allowed

-- `m_replacement_policy->update(set, way, m_cycle)`.
unfoldable pub note_use : Array → ℕ → Option ℕ → Array
unfolding policy_update
note_use a s way = record a { policy = policy_update a.policy s way a.cycle }

-- The line `m_ready_cycle = m_cycle + m_data_access_latency`, under its condition.
unfoldable pub occupy : Array → Array
occupy a = record a {
  ready_cycle = if a.pipelined then a.ready_cycle else a.cycle + a.data_access_latency;
}

unfoldable pub is_ready : Array → Bool
is_ready a = a.pipelined || leb a.ready_cycle a.cycle

unfoldable pub update_cycle : Array → ℕ → Array
update_cycle a cycle = record a { cycle = cycle }

unfoldable pub set_requester : Array → Option ℕ → Array
set_requester a core = record a { requester = core }

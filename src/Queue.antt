-- ===== src/Queue.antt =====
-- header/FRFCFS_Buffer.h: the first-ready, first-come queue of a controller. The state callback and
-- the hold are arguments of the section that scans; a hold that is not set is never true. A maximal
-- size of -1 is `none`.
pub mod Intake
pub mod Order
pub mod Rescan
mod Tests
use octopus_simulator.Common.{
  ℕ, zero, suc, ◌+◌, Bool, true, false, ◌&&◌, ◌||◌, not, Option, none, some, List, [], ◌∷◌, ◌++◌,
  length, insert_at, ltb, leb, ◌==◌, if◌then◌else◌, bit_and, is_some,
}
use octopus_simulator.Message.{Message, same_source, is_demand_request, is_invalidation}
use Prim.Native.Nat.{bit_xor}

pub data State : Type 0 where
  ready non_ready needs_action waiting : State

pub record Element : Type 0 where
  pub item : Message
  pub state : State

pub record Buffer : Type 0 where
  pub elements : List Element
  pub max_size : Option ℕ
  pub line_mask : ℕ
  pub readiness_state_only : Bool
  pub dirty : Bool

unfoldable pub new_buffer : Option ℕ → ℕ → Bool → Buffer
new_buffer max_size line_mask readiness_state_only = record {
  elements = [];
  max_size = max_size;
  line_mask = line_mask;
  readiness_state_only = readiness_state_only;
  dirty = true;
}

abbrev pub is_ready : State → Bool
is_ready ready = true
is_ready _ = false

-- `m_max_size != -1 && size >= m_max_size`.
abbrev pub at_limit : Option ℕ → ℕ → Bool
at_limit none size = false
at_limit (some max) size = leb max size

unfoldable pub push_back : Buffer → Message → State → Bool → Buffer × Bool
push_back b item state force =
    if not force && (not (is_ready state) && at_limit b.max_size (length b.elements))
    then (b, false)
    else (
      record b {
        elements = b.elements ++ record { item = item; state = state } ∷ [];
        dirty = true;
      },
      true,
    )

-- The loop of `pushFrontOrdered`: one past the last element of the same source, 0 if there is none.
unfoldable pub place_after_source : List Element → Message → ℕ
place_after_source [] item = 0
place_after_source (e ∷ es) item =
    let rest = place_after_source es item in
    if 0 == rest then (if same_source e.item.source item.source then 1 else 0) else suc rest

unfoldable pub push_front_ordered : Buffer → Message → Buffer
unfolding place_after_source
push_front_ordered b item = record b {
  elements =
      insert_at b.elements (place_after_source b.elements item)
        (record { item = item; state = ready });
  dirty = true;
}

unfoldable pub push_front : Buffer → Message → Buffer
push_front b item = record b {
  elements = record { item = item; state = ready } ∷ b.elements;
  dirty = true;
}

-- The messages that the per-line order binds.
unfoldable pub is_ordered : Message → Bool
unfolding is_demand_request is_invalidation
is_ordered m = is_demand_request m || is_invalidation m

abbrev pub same_line : ℕ → Message → Message → Bool
same_line mask m n = bit_and (bit_xor m.addr n.addr) mask == 0

-- The inner loop over the older elements.
unfoldable pub has_older : ℕ → Message → List Element → Bool
unfolding is_ordered
has_older mask m [] = false
has_older mask m (e ∷ older) =
    (is_ordered e.item && same_line mask e.item m) || has_older mask m older

unfoldable pub is_gated : ℕ → Message → List Element → Bool
unfolding is_ordered has_older
is_gated mask m older = not (mask == 0) && (is_ordered m && has_older mask m older)

abbrev pub put_back : Element → Option Message × List Element → Option Message × List Element
put_back e rest = (rest.0, e ∷ rest.1)

-- The state of an element as the scan sees it.
abbrev pub verdict : (Message → State → State) → Element → State
verdict check e = if is_ready e.state then ready else check e.item e.state

-- What the scan does with an element that is neither held nor gated; `rest` is the scan's result on
-- the younger elements.
unfoldable pub settle :
    State → Element → List Element → Option Message × List Element → Option Message × List Element
settle ready e es rest = (some e.item, es)
settle needs_action e es rest = (some e.item, record e { state = waiting } ∷ es)
settle non_ready e es rest = put_back (record e { state = non_ready }) rest
settle waiting e es rest = put_back (record e { state = waiting }) rest

module _ (check : Message → State → State) (hold : Message → Bool) where
  -- The loop of `getFirstReady`, from the element behind `older` on: the item that it hands out, and
  -- those elements afterwards.
  unfoldable pub scan : ℕ → List Element → List Element → Option Message × List Element
  unfolding settle is_gated
  scan mask older [] = (none, [])
  scan mask older (e ∷ es) =
      let rest = scan mask (older ++ e ∷ []) es in
      if hold e.item
      then put_back e rest
      else if is_gated mask e.item older
      then put_back e rest
      else settle (verdict check e) e es rest

  -- The part of `getFirstReady` behind the test that skips the scan.
  unfoldable pub full_scan : Buffer → Buffer × Option Message
  unfolding scan
  full_scan b =
      let (found, es) = scan b.line_mask [] b.elements in
      (record b { elements = es; dirty = is_some found && b.dirty }, found)

  unfoldable pub get_first_ready : Buffer → Buffer × Option Message
  unfolding full_scan
  get_first_ready b = if b.readiness_state_only && not b.dirty then (b, none) else full_scan b

unfoldable pub mark_dirty : Buffer → Buffer
mark_dirty b = record b { dirty = true }

-- ===== src/Directory.antt =====
-- header/CacheControllers/CacheControllerDirectory.h and header/Protocols/DirectoryProtocol.h: the
-- sharers and the acknowledgements that a directory's controller counts for a line, and the actions
-- of its protocols. The int64 counters are unbounded integers; an id of -1 is `none`.
pub mod Private
pub mod Home
pub mod Agent
pub mod Counters
pub mod Arrivals
pub mod Acks
pub mod Sharers
pub mod Invalidations
mod Tests
use octopus_simulator.Common.{
  ℕ, zero, suc, ◌-◌, Bool, true, false, ◌&&◌, ◌||◌, not, Option, none, some, List, [], ◌∷◌, ◌++◌,
  length, find, find_all, put, drop_key, push_under, ltb, ◌==◌, if◌then◌else◌, ℤ, pos, add_ℕ,
  minus_one, is_zero,
}
use octopus_simulator.Message.{Message}
use octopus_simulator.Protocol.Actions.{ControllerAction}

-- The rest of ControllerAction.h; `base` is an action that the snooping protocols have too.
pub data DirectoryAction : Type 0 where
  base : ControllerAction → DirectoryAction
  add_data2msg set_ack_number decrement_ack increment_sharers : Message → DirectoryAction
  decrement_sharers set_sharers clear_sharers : Message → DirectoryAction
  send_fwd_message remove_pending_noresponse : Message → DirectoryAction

-- The class of a protocol: MESIDirectory extends MSIDirectory, and MOESIDirectory extends that.
pub data Variant : Type 0 where
  msi mesi moesi : Variant

abbrev pub Sharers : Type 0
Sharers = List (ℕ × List ℕ)

abbrev pub AckCounters : Type 0
AckCounters = List (ℕ × ℤ)

-- The counter with an entry made for a missing key.
abbrev pub counter_at : AckCounters → ℕ → ℤ
counter_at acks key = elim (find acks key) [ none ↦ pos 0 | some n ↦ n ]

-- The counter is stored, and erased if it is 0.
unfoldable pub store_counter : AckCounters → ℕ → ℤ → AckCounters
store_counter acks key n = if is_zero n then drop_key acks key else put acks key n

unfoldable pub set_ack : AckCounters → ℕ → Message → AckCounters
unfolding store_counter
set_ack acks key m = store_counter acks key (add_ℕ (counter_at acks key) m.complementary_value)

unfoldable pub dec_ack : AckCounters → ℕ → AckCounters
unfolding store_counter
dec_ack acks key = store_counter acks key (minus_one (counter_at acks key))

-- `std::find` in a list of sharers, and the erase of what it finds.
unfoldable pub is_sharer : List ℕ → ℕ → Bool
is_sharer [] id = false
is_sharer (s ∷ ss) id = s == id || is_sharer ss id

unfoldable pub erase_sharer : List ℕ → ℕ → List ℕ
erase_sharer [] id = []
erase_sharer (s ∷ ss) id = if s == id then ss else s ∷ erase_sharer ss id

-- An entry with no sharer left is erased; `m_sharers[key]` makes an empty one for a missing key.
unfoldable pub store_sharers : Sharers → ℕ → List ℕ → Sharers
store_sharers sharers key [] = drop_key sharers key
store_sharers sharers key (s ∷ ss) = put sharers key (s ∷ ss)

unfoldable pub without_sharer : Sharers → ℕ → ℕ → Sharers
unfolding is_sharer erase_sharer store_sharers
without_sharer sharers key id =
    let ids = find_all sharers key in
    if is_sharer ids id
    then store_sharers sharers key (erase_sharer ids id)
    else put sharers key ids

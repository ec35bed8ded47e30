-- ===== src/Directory/Home.antt =====
-- src/Protocols/LLCMSIDirectory.cpp, LLCMESIDirectory.cpp and LLCMOESIDirectory.cpp: the protocols of the home
-- node, which knows the sharers of a line. `none` is `exit(0)`, or the exception of an `at` on a
-- line without sharers.
pub mod Handle
pub mod Moesi
use octopus_simulator.Common.{
  ℕ, zero, suc, ◌-◌, Bool, true, false, ◌&&◌, ◌||◌, not, Option, none, some, List, [], ◌∷◌, ◌++◌,
  length, get_elem?, find, ◌==◌, if◌then◌else◌, and_then, is_some,
}
use octopus_simulator.Message.{
  Message, new_message, lower_interconnect, upper_interconnect, self, Source, resp, inv, fwd, ack,
  mem_write, is_lower,
}
use octopus_simulator.Cache.Line.{Line}
use octopus_simulator.Protocol.Actions.{
  ControllerAction, remove_pending, hit_action, add_pending, send_bus_msg, write_back, no_action,
  uninitialised,
}
use octopus_simulator.Protocol.Llc.{is_owner, memory_read}
use octopus_simulator.Directory.{
  DirectoryAction, base, increment_sharers, decrement_sharers, set_sharers, send_fwd_message,
  Variant, msi, mesi, moesi, Sharers, is_sharer,
}
use octopus_simulator.Directory.Private.{Place}

-- The events of LLCMSIDirectory; LLCMESIDirectory adds the two of PutE, and LLCMOESIDirectory the
-- last five.
pub data HomeEvent : Type 0 where
  get_s get_m replacement put_s last_put_s inv_ack last_inv_ack put_m_from_owner : HomeEvent
  put_m_from_non_owner data_from_lower data_from_upper put_e_from_owner : HomeEvent
  put_e_from_non_owner get_m_from_owner put_o_from_owner put_o_from_non_owner : HomeEvent
  last_put_o_from_owner data_from_lower_last_ack : HomeEvent

unfoldable pub home_number : HomeEvent → ℕ
home_number get_s = 0
home_number get_m = 1
home_number replacement = 2
home_number put_s = 3
home_number last_put_s = 4
home_number inv_ack = 5
home_number last_inv_ack = 6
home_number put_m_from_owner = 7
home_number put_m_from_non_owner = 8
home_number data_from_lower = 9
home_number data_from_upper = 10
home_number put_e_from_owner = 11
home_number put_e_from_non_owner = 12
home_number get_m_from_owner = 13
home_number put_o_from_owner = 14
home_number put_o_from_non_owner = 15
home_number last_put_o_from_owner = 16
home_number data_from_lower_last_ack = 17

-- Whether the sharers of the line are one node: any, and that of this id.
unfoldable pub is_one : Option (List ℕ) → Bool
is_one (some (s ∷ [])) = true
is_one _ = false

unfoldable pub is_only : Option (List ℕ) → ℕ → Bool
is_only (some (s ∷ [])) id = s == id
is_only _ id = false

-- The event of a message without data from the lower interface.
unfoldable pub request_event : Place → Sharers → Message → Option HomeEvent
unfolding is_one is_only
request_event p sharers m =
    if m.complementary_value == 0
    then some get_s
    else if m.complementary_value == 1
    then some get_m
    else if m.complementary_value == 2
    then some (if is_only (find sharers p.key) m.owner then last_put_s else put_s)
    else if m.complementary_value == 6
    then some (if is_one (find sharers p.key) then last_inv_ack else inv_ack)
    else none

-- LLCMSIDirectory::readEvent.
unfoldable pub home_event_from : Place → Sharers → Option ℕ → Message → Source → Option HomeEvent
unfolding request_event
home_event_from p sharers owner m upper_interconnect =
    if is_some m.payload then some data_from_upper else none
home_event_from p sharers owner m self = if m.owner == p.id then some replacement else none
home_event_from p sharers owner m lower_interconnect =
    if is_some m.payload
    then some (
        if m.complementary_value == 3
        then (if is_owner owner m.owner then put_m_from_owner else put_m_from_non_owner)
        else data_from_lower)
    else request_event p sharers m

-- LLCMESIDirectory::readEvent.
unfoldable pub mesi_home_event : Place → Sharers → Option ℕ → Message → Option HomeEvent
unfolding home_event_from
mesi_home_event p sharers owner m =
    if is_lower m.source && m.complementary_value == 7
    then some (if is_owner owner m.owner then put_e_from_owner else put_e_from_non_owner)
    else home_event_from p sharers owner m m.source

-- LLCMOESIDirectory::readEvent.
unfoldable pub moesi_home_event : Place → Sharers → Option ℕ → Message → Option HomeEvent
unfolding mesi_home_event is_one
moesi_home_event p sharers owner m =
    if (is_lower m.source && is_some m.payload) && m.complementary_value == 8
    then some (
        if is_owner owner m.owner
        then (if is_one (find sharers p.key) then last_put_o_from_owner else put_o_from_owner)
        else put_o_from_non_owner)
    else if ((is_lower m.source && is_some m.payload) && m.complementary_value == 6)
        && is_one (find sharers p.key)
    then some data_from_lower_last_ack
    else if ((is_lower m.source && not (is_some m.payload)) && m.complementary_value == 1)
        && is_owner owner m.owner
    then some get_m_from_owner
    else mesi_home_event p sharers owner m

unfoldable pub read_home_event : Variant → Place → Sharers → Message → Line → Option HomeEvent
unfolding home_event_from mesi_home_event moesi_home_event
read_home_event msi p sharers m line = home_event_from p sharers line.owner_id m m.source
read_home_event mesi p sharers m line = mesi_home_event p sharers line.owner_id m
read_home_event moesi p sharers m line = moesi_home_event p sharers line.owner_id m

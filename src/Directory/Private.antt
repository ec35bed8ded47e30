-- ===== src/Directory/Private.antt =====
-- src/Protocols/MSIDirectory.cpp, MESIDirectory.cpp and MOESIDirectory.cpp: the protocols of a private cache
-- below a directory. `exit(0)` is `none`.
pub mod Handle
use octopus_simulator.Common.{
  ℕ, Bool, true, false, ◌&&◌, ◌||◌, not, Option, none, some, List, [], ◌∷◌, ◌++◌, get_elem?, find,
  ltb, ◌==◌, if◌then◌else◌, and_then, is_some, ℤ, add_ℕ, minus_one, is_zero,
}
use octopus_simulator.Message.{
  Message, new_message, lower_interconnect, upper_interconnect, self, Source, Kind, gets, getm,
  puts, putm, supply, ack, is_lower, same_source,
}
use octopus_simulator.Queue.{State, ready, non_ready}
use octopus_simulator.Cache.Line.{Line}
use octopus_simulator.Cache.Registers.{Handler, block_of}
use octopus_simulator.Protocol.Actions.{
  ControllerAction, remove_pending, hit_action, add_pending, send_bus_msg, write_back,
  update_cache_line, modify_data, save_req_for_write_back, stall_action, uninitialised,
}
use octopus_simulator.Protocol.Table.{Table, get_transition, is_stall, is_valid_state}
use octopus_simulator.Protocol.Msi.{bits_of, stalls_first}
use octopus_simulator.Directory.{
  DirectoryAction, base, set_ack_number, decrement_ack, remove_pending_noresponse, Variant, msi,
  mesi, moesi, AckCounters,
}

-- The events of MSIDirectory; MESIDirectory adds `data_exclusive`, and MOESIDirectory the last four.
pub data EventId : Type 0 where
  load store replacement fwd_get_s fwd_get_m inv_event put_ack data_zero_ack : EventId
  data_non_zero_ack data_from_owner inv_ack last_inv_ack data_exclusive ack_count : EventId
  ack_count_zero data_from_owner_non_zero_ack inv_m : EventId

unfoldable pub event_number : EventId → ℕ
event_number load = 0
event_number store = 1
event_number replacement = 2
event_number fwd_get_s = 3
event_number fwd_get_m = 4
event_number inv_event = 5
event_number put_ack = 6
event_number data_zero_ack = 7
event_number data_non_zero_ack = 8
event_number data_from_owner = 9
event_number inv_ack = 10
event_number last_inv_ack = 11
event_number data_exclusive = 12
event_number ack_count = 13
event_number ack_count_zero = 14
event_number data_from_owner_non_zero_ack = 15
event_number inv_m = 16

-- The actions that `MSIDirectory::handleAction` has a case for.
pub data ActionId : Type 0 where
  stall hit get_s get_m put_s put_m_data data2_both data2_req inv_ack2_req inv_ack_data : ActionId
  ack_dec ack_num_set save_req fault unknown_action : ActionId

unfoldable pub action_id : ℕ → ActionId
action_id n =
    elim (get_elem?
      (stall ∷ hit ∷ get_s ∷ get_m ∷ put_s ∷ put_m_data ∷ data2_both ∷ data2_req ∷ inv_ack2_req
        ∷ inv_ack_data ∷ ack_dec ∷ ack_num_set ∷ save_req ∷ fault ∷ [])
      n) [ none ↦ unknown_action | some a ↦ a ]

-- What a protocol knows of its place: `m_id`, `m_shared_memory_id`, and the key of the message's line.
pub record Place : Type 0 where
  pub id : ℕ
  pub memory : ℕ
  pub key : ℕ

-- Whether the stored counter is 0 after the message's count, and after one acknowledgement.
unfoldable pub completes_count : Option ℤ → ℕ → Bool
completes_count none n = false
completes_count (some a) n = is_zero (add_ℕ a n)

unfoldable pub completes_ack : Option ℤ → Bool
completes_ack none = false
completes_ack (some a) = is_zero (minus_one a)

unfoldable pub data_event : Place → AckCounters → Message → EventId
unfolding completes_count
data_event p acks m =
    if not (m.from == p.memory)
    then data_from_owner
    else if m.complementary_value == 0
    then data_zero_ack
    else if completes_count (find acks p.key) m.complementary_value
    then data_zero_ack
    else data_non_zero_ack

unfoldable pub bus_event : Place → AckCounters → ℕ → Option EventId
unfolding completes_ack
bus_event p acks value =
    if value == 0
    then some fwd_get_s
    else if value == 1
    then some fwd_get_m
    else if value == 5
    then some put_ack
    else if value == 4
    then some inv_event
    else if value == 6
    then some (if completes_ack (find acks p.key) then last_inv_ack else inv_ack)
    else none

-- MSIDirectory::readEvent.
unfoldable pub event_from : Place → AckCounters → Message → Source → Option EventId
unfolding data_event bus_event
event_from p acks m lower_interconnect = some (if m.complementary_value == 0 then load else store)
event_from p acks m self = if m.owner == p.id then some replacement else none
event_from p acks m upper_interconnect =
    if is_some m.payload then some (data_event p acks m) else bus_event p acks m.complementary_value

abbrev pub is_upper_data : Message → Bool
is_upper_data m = same_source m.source upper_interconnect && is_some m.payload

-- MESIDirectory::readEvent.
unfoldable pub mesi_event : Place → AckCounters → Message → Option EventId
unfolding event_from
mesi_event p acks m =
    if is_upper_data m && m.complementary_value == 0xFFFFFFFF
    then some data_exclusive
    else event_from p acks m m.source

-- MOESIDirectory::readEvent.
unfoldable pub moesi_event : Place → AckCounters → Message → Option EventId
unfolding mesi_event completes_count
moesi_event p acks m =
    if same_source m.source upper_interconnect && m.complementary_value2 == 9
    then some (if m.complementary_value == 0 then ack_count_zero else ack_count)
    else if is_upper_data m
    then (if (not (m.from == p.memory) && not (m.complementary_value == 0))
          && not (completes_count (find acks p.key) m.complementary_value)
        then some data_from_owner_non_zero_ack
        else mesi_event p acks m)
    else if same_source m.source upper_interconnect && m.complementary_value == 10
    then some inv_m
    else mesi_event p acks m

unfoldable pub read_event : Variant → Place → AckCounters → Message → Option EventId
unfolding event_from mesi_event moesi_event
read_event msi p acks m = event_from p acks m m.source
read_event mesi p acks m = mesi_event p acks m
read_event moesi p acks m = moesi_event p acks m

-- A message to the home node.
unfoldable pub home_request : Place → Message → ℕ → Kind → Message
unfolding new_message
home_request p m value kind = record (new_message m.msg_id m.addr 0 value p.id) {
  to = p.memory ∷ [];
  kind = kind;
}

-- A message of this node that has no destination yet.
unfoldable pub own_message : Place → Message → ℕ → Kind → Message
unfolding new_message
own_message p m value kind = record (new_message m.msg_id m.addr 0 value p.id) { kind = kind }

-- The case of Hit.
unfoldable pub hit_actions : Place → AckCounters → Message → List DirectoryAction
unfolding completes_count
hit_actions p acks m =
    (if is_lower m.source || not (is_some m.payload)
      then (if same_source m.source upper_interconnect
          then remove_pending_noresponse m ∷ []
          else [])
        ++ base (hit_action m) ∷ []
      else base (remove_pending m) ∷ [])
    ++ (if same_source m.source upper_interconnect
          && completes_count (find acks p.key) m.complementary_value
        then set_ack_number m ∷ []
        else [])
    ++ base (modify_data m) ∷ []

-- One round of the loop of `handleAction`: the actions so far and the next one.
unfoldable pub handle_one :
    Place → AckCounters → Message → List DirectoryAction → ActionId → Option (List DirectoryAction)
unfolding hit_actions home_request own_message new_message
handle_one p acks m done stall = some (done ++ base (stall_action m) ∷ [])
handle_one p acks m done hit = some (done ++ hit_actions p acks m)
handle_one p acks m done get_s =
    some (done ++ base (add_pending m) ∷ base (send_bus_msg (home_request p m 0 gets)) ∷ [])
handle_one p acks m done get_m =
    some (done ++ base (add_pending m) ∷ base (send_bus_msg (home_request p m 1 getm)) ∷ [])
handle_one p acks m done put_s = some (done ++ base (send_bus_msg (home_request p m 2 puts)) ∷ [])
handle_one p acks m done put_m_data = some (base (write_back (own_message p m 3 putm)) ∷ done)
handle_one p acks m done data2_req =
    some (base (write_back (record m { complementary_value = 0; to = []; kind = supply })) ∷ done)
handle_one p acks m done data2_both = some (
    base (write_back (record m { complementary_value = 0; to = p.memory ∷ []; kind = supply }))
    ∷ done)
handle_one p acks m done inv_ack2_req =
    some (done ++ base (send_bus_msg (record (own_message p m 6 ack) { to = m.owner ∷ [] })) ∷ [])
handle_one p acks m done inv_ack_data = some (base (write_back (own_message p m 6 ack)) ∷ done)
handle_one p acks m done ack_dec = some (done ++ decrement_ack m ∷ [])
handle_one p acks m done ack_num_set = some (done ++ set_ack_number m ∷ [])
handle_one p acks m done save_req =
    some (done ++ base (save_req_for_write_back (new_message m.msg_id m.addr 0 0 m.owner)) ∷ [])
handle_one p acks m done fault = none
handle_one p acks m done unknown_action = some (done ++ base uninitialised ∷ [])

unfoldable pub handle_each :
    Place → AckCounters → Message → List DirectoryAction → List ℕ → Option (List DirectoryAction)
unfolding handle_one action_id
handle_each p acks m done [] = some done
handle_each p acks m done (a ∷ ids) =
    and_then (handle_one p acks m done (action_id a)) (λ done'. handle_each p acks m done' ids)

-- ===== src/Protocol/Msi.antt =====
-- src/Protocols/MSIProtocol.cpp: the snooping MSI protocol of a private cache. `exit(0)` is `none`; a
-- null `data` pointer of a message is its missing payload.
use octopus_simulator.Common.{
  ℕ, Bool, false, ◌||◌, Option, none, some, List, [], ◌∷◌, ◌++◌, ◌==◌, if◌then◌else◌, and_then,
  is_some, get_elem?,
}
use octopus_simulator.Message.{
  Message, new_message, lower_interconnect, upper_interconnect, self, Source, Kind, gets, getm,
  putm, supply_deferred, supply, wb_data, wb_inv, is_lower,
}
use octopus_simulator.Queue.{State, ready, non_ready}
use octopus_simulator.Cache.Line.{Line, new_line}
use octopus_simulator.Cache.Registers.{Handler}
use octopus_simulator.Cache.Accesses.{read_line_bits}
use octopus_simulator.Protocol.Actions.{
  ControllerAction, remove_pending, hit_action, add_pending, send_bus_msg, write_back,
  update_cache_line, modify_data, save_req_for_write_back, stall_action, uninitialised,
}
use octopus_simulator.Protocol.Table.{
  Table, get_transition, is_stall, is_hit, has_action, is_valid_state, hit_name, data2_req_name,
  data2_both_name,
}

pub data EventId : Type 0 where
  load store replacement own_gets own_getm own_putm other_gets other_getm other_putm : EventId
  own_data invalidation : EventId

unfoldable pub event_number : EventId → ℕ
event_number load = 0
event_number store = 1
event_number replacement = 2
event_number own_gets = 3
event_number own_getm = 4
event_number own_putm = 5
event_number other_gets = 6
event_number other_getm = 7
event_number other_putm = 8
event_number own_data = 9
event_number invalidation = 10

pub data ActionId : Type 0 where
  stall hit get_s get_m put_m data2_req data2_both save_req fault unknown_action : ActionId

-- `static_cast<ActionId>`; a number that is no enumerator is `unknown_action`.
unfoldable pub action_id : ℕ → ActionId
action_id n =
    elim (get_elem?
      (stall ∷ hit ∷ get_s ∷ get_m ∷ put_m ∷ data2_req ∷ data2_both ∷ save_req ∷ fault ∷ []) n) [
        | none ↦ unknown_action
        | some a ↦ a
      ]

-- The event of a bus message without data, by its request type.
unfoldable pub bus_event : Bool → ℕ → Option EventId
bus_event own value =
    if value == 0
    then some (if own then own_gets else other_gets)
    else if value == 1
    then some (if own then own_getm else other_getm)
    else if value == 2
    then some (if own then own_putm else other_putm)
    else if value == 10
    then some invalidation
    else none

unfoldable pub event_from : ℕ → Message → Source → Option EventId
unfolding bus_event
event_from id m lower_interconnect = some (if m.complementary_value == 0 then load else store)
event_from id m self = if m.owner == id then some replacement else none
event_from id m upper_interconnect =
    if is_some m.payload then some own_data else bus_event (m.owner == id) m.complementary_value

unfoldable pub read_event : ℕ → Message → Option EventId
unfolding event_from
read_event id m = event_from id m m.source

-- The message that a miss or an eviction sends on the bus.
unfoldable pub bus_request : ℕ → ℕ → Message → ℕ → Kind → Message
unfolding new_message
bus_request id memory m value kind = record (new_message m.msg_id m.addr 0 value id) {
  to = memory ∷ [];
  kind = kind;
}

unfoldable pub write_back_kind : Message → Kind
write_back_kind m =
    if is_some m.payload
    then supply_deferred
    else if m.complementary_value == 2
    then wb_data
    else if m.complementary_value == 10
    then wb_inv
    else supply

-- One round of the loop of `handleAction`: the actions so far and the next one.
unfoldable pub handle_one :
    ℕ → ℕ → Message → List ControllerAction → ActionId → Option (List ControllerAction)
unfolding bus_request write_back_kind new_message
handle_one id memory m done stall = some (done ++ stall_action m ∷ [])
handle_one id memory m done hit =
    some
      (done ++ (if is_lower m.source then hit_action m else remove_pending m) ∷ modify_data m ∷ [])
handle_one id memory m done get_s =
    some (done ++ add_pending m ∷ send_bus_msg (bus_request id memory m 0 gets) ∷ [])
handle_one id memory m done get_m =
    some (done ++ add_pending m ∷ send_bus_msg (bus_request id memory m 1 getm) ∷ [])
handle_one id memory m done put_m =
    some (done ++ send_bus_msg (bus_request id memory m 2 putm) ∷ [])
handle_one id memory m done data2_req =
    some (write_back (record m { kind = write_back_kind m; to = [] }) ∷ done)
handle_one id memory m done data2_both =
    some (write_back (record m { kind = write_back_kind m; to = memory ∷ [] }) ∷ done)
handle_one id memory m done save_req = some (
    done
    ++ save_req_for_write_back (new_message m.msg_id m.addr 0 m.complementary_value m.owner) ∷ [])
handle_one id memory m done fault = none
handle_one id memory m done unknown_action = some (done ++ uninitialised ∷ [])

unfoldable pub handle_each :
    ℕ → ℕ → Message → List ControllerAction → List ℕ → Option (List ControllerAction)
unfolding handle_one action_id
handle_each id memory m done [] = some done
handle_each id memory m done (a ∷ ids) =
    and_then (handle_one id memory m done (action_id a))
      (λ done'. handle_each id memory m done' ids)

abbrev pub stalls_first : List ℕ → Bool
stalls_first [] = false
stalls_first (a ∷ ids) = a == 0

unfoldable pub handle_action :
    Table → ℕ → ℕ → List ℕ → Message → Line → ℕ → Option (List ControllerAction)
unfolding handle_each is_valid_state
handle_action t id memory actions m line next =
    handle_each id memory m
      (if stalls_first actions
        then []
        else update_cache_line m (record line { valid = is_valid_state t next; state = next }) ∷ [])
      actions

-- The bits that `readLineBits` leaves in a fresh line.
unfoldable pub bits_of : Handler → Message → Line
unfolding read_line_bits new_line
bits_of h m = (read_line_bits h m.addr new_line).1

unfoldable pub process_request : Table → ℕ → ℕ → Handler → Message → Option (List ControllerAction)
unfolding read_event event_number get_transition handle_action
process_request t id memory h m = and_then (read_event id m) (λ e.
    and_then (get_transition t (bits_of h m).state (event_number e))
      (λ (next, actions). handle_action t id memory actions m (bits_of h m) next))

unfoldable pub get_request_state : Table → ℕ → Handler → Message → Option State
unfolding read_event event_number is_stall
get_request_state t id h m =
    and_then (read_event id m)
      (λ e. some (if is_stall t (bits_of h m).state (event_number e) then non_ready else ready))

unfoldable pub is_readable_state : Table → ℕ → Bool
unfolding is_hit
is_readable_state t state = is_hit t state 0

unfoldable pub needs_data_array : Table → ℕ → Handler → Message → Option Bool
unfolding read_event event_number has_action
needs_data_array t id h m = and_then (read_event id m) (λ e. some (
    has_action t (bits_of h m).state (event_number e) hit_name
    || has_action t (bits_of h m).state (event_number e) data2_req_name
    || has_action t (bits_of h m).state (event_number e) data2_both_name))

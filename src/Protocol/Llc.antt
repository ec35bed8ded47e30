-- ===== src/Protocol/Llc.antt =====
-- src/Protocols/LLCMSIProtocol.cpp and LLCMESIProtocol.cpp: the protocols of a shared cache. `none` is
-- `exit(0)`, and for an event a branch that leaves `out_id` uninitialised too.
use octopus_simulator.Common.{
  ℕ, Bool, true, false, ◌||◌, Option, none, some, List, [], ◌∷◌, ◌++◌, get_elem?, ◌==◌,
  if◌then◌else◌, and_then, is_some,
}
use octopus_simulator.Message.{
  Message, new_message, with_bytes, lower_interconnect, upper_interconnect, self, Source, resp,
  mem_read, mem_write, inv, is_lower,
}
use octopus_simulator.Cache.Line.{Line}
use octopus_simulator.Cache.Registers.{Handler}
use octopus_simulator.Protocol.Table.{
  Table, get_transition, is_stall, has_action, is_valid_state, send_data_name,
  send_exclusive_data_name, save_data_name,
}
use octopus_simulator.Protocol.Actions.{
  ControllerAction, remove_pending, hit_action, add_pending, send_bus_msg, write_back,
  update_cache_line, no_action, send_inv_msg, uninitialised,
}
use octopus_simulator.Protocol.Msi.{bits_of}

pub data EventId : Type 0 where
  get_s get_m replacement put_m_from_owner put_m_from_non_owner : EventId
  data_from_lower_interface data_from_upper_interface own_invalidation : EventId

unfoldable pub event_number : EventId → ℕ
event_number get_s = 0
event_number get_m = 1
event_number replacement = 2
event_number put_m_from_owner = 3
event_number put_m_from_non_owner = 4
event_number data_from_lower_interface = 5
event_number data_from_upper_interface = 6
event_number own_invalidation = 7

pub data ActionId : Type 0 where
  stall get_data send_data save_data set_owner clear_owner issue_inv back fault : ActionId
  unknown_action : ActionId

-- `static_cast<ActionId>`; a number without a case is `unknown_action`.
unfoldable pub action_id : ℕ → ActionId
action_id n =
    elim (get_elem?
      (stall ∷ get_data ∷ send_data ∷ save_data ∷ set_owner ∷ clear_owner ∷ issue_inv ∷ back ∷ fault
        ∷ [])
      n) [ none ↦ unknown_action | some a ↦ a ]

abbrev pub is_owner : Option ℕ → ℕ → Bool
is_owner none id = false
is_owner (some owner) id = id == owner

-- The event of a message without data from the lower interface.
unfoldable pub bus_event : ℕ → Option ℕ → Message → Option EventId
bus_event id owner m =
    if m.complementary_value == 0
    then some get_s
    else if m.complementary_value == 1
    then some get_m
    else if m.complementary_value == 2
    then some (
        if m.owner == id
        then replacement
        else if is_owner owner m.owner
        then put_m_from_owner
        else put_m_from_non_owner)
    else if m.complementary_value == 10
    then (if m.owner == id then some own_invalidation else none)
    else none

unfoldable pub event_from : ℕ → Option ℕ → Message → Source → Option EventId
unfolding bus_event
event_from id owner m self = if m.owner == id then some replacement else none
event_from id owner m upper_interconnect =
    if is_some m.payload then some data_from_upper_interface else none
event_from id owner m lower_interconnect =
    if is_some m.payload then some data_from_lower_interface else bus_event id owner m

unfoldable pub read_event : ℕ → Message → Line → Option EventId
unfolding event_from
read_event id m line = event_from id line.owner_id m m.source

-- The answer with the line's data.
unfoldable pub data_answer : Message → ControllerAction
data_answer m =
    let answer = record m { to = m.owner ∷ []; kind = resp } in
    if is_lower m.source then hit_action answer else remove_pending answer

unfoldable pub memory_read : ℕ → Message → Message
unfolding new_message
memory_read memory m = record (new_message m.msg_id m.addr 0 1 m.owner) {
  to = memory ∷ [];
  kind = mem_read;
}

unfoldable pub invalidation : ℕ → Message → Message
unfolding new_message
invalidation id m = record (new_message m.msg_id m.addr 0 10 id) { to = id ∷ []; kind = inv }

unfoldable pub memory_write : Message → Message
unfolding new_message with_bytes
memory_write m =
    let written = new_message m.msg_id m.addr 0 0 m.owner in
    record (elim m.payload [ none ↦ written | some bytes ↦ with_bytes written bytes ]) {
      kind = mem_write;
    }

-- The line and the actions so far.
abbrev pub Progress : Type 0
Progress = Line × List ControllerAction

-- One round of the loop of `handleAction`.
unfoldable pub handle_one : ℕ → ℕ → Message → Progress → ActionId → Option Progress
unfolding data_answer memory_read invalidation memory_write
handle_one id memory m (line, done) stall = none
handle_one id memory m (line, done) get_data =
    some (line, done ++ add_pending m ∷ send_bus_msg (memory_read memory m) ∷ [])
handle_one id memory m (line, done) send_data = some (line, done ++ data_answer m ∷ [])
handle_one id memory m (line, done) save_data = some (line, done ++ no_action ∷ [])
handle_one id memory m (line, done) set_owner =
    some (record line { owner_id = some m.owner }, done ++ no_action ∷ [])
handle_one id memory m (line, done) clear_owner =
    some (record line { owner_id = none }, done ++ no_action ∷ [])
handle_one id memory m (line, done) issue_inv =
    some (line, done ++ send_inv_msg (invalidation id m) ∷ [])
handle_one id memory m (line, done) back = some (line, done ++ write_back (memory_write m) ∷ [])
handle_one id memory m (line, done) fault = none
handle_one id memory m (line, done) unknown_action = some (line, done ++ uninitialised ∷ [])

unfoldable pub handle_each : ℕ → ℕ → Message → Progress → List ℕ → Option Progress
unfolding handle_one action_id
handle_each id memory m p [] = some p
handle_each id memory m p (a ∷ ids) =
    and_then (handle_one id memory m p (action_id a)) (λ p'. handle_each id memory m p' ids)

-- The end of `handleAction`.
unfoldable pub finish : Table → ℕ → Message → Progress → List ControllerAction
unfolding is_valid_state
finish t next m (line, done) =
    done ++ update_cache_line m (record line { valid = is_valid_state t next; state = next }) ∷ []

unfoldable pub handle_action :
    Table → ℕ → ℕ → List ℕ → Message → Line → ℕ → Option (List ControllerAction)
unfolding handle_each finish
handle_action t id memory actions m line next =
    and_then (handle_each id memory m (line, []) actions) (λ p. some (finish t next m p))

-- LLCMESIProtocol: the first SendExeclusiveData is taken out of the actions.
unfoldable pub is_exclusive : List ℕ → Bool
is_exclusive [] = false
is_exclusive (a ∷ ids) = a == 9 || is_exclusive ids

unfoldable pub without_exclusive : List ℕ → List ℕ
without_exclusive [] = []
without_exclusive (a ∷ ids) = if a == 9 then ids else a ∷ without_exclusive ids

unfoldable pub exclusive_answer : Message → ControllerAction
exclusive_answer m =
    let answer = record m { to = m.owner ∷ []; complementary_value = 2 } in
    if is_lower m.source then hit_action answer else remove_pending answer

-- LLCMESIProtocol::handleAction.
unfoldable pub handle_mesi_action :
    Table → ℕ → ℕ → List ℕ → Message → Line → ℕ → Option (List ControllerAction)
unfolding handle_action is_exclusive without_exclusive exclusive_answer
handle_mesi_action t id memory actions m line next =
    and_then (handle_action t id memory (without_exclusive actions) m line next)
      (λ done. some (if is_exclusive actions then done ++ exclusive_answer m ∷ [] else done))

-- `processRequest`; `mesi` says which of the two classes overrides `handleAction`.
unfoldable pub process_request :
    Bool → Table → ℕ → ℕ → Handler → Message → Option (List ControllerAction)
unfolding bits_of read_event event_number get_transition handle_action handle_mesi_action
process_request mesi t id memory h m = and_then (read_event id m (bits_of h m)) (λ e.
    and_then (get_transition t (bits_of h m).state (event_number e)) (λ (next, actions).
      if mesi
      then handle_mesi_action t id memory actions m (bits_of h m) next
      else handle_action t id memory actions m (bits_of h m) next))

-- `getRequestState`: whether it is ready.
unfoldable pub is_request_ready : Table → ℕ → Handler → Message → Option Bool
unfolding bits_of read_event event_number is_stall
is_request_ready t id h m = and_then (read_event id m (bits_of h m)) (λ e. some (
    if is_some m.payload
    then true
    else if is_stall t (bits_of h m).state (event_number e)
    then false
    else true))

unfoldable pub needs_data_array : Table → ℕ → Handler → Message → Option Bool
unfolding bits_of read_event event_number has_action
needs_data_array t id h m = and_then (read_event id m (bits_of h m)) (λ e. some (
    has_action t (bits_of h m).state (event_number e) send_data_name
    || has_action t (bits_of h m).state (event_number e) send_exclusive_data_name
    || has_action t (bits_of h m).state (event_number e) save_data_name))

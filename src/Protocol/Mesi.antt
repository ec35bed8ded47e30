-- ===== src/Protocol/Mesi.antt =====
-- src/Protocols/MESIProtocol.cpp: the MESI protocol of a private cache over the MSI one. `readEvent` writes
-- into the message that it reads, so it returns that message too; `exit(0)` is `none`.
pub mod Reread
use octopus_simulator.Common.{
  ℕ, Bool, true, false, ◌||◌, Option, none, some, List, [], ◌∷◌, ◌++◌, ◌==◌, if◌then◌else◌,
  and_then,
}
use octopus_simulator.Message.{Message}
use octopus_simulator.Queue.{State, ready, non_ready}
use octopus_simulator.Cache.Line.{Line}
use octopus_simulator.Cache.Registers.{Handler}
use octopus_simulator.Protocol.Actions.{ControllerAction, remove_saved_req}
use octopus_simulator.Protocol.Table.{
  Table, get_transition, is_stall, has_action, hit_name, data2_req_name, data2_both_name,
}
use octopus_simulator.Protocol.Msi.{
  EventId, own_data, event_number, read_event, handle_action, bits_of,
}

-- The events of MSIProtocol, and OwnData_Execlusive.
pub data MesiEvent : Type 0 where
  plain : EventId → MesiEvent
  own_data_exclusive : MesiEvent

unfoldable pub mesi_number : MesiEvent → ℕ
unfolding event_number
mesi_number (plain e) = event_number e
mesi_number own_data_exclusive = 11

unfoldable pub mesi_event : EventId → Message → MesiEvent × Message
mesi_event own_data m =
    if m.complementary_value == 2
    then (own_data_exclusive, record m { complementary_value = 0 })
    else (plain own_data, m)
mesi_event e m = (plain e, m)

unfoldable pub read_mesi_event : ℕ → Message → Option (MesiEvent × Message)
unfolding read_event mesi_event
read_mesi_event id m = and_then (read_event id m) (λ e. some (mesi_event e m))

-- removeSavedReq, and the actions without the first of it.
unfoldable pub removes_saved : List ℕ → Bool
removes_saved [] = false
removes_saved (a ∷ ids) = a == 9 || removes_saved ids

unfoldable pub without_removal : List ℕ → List ℕ
without_removal [] = []
without_removal (a ∷ ids) = let rest = without_removal ids in if a == 9 then ids else a ∷ rest

unfoldable pub handle_private_action :
    Table → ℕ → ℕ → List ℕ → Message → Line → ℕ → Option (List ControllerAction)
unfolding handle_action removes_saved without_removal
handle_private_action t id memory actions m line next =
    and_then (handle_action t id memory (without_removal actions) m line next)
      (λ done. some (if removes_saved actions then done ++ remove_saved_req m ∷ [] else done))

-- The inherited `processRequest`, `getRequestState` and `needsDataArray`, with the overridden calls. The
-- state comes with the message as it is left; `needsDataArray` reads a copy.
unfoldable pub process_mesi : Table → ℕ → ℕ → Handler → Message → Option (List ControllerAction)
unfolding read_mesi_event mesi_number get_transition handle_private_action bits_of
process_mesi t id memory h m = and_then (read_mesi_event id m) (λ (e, m').
    and_then (get_transition t (bits_of h m).state (mesi_number e))
      (λ (next, actions). handle_private_action t id memory actions m' (bits_of h m) next))

unfoldable pub mesi_request_state : Table → ℕ → Handler → Message → Option (State × Message)
unfolding read_mesi_event mesi_number is_stall bits_of
mesi_request_state t id h m = and_then (read_mesi_event id m) (λ (e, m').
    some (if is_stall t (bits_of h m).state (mesi_number e) then non_ready else ready, m'))

unfoldable pub mesi_needs_data_array : Table → ℕ → Handler → Message → Option Bool
unfolding read_mesi_event mesi_number has_action bits_of
mesi_needs_data_array t id h m = and_then (read_mesi_event id m) (λ (e, m'). some (
    has_action t (bits_of h m).state (mesi_number e) hit_name
    || has_action t (bits_of h m).state (mesi_number e) data2_req_name
    || has_action t (bits_of h m).state (mesi_number e) data2_both_name))

-- ===== src/Protocol/Predictable.antt =====
-- src/Protocols/PMSIProtocol.cpp, PMESIProtocol.cpp, PMSIAsteriskProtocol.cpp and PMESIAsteriskProtocol.cpp: the
-- predictable protocols of a private cache, and LLCPMSIProtocol.cpp and LLCPMESIProtocol.cpp: those of the
-- shared cache. `exit(0)` is `none`.
pub mod Unread
pub mod Asterisk
mod Tests
use octopus_simulator.Common.{
  ℕ, Bool, ◌||◌, Option, none, some, List, [], ◌∷◌, ◌++◌, ◌==◌, if◌then◌else◌, and_then, has_id,
  without_first,
}
use octopus_simulator.Message.{Message, unknown}
use octopus_simulator.Queue.{State, ready, non_ready}
use octopus_simulator.Cache.Line.{Line}
use octopus_simulator.Cache.Registers.{Handler}
use octopus_simulator.Protocol.Actions.{ControllerAction, send_bus_msg, add_pending, remove_pending}
use octopus_simulator.Protocol.Table.{
  Table, get_transition, is_stall, has_action, hit_name, data2_req_name, data2_both_name,
}
use octopus_simulator.Protocol.Msi.{
  EventId, own_data, event_number, read_event, handle_action, bits_of, bus_request,
}
use octopus_simulator.Protocol.Mesi.{
  MesiEvent, plain, own_data_exclusive, mesi_number, read_mesi_event, handle_private_action,
}
use octopus_simulator.Protocol.Llc

pub data Predictable : Type 0 where
  pmsi pmesi pmsi_asterisk pmesi_asterisk : Predictable

-- RDM or RDC, by the first destination of the data; without one `to[0]` is undefined and `none` here.
unfoldable pub data_number : ℕ → ℕ → List ℕ → Option ℕ
data_number memory rdc [] = none
data_number memory rdc (t ∷ ts) = some (if t == memory then 9 else rdc)

-- The numbers of the events of the asterisk protocols.
unfoldable pub asterisk_number : ℕ → Message → EventId → Option ℕ
unfolding data_number event_number
asterisk_number memory m own_data = data_number memory 10 m.to
asterisk_number memory m e = some (event_number e)

unfoldable pub mesi_asterisk_number : ℕ → Message → MesiEvent → Option ℕ
unfolding data_number event_number
mesi_asterisk_number memory m (plain own_data) = data_number memory 11 m.to
mesi_asterisk_number memory m (plain e) = some (event_number e)
mesi_asterisk_number memory m own_data_exclusive = some 10

-- `readEvent`: the number of the event, and the message as it is left.
unfoldable pub read_predictable : Predictable → ℕ → ℕ → Message → Option (ℕ × Message)
unfolding read_event event_number read_mesi_event mesi_number asterisk_number mesi_asterisk_number
read_predictable pmsi id memory m = and_then (read_event id m) (λ e. some (event_number e, m))
read_predictable pmesi id memory m =
    and_then (read_mesi_event id m) (λ (e, m'). some (mesi_number e, m'))
read_predictable pmsi_asterisk id memory m =
    and_then (read_event id m) (λ e. and_then (asterisk_number memory m e) (λ n. some (n, m)))
read_predictable pmesi_asterisk id memory m =
    and_then (read_mesi_event id m)
      (λ (e, m'). and_then (mesi_asterisk_number memory m' e) (λ n. some (n, m')))

-- `handleAction` of PMSIProtocol and of PMESIProtocol, which both call the one of MSIProtocol.
unfoldable pub handle_non_demanding :
    Table → ℕ → ℕ → List ℕ → Message → Line → ℕ → Option (List ControllerAction)
unfolding handle_action has_id without_first bus_request
handle_non_demanding t id memory actions m line next =
    and_then (handle_action t id memory (without_first 9 actions) m line next) (λ done. some (
      if has_id 9 actions
      then done ++ send_bus_msg (bus_request id memory m 9 unknown) ∷ []
      else done))

unfoldable pub handle_predictable :
    Predictable → Table → ℕ → ℕ → List ℕ → Message → Line → ℕ → Option (List ControllerAction)
unfolding handle_non_demanding handle_action handle_private_action
handle_predictable pmsi t id memory actions m line next =
    handle_non_demanding t id memory actions m line next
handle_predictable pmesi t id memory actions m line next =
    handle_non_demanding t id memory actions m line next
handle_predictable pmsi_asterisk t id memory actions m line next =
    handle_action t id memory actions m line next
handle_predictable pmesi_asterisk t id memory actions m line next =
    handle_private_action t id memory actions m line next

-- The inherited operations with the overridden calls.
unfoldable pub process_predictable :
    Predictable → Table → ℕ → ℕ → Handler → Message → Option (List ControllerAction)
unfolding read_predictable get_transition handle_predictable bits_of
process_predictable v t id memory h m = and_then (read_predictable v id memory m) (λ (e, m').
    and_then (get_transition t (bits_of h m).state e)
      (λ (next, actions). handle_predictable v t id memory actions m' (bits_of h m) next))

unfoldable pub predictable_request_state :
    Predictable → Table → ℕ → ℕ → Handler → Message → Option (State × Message)
unfolding read_predictable is_stall bits_of
predictable_request_state v t id memory h m =
    and_then (read_predictable v id memory m)
      (λ (e, m'). some (if is_stall t (bits_of h m).state e then non_ready else ready, m'))

unfoldable pub predictable_needs_data_array :
    Predictable → Table → ℕ → ℕ → Handler → Message → Option Bool
unfolding read_predictable has_action bits_of
predictable_needs_data_array v t id memory h m =
    and_then (read_predictable v id memory m) (λ (e, m'). some (
      has_action t (bits_of h m).state e hit_name
      || has_action t (bits_of h m).state e data2_req_name
      || has_action t (bits_of h m).state e data2_both_name))

-- LLCPMSIProtocol::handleAction: WaitData.
unfoldable pub handle_wait_data :
    Table → ℕ → ℕ → List ℕ → Message → Line → ℕ → Option (List ControllerAction)
unfolding Llc.handle_action has_id without_first
handle_wait_data t id memory actions m line next =
    and_then (Llc.handle_action t id memory (without_first 9 actions) m line next)
      (λ done. some (if has_id 9 actions then done ++ add_pending m ∷ [] else done))

-- LLCPMESIProtocol::handleAction: WaitData, then SendExeclusiveData. It calls the one of LLCMSIProtocol.
unfoldable pub handle_wait_exclusive :
    Table → ℕ → ℕ → List ℕ → Message → Line → ℕ → Option (List ControllerAction)
unfolding Llc.handle_action has_id without_first
handle_wait_exclusive t id memory actions m line next =
    and_then
      (Llc.handle_action t id memory (without_first 10 (without_first 9 actions)) m line next)
      (λ done. some (
        done
        ++ ((if has_id 9 actions then add_pending m ∷ [] else [])
            ++ (if has_id 10 actions
                then remove_pending (record m { complementary_value = 2 }) ∷ []
                else []))))

-- ===== src/Protocol/Predictable/Unread.antt =====
-- PMSIProtocol and PMESIProtocol: the bus message of PutM_nonDem.
use octopus_simulator.Common.{
  ℕ, ◌≡◌, refl, true, Option, none, some, List, [], ◌∷◌, ◌++◌, has_id, without_first,
}
use octopus_simulator.Message.{
  Message, new_message, unknown, upper_interconnect, lower_interconnect,
}
use octopus_simulator.Cache.Line.{Line}
use octopus_simulator.Protocol.Actions.{ControllerAction, send_bus_msg}
use octopus_simulator.Protocol.Table.{Table}
use octopus_simulator.Protocol.Msi.{handle_action, bus_request, event_from, bus_event}
use octopus_simulator.Protocol.Llc
use octopus_simulator.Protocol.Predictable.{handle_non_demanding}

-- The non-demanding write-back of a line sends a message to the shared cache that no cache can read: the
-- transition answers with the actions of its others and the message behind them, and every private
-- cache that takes the message from the bus, the sender too, and every shared cache that takes
-- it, whatever owner its line has, exits.
pub handle_non_demanding-unread :
    (t : Table) (id memory : ℕ) (actions : List ℕ) (m : Message) (line : Line) (next : ℕ)
    (done : List ControllerAction)
    → has_id 9 actions ≡ true
    → handle_action t id memory (without_first 9 actions) m line next ≡ some done
    → (sent : Message) × (handle_non_demanding t id memory actions m line next
        ≡ some (done ++ send_bus_msg sent ∷ []))
      × (sent.to ≡ memory ∷ [])
      × ((reader : ℕ) → event_from reader sent upper_interconnect ≡ none)
      × ((reader : ℕ) (owner : Option ℕ)
          → Llc.event_from reader owner sent lower_interconnect ≡ none)
unfolding handle_non_demanding bus_request new_message event_from bus_event Llc.event_from
    Llc.bus_event
handle_non_demanding-unread t id memory actions m line next done h k =
    (bus_request id memory m 9 unknown, rw (k, h) refl, refl, λ reader. refl, λ reader owner. refl)

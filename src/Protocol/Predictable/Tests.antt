-- ===== src/Protocol/Predictable/Tests.antt =====
-- A modified line that another cache reads, and messages from the bus.
use octopus_simulator.Common.{
  ℕ, ◌≡◌, refl, Option, none, some, [], ◌∷◌, ◌++◌, has_id, without_first, arith,
}
use octopus_simulator.Message.{Message, upper_interconnect, lower_interconnect, new_message}
use octopus_simulator.Cache.Line.{Line, new_line}
use octopus_simulator.Protocol.Table.{Table, is_valid_state}
use octopus_simulator.Protocol.Actions.{update_cache_line, send_bus_msg}
use octopus_simulator.Protocol.Msi.{event_from, handle_action, handle_each}
use octopus_simulator.Protocol.Llc
use octopus_simulator.Protocol.Predictable.{
  pmsi_asterisk, pmesi_asterisk, read_predictable, handle_non_demanding,
}
use octopus_simulator.Protocol.Predictable.Unread.{handle_non_demanding-unread}
use octopus_simulator.Protocol.Predictable.Asterisk.{read_predictable-same_number}

abbrev miss : Message
unfolding new_message
miss = new_message 4 128 0 0 2

abbrev table : Table
table = record { states = []; action_ids = λ n. none }

abbrev modified_line : Line
unfolding new_line
modified_line = record new_line { state = 1 }

-- The actions PutM_nonDem of a modified_line line that another cache reads.
handle_non_demanding-unread_example :
    (sent : Message) × (handle_non_demanding table 1 9 (9 ∷ []) miss modified_line 0
      ≡ some (
          (update_cache_line miss
              (record modified_line { valid = is_valid_state table 0; state = 0 })
            ∷ [])
          ++ send_bus_msg sent ∷ []))
    × (sent.to ≡ 9 ∷ [])
    × ((reader : ℕ) → event_from reader sent upper_interconnect ≡ none)
    × ((reader : ℕ) (owner : Option ℕ) → Llc.event_from reader owner sent lower_interconnect ≡ none)
unfolding handle_action handle_each has_id without_first
handle_non_demanding-unread_example =
    handle_non_demanding-unread table 1 9 (9 ∷ []) miss modified_line 0
      (update_cache_line miss (record modified_line { valid = is_valid_state table 0; state = 0 })
        ∷ [])
      refl refl

abbrev from_bus : Message
unfolding new_message
from_bus = record (new_message 4 128 0 2 9) { source = upper_interconnect; to = 3 ∷ 1 ∷ [] }

abbrev sent_invalidation : Message
unfolding from_bus
sent_invalidation = record from_bus { complementary_value = 10 }

abbrev supplied : Message
unfolding from_bus
supplied = record from_bus { payload = some (5 ∷ []) }

read_predictable-same_number_example :
    (read_predictable pmsi_asterisk 1 9 sent_invalidation ≡ some (10, sent_invalidation))
    × (read_predictable pmsi_asterisk 1 9 supplied ≡ some (10, supplied))
    × (read_predictable pmesi_asterisk 1 9 sent_invalidation ≡ some (10, sent_invalidation))
    × (read_predictable pmesi_asterisk 1 9 supplied
        ≡ some (10, record supplied { complementary_value = 0 }))
unfolding sent_invalidation supplied from_bus new_message
read_predictable-same_number_example =
    read_predictable-same_number 1 9 3 (1 ∷ []) (5 ∷ []) (5 ∷ []) sent_invalidation supplied
      supplied refl refl refl refl refl refl (omega arith) refl refl refl

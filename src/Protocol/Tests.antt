-- ===== src/Protocol/Tests.antt =====
-- The first row of a table for the MSI protocol, and a load that misses.
use octopus_simulator.Common.{ℕ, ◌≡◌, refl, true, false, Option, none, some, List, [], ◌∷◌}
use octopus_simulator.Message.{Message, upper_interconnect, new_message}
use octopus_simulator.Cache.Line.{new_line}
use octopus_simulator.Cache.Array.{random, find_line, first_way}
use octopus_simulator.Cache.Registers.{Handler, line_location, locate}
use octopus_simulator.Cache.Accesses.{read_line_bits}
use octopus_simulator.Protocol.Table.{
  Table, Cell, empty, actions_then, ActionName, stall_name, hit_name, data2_req_name,
  data2_both_name, read_state, read_transitions, read_actions, next_in, get_next_state, get_actions,
  is_stall, row_actions,
}
use octopus_simulator.Protocol.Msi.{
  load, event_number, read_event, event_from, process_request, get_request_state, bits_of,
  action_id,
}
use octopus_simulator.Protocol.Msi.{own_data}
use octopus_simulator.Protocol.Mesi.{plain, own_data_exclusive, read_mesi_event}
use octopus_simulator.Protocol.Mesi.Reread.{read_mesi_event-reread}
use octopus_simulator.Protocol.Llc.{handle_action}
use octopus_simulator.Protocol.Owner.{any_fatal, Answered, handle_action-Answered}
use octopus_simulator.Protocol.Ready.{Moved, process_request-Moved}

abbrev cells : List Cell
cells = actions_then (2 ∷ []) (some 1) ∷ actions_then (3 ∷ []) (some 5) ∷ empty ∷ []

abbrev ids : ActionName → Option ℕ
ids stall_name = some 0
ids hit_name = some 1
ids data2_req_name = some 5
ids data2_both_name = some 6
ids _ = none

abbrev table : Table
unfolding read_state read_transitions read_actions next_in
table = record { states = read_state 0 true false cells ∷ []; action_ids = ids }

abbrev handler : Handler
handler = record {
  array = record {
    block_bits = 6;
    set_bits = 0;
    ways_count = 0;
    lines = [];
    way_mask = [];
    shared_mask = 0;
    all_mask = 0;
    requester = none;
    policy = random;
    cycle = 0;
    data_access_latency = 1;
    ready_cycle = 0;
    pipelined = false;
  };
  mshr = [];
  pwb = [];
  pwb_size = none;
  pending_issue = [];
}

abbrev miss : Message
unfolding new_message
miss = new_message 4 128 0 0 1

process_request-Moved_example :
    Moved table handler miss
      (get_next_state (read_state 0 true false cells) 0)
      (process_request table 1 9 handler miss)
unfolding table miss new_message new_line read_event event_from event_number read_state
    read_transitions read_actions next_in get_actions get_next_state is_stall row_actions
    get_request_state bits_of read_line_bits line_location locate find_line first_way action_id
process_request-Moved_example =
    process_request-Moved table 1 9 handler miss load (read_state 0 true false cells) refl refl refl
      refl (refl, tt)

-- Actions of a shared cache: set the owner, fetch the line.
handle_action-Answered_example :
    Answered table miss new_line 0
      (4 ∷ 1 ∷ [])
      (any_fatal (4 ∷ 1 ∷ []))
      (handle_action table 1 9 (4 ∷ 1 ∷ []) miss new_line 0)
handle_action-Answered_example = handle_action-Answered table 1 9 (4 ∷ 1 ∷ []) miss new_line 0

-- Data from the shared cache that are marked as exclusive, and without the mark.
abbrev unmarked : Message
unfolding new_message
unmarked = record (new_message 5 64 3 0 1) { source = upper_interconnect; payload = some [] }

abbrev marked : Message
unfolding unmarked
marked = record unmarked { complementary_value = 2 }

read_mesi_event-reread_example : read_mesi_event 1 unmarked ≡ some (plain own_data, unmarked)
unfolding read_mesi_event marked
read_mesi_event-reread_example = read_mesi_event-reread 1 marked own_data_exclusive unmarked refl

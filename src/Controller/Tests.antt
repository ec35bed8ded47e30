-- ===== src/Controller/Tests.antt =====
-- A controller with one request in its queue, on two interfaces of a bus.
use octopus_simulator.Common.{
  ℕ, ◌≤◌, ◌≡◌, ◌⊎◌, refl, Bool, true, false, none, some, [], ◌∷◌, Ends, ok, arith, length,
}
use octopus_simulator.Message.{Message, new_message, is_demand_request}
use octopus_simulator.Bus.{BusInterface, new_interface}
use octopus_simulator.Queue.{ready, new_buffer}
use octopus_simulator.Cache.Line.{new_line}
use octopus_simulator.Cache.Array.{random}
use octopus_simulator.Cache.Registers.{Handler, line_location, is_address_tracked}
use octopus_simulator.Protocol.Table.{Table, actions_then, read_state}
use octopus_simulator.Protocol.Actions.{add_pending}
use octopus_simulator.Controller.{Controller, DataArrayOp, actions_op, no_arbiter, Rules, Parts}
use octopus_simulator.Controller.Access.{pipelined_array, can_admit_request, is_deferred}
use octopus_simulator.Controller.Fire.{is_due, pipeline_step}
use octopus_simulator.Controller.Effects.{add_to_pending_requests, remove_pending_and_respond}
use octopus_simulator.Controller.Cycle.{intake_upper, next_ready, process_message, process_rounds}
use octopus_simulator.Controller.Due.{count, pipeline_step-Ends}
use octopus_simulator.Controller.Weight.{weight}
use octopus_simulator.Controller.Refusal.{TurnedBack, process_rounds-TurnedBack}
use octopus_simulator.Controller.Rounds.{Drained, TurnedAway, process_rounds-Ends}
use octopus_simulator.Controller.Respond.{
  bus_port, bus_parts, answers, sending, remove_pending_and_respond-answers,
}
use octopus_simulator.Controller.Interlock.{on_line, process_message-alone}
use octopus_simulator.Controller.Admission.{add_to_pending_requests-bound}
use octopus_simulator.Controller.EndToEnd.{EndToEnd, note_owner}
use octopus_simulator.Controller.Missed.{below_bus, took_response, note_owner-misses}
use octopus_simulator.Controller.Llc.{llc_rules, llc_rules-IsFirm, process_rounds-shared}

-- The row of a state that fetches the line for a GetS.
abbrev table : Table
unfolding read_state
table = record {
  states = read_state 0 true false (actions_then (1 ∷ []) (some 0) ∷ []) ∷ [];
  action_ids = λ name. none;
}

abbrev draw : ℕ → ℕ
draw n = n

abbrev llc_parts : Parts BusInterface BusInterface
llc_parts = bus_parts bus_port (llc_rules false table 0 9) draw

-- Every message is ready, waits for the array and becomes pending.
abbrev plain_rules : Rules
plain_rules = record {
  is_request_ready = λ h m. true;
  process = λ h m. some (add_pending m ∷ []);
  needs_array = λ h m. true;
}

abbrev plain_parts : Parts BusInterface BusInterface
plain_parts = bus_parts bus_port plain_rules draw

abbrev handler : Handler
handler = record {
  array = record {
    block_bits = 6;
    set_bits = 0;
    ways_count = 0;
    lines = [];
    way_mask = [];
    shared_mask = 0;
    all_mask = 0;
    requester = none;
    policy = random;
    cycle = 5;
    data_access_latency = 2;
    ready_cycle = 0;
    pipelined = true;
  };
  mshr = [];
  pwb = [];
  pwb_size = some 4;
  pending_issue = [];
}

abbrev request : Message
unfolding new_message
request = new_message 7 128 4 0 3

abbrev op : DataArrayOp
op = record {
  kind = actions_op;
  msg = request;
  actions = add_pending request ∷ [];
  op_id = 1;
  admitted = true;
  ready_cycle = 5;
}

abbrev idle : Controller BusInterface BusInterface
unfolding new_interface new_buffer
idle = record {
  id = 0;
  shared_memory_id = 9;
  perfect_llc = false;
  cache_cycle = 5;
  upper_interface = new_interface 0 4;
  lower_interface = new_interface 0 4;
  data_handler = handler;
  data_array_ports = 1;
  processing_queue = new_buffer (some 0) 0 true;
  pending_requests = [];
  num_mshr = some 1;
  saved_requests_for_wb = [];
  modifying_data_messages = [];
  copies_deferred_supply = true;
  arbiter = no_arbiter;
  arbiter_candidates = [];
  array_ops = [];
  array_admitted_this_cycle = 0;
  array_op_seq = 0;
  pipe_firing = false;
  line_interlock = true;
  next_req_id = 100;
  draws = 0;
}

abbrev asked : Controller BusInterface BusInterface
unfolding new_buffer
asked = record idle {
  processing_queue = record (new_buffer (some 0) 0 true) {
    elements = record { item = request; state = ready } ∷ [];
  };
}

process_rounds-Ends_example :
    Ends
      (λ (d : Controller BusInterface BusInterface).
        (weight d.processing_queue.elements ≤ 2) × (Drained llc_parts d ⊎ TurnedAway llc_parts d))
      (process_rounds llc_parts 2 asked)
unfolding weight new_buffer
process_rounds-Ends_example =
    process_rounds-Ends llc_parts (llc_rules-IsFirm false table 0 9) 2 asked (omega arith)

process_rounds-shared_example :
    Ends
      (λ (d : Controller BusInterface BusInterface).
        (weight d.processing_queue.elements ≤ 2) × (Drained llc_parts d ⊎ TurnedAway llc_parts d))
      (process_rounds llc_parts 2 asked)
unfolding weight new_buffer
process_rounds-shared_example =
    process_rounds-shared llc_parts false table 0 9 refl 2 asked (omega arith)

abbrev busy : Controller BusInterface BusInterface
busy = record idle { array_ops = op ∷ [] }

pipeline_step-Ends_example :
    Ends
      (λ (d : Controller BusInterface BusInterface).
        (d.cache_cycle ≡ 5) × (count (is_due 5) d.array_ops ≡ 0))
      (pipeline_step plain_parts busy)
unfolding pipelined_array idle
pipeline_step-Ends_example = pipeline_step-Ends plain_parts busy refl

abbrev waiting : Controller BusInterface BusInterface
waiting = record idle { pending_requests = (128, request ∷ request ∷ []) ∷ [] }

abbrev fill : Message
fill = record request { payload = some (1 ∷ 2 ∷ []) }

remove_pending_and_respond-answers_example :
    remove_pending_and_respond plain_parts waiting fill
    ≡ ok
        (record (sending bus_port plain_rules draw waiting
          (answers bus_port plain_rules draw waiting fill (1 ∷ 2 ∷ []) (request ∷ request ∷ []))) {
            pending_requests = [];
          })
unfolding new_interface new_message idle
remove_pending_and_respond-answers_example =
    remove_pending_and_respond-answers bus_port plain_rules draw waiting fill (1 ∷ 2 ∷ [])
      (request ∷ request ∷ []) refl refl (omega arith)

process_message-alone_example :
    Ends
      (λ (r : Controller BusInterface BusInterface × Bool). (r.1 ≡ true) × (on_line 128 r.0 ≡ 1))
      (process_message plain_parts (next_ready plain_parts asked).0 request)
unfolding idle next_ready can_admit_request request line_location is_deferred
process_message-alone_example = process_message-alone plain_parts asked request refl refl refl refl

add_to_pending_requests-bound_example :
    Ends
      (λ (d : Controller BusInterface BusInterface). length d.pending_requests ≤ 1)
      (add_to_pending_requests plain_parts idle request)
unfolding idle is_demand_request request is_address_tracked line_location can_admit_request
add_to_pending_requests-bound_example =
    add_to_pending_requests-bound plain_parts idle request 1 refl refl refl refl (omega arith)

-- The request's line is in the miss status holding registers, and another line has the only entry.
abbrev upgrading : Controller BusInterface BusInterface
unfolding new_line
upgrading = record idle {
  pending_requests = (64, request ∷ []) ∷ [];
  data_handler = record handler { mshr = (128, new_line) ∷ [] };
}

-- The pending table is full, and the queue's bound is zero.
abbrev full : Controller BusInterface BusInterface
full = record asked { num_mshr = some 0 }

process_rounds-TurnedBack_example :
    (d : Controller BusInterface BusInterface) × (process_rounds plain_parts 1 full ≡ ok d)
    × TurnedBack plain_parts full request d
unfolding idle next_ready can_admit_request request line_location
process_rounds-TurnedBack_example = process_rounds-TurnedBack plain_parts 0 full request refl refl

abbrev both_waiting : EndToEnd BusInterface BusInterface
both_waiting = record {
  controller = record idle {
    upper_interface = record idle.upper_interface {
      rx_request = request ∷ [];
      rx_response = fill ∷ [];
    };
  };
  owner_of_latest_data = some 3;
}

note_owner-misses_example :
    ((note_owner (below_bus bus_port plain_rules draw) both_waiting).owner_of_latest_data ≡ some 3)
    × (intake_upper
          (below_bus bus_port plain_rules draw)
          (note_owner (below_bus bus_port plain_rules draw) both_waiting).controller
        ≡ took_response bus_port plain_rules draw both_waiting.controller fill [])
unfolding idle new_interface new_message
note_owner-misses_example =
    note_owner-misses bus_port plain_rules draw both_waiting request fill [] [] refl refl
      (λ h. absurd (ground arith)) refl

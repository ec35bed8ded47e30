-- ===== src/Bus/Tests.antt =====
-- The buses at two agents, a first-level cache 1 and a last-level cache 9.
use octopus_simulator.Common.{
  ◌≡◌, refl, ◌⊎◌, inr, true, false, none, some, List, [], ◌∷◌, map, All, arith, and_then,
}
use octopus_simulator.Message.{Message, new_message, request, is_demand_request}
use octopus_simulator.Arbiter.{new_arbiter, fcfs_elect}
use octopus_simulator.Bus.{
  BusInterface, new_interface, broadcast, tx_responses, is_reserve_reached, send,
  push_message_to_rx,
}
use octopus_simulator.Bus.Delivery.{delivered, HasSpace, broadcast-atomic}
use octopus_simulator.Bus.Split.{
  fcfs_arbiter, Slot, SplitBus, request_bus_step, response_backpressured, force_elect, bus_step,
  response_bus_step, elect_into, advance_request, advance_response, elect, won_into,
}
use octopus_simulator.Bus.Split.Held.{HeldStep, request_bus_step-HeldStep}
use octopus_simulator.Bus.Split.Latency.{
  SmoothRun, then_cycle, ended_run, Delivered, bus_step-delivers,
}
use octopus_simulator.Bus.Unified.{UnifiedBus, unified_bus_step}
use octopus_simulator.Bus.Unified.Drop.{OnlyResponse, unified_bus_step-drops}
use octopus_simulator.Bus.Direct.{Pair}

abbrev get_s : Message
unfolding new_message
get_s = new_message 7 64 3 0 1

abbrev l1 : BusInterface
unfolding new_interface
l1 = new_interface 1 2

abbrev llc : BusInterface
unfolding new_interface
llc = new_interface 9 2

abbrev waiting_l1 : BusInterface
waiting_l1 = record l1 { rx_request = get_s ∷ []; rx_response = get_s ∷ [] }

abbrev agents : List BusInterface
agents = l1 ∷ llc ∷ []

broadcast-atomic_example :
    ((broadcast agents get_s request ≡ (agents, false))
      × (is_demand_request get_s ≡ true)
      × (All HasSpace agents → ⊥))
    ⊎ ((broadcast agents get_s request ≡ (map (delivered get_s) agents, true))
        × ((is_demand_request get_s ≡ false) ⊎ All HasSpace agents))
broadcast-atomic_example = broadcast-atomic agents get_s

abbrev reply : Message
reply = record get_s { to = 1 ∷ 9 ∷ []; payload = some (5 ∷ []) }

abbrev holding : Slot
unfolding new_arbiter
holding = record {
  arbiter = new_arbiter (1 ∷ 9 ∷ []) 4;
  latency = 4;
  clk_in_slot = 1;
  held = some get_s;
}

abbrev idle : Slot
idle = record holding { held = none; clk_in_slot = 0 }

abbrev split : SplitBus
split = record {
  arbiter_type = fcfs_arbiter;
  response_reserve = 0;
  interfaces = agents;
  request_slot = holding;
  response_slot = idle;
}

request_bus_step-HeldStep_example : HeldStep split get_s (request_bus_step split 5)
unfolding holding
request_bus_step-HeldStep_example = request_bus_step-HeldStep split get_s 5 refl

-- The response slot delivers the reply in the first cycle.
abbrev busy : SplitBus
busy = record split { response_slot = record holding { held = some reply; clk_in_slot = 3 } }

abbrev reached : BusInterface → BusInterface
reached i = record i { rx_request = get_s ∷ []; rx_response = reply ∷ [] }

abbrev afterwards : SplitBus
afterwards = record split { interfaces = reached l1 ∷ reached llc ∷ []; request_slot = idle }

smooth : SmoothRun 3 busy 5 afterwards
unfolding bus_step request_bus_step response_bus_step response_backpressured is_reserve_reached
    elect_into advance_request advance_response broadcast send elect won_into fcfs_elect holding
    new_interface push_message_to_rx new_message new_arbiter
smooth = then_cycle refl refl (then_cycle refl refl (then_cycle refl refl ended_run))

bus_step-delivers_example : Delivered get_s busy afterwards
unfolding new_interface holding
bus_step-delivers_example =
    bus_step-delivers 2 busy afterwards get_s 5 refl (inr (omega arith)) (omega arith) smooth

abbrev full_llc : BusInterface
full_llc = record llc { rx_request = get_s ∷ get_s ∷ [] }

abbrev unified : UnifiedBus
unified = record {
  arbiter_type = fcfs_arbiter;
  arbiter = holding.arbiter;
  request_latency = 4;
  response_latency = 4;
  interfaces = l1 ∷ full_llc ∷ [];
  clk_in_slot = 3;
  held = some get_s;
}

unified_bus_step-drops_example :
    (b' : UnifiedBus) × (and_then (unified_bus_step unified 7) (λ x. unified_bus_step x 8)
      ≡ some b')
    × OnlyResponse unified
        (force_elect fcfs_arbiter unified.arbiter 8 (tx_responses unified.interfaces)).1
        b'
unfolding new_interface is_demand_request new_message
unified_bus_step-drops_example =
    unified_bus_step-drops unified get_s 7 refl (omega arith) (omega arith) (omega arith) refl
      (λ h. omega (arith, h.1.0))

abbrev link : Pair
link = record { lower = record l1 { tx_request = get_s ∷ [] }; upper = llc }

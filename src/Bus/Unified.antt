-- ===== src/Bus/Unified.antt =====
-- src/Interconnect/UnifiedBusController.cpp: one slot that carries a request and then a response.
pub mod Drop
use octopus_simulator.Common.{
  ℕ, suc, ◌+◌, ◌%◌, Bool, true, false, Option, none, some, List, [], ◌∷◌, ◌==◌, if◌then◌else◌,
  and_then,
}
use octopus_simulator.Message.{Message, request, data_response}
use octopus_simulator.Arbiter.{Arbiter}
use octopus_simulator.Bus.{
  BusInterface, tx_requests, tx_responses, with_tx_requests, with_tx_responses, broadcast, send,
}
use octopus_simulator.Bus.Split.{ArbiterType, elect, force_elect}

-- `held` is the elected message while `message_available` is set.
pub record UnifiedBus : Type 0 where
  pub arbiter_type : ArbiterType
  pub arbiter : Arbiter
  pub request_latency : ℕ
  pub response_latency : ℕ
  pub interfaces : List BusInterface
  pub clk_in_slot : ℕ
  pub held : Option Message

unfoldable pub take_request :
    UnifiedBus → Arbiter × Option (Message × List (List Message)) → UnifiedBus
take_request b (a, none) = record b { arbiter = a; held = none }
take_request b (a, some (m, rest)) = record b {
  arbiter = a;
  held = some m;
  interfaces = with_tx_requests b.interfaces rest;
}

unfoldable pub take_response :
    UnifiedBus → Arbiter × Option (Message × List (List Message)) → UnifiedBus
take_response b (a, none) = record b { arbiter = a; held = none }
take_response b (a, some (m, rest)) = record b {
  arbiter = a;
  held = some m;
  interfaces = with_tx_responses b.interfaces rest;
}

-- The result of `broadcast` is not read.
unfoldable pub broadcast_held : UnifiedBus → Option Message → UnifiedBus
broadcast_held b none = b
broadcast_held b (some m) = record b { interfaces = (broadcast b.interfaces m request).0 }

unfoldable pub send_held : UnifiedBus → Option Message → Option UnifiedBus
send_held b none = some b
send_held b (some m) =
    and_then (send b.interfaces m data_response)
      (λ is. some (record b { interfaces = is; held = none }))

-- The last test of the step.
unfoldable pub next_clk : UnifiedBus → Option Message → UnifiedBus
next_clk b none = record b { clk_in_slot = 0 }
next_clk b (some m) = record b {
  clk_in_slot = (b.clk_in_slot + 1) % (b.request_latency + b.response_latency);
}

-- The four tests of `requestBusStep`, in order; `none` is the `exit(0)` of a send.
unfoldable pub slot_action : UnifiedBus → ℕ → Option UnifiedBus
unfolding take_request take_response broadcast_held send_held
slot_action b cycle =
    if b.clk_in_slot == 0
    then some (take_request b (elect b.arbiter_type b.arbiter cycle (tx_requests b.interfaces)))
    else if b.clk_in_slot + 1 == b.request_latency
    then some (broadcast_held b b.held)
    else if b.clk_in_slot == b.request_latency
    then some
        (take_response b (force_elect b.arbiter_type b.arbiter cycle (tx_responses b.interfaces)))
    else if b.clk_in_slot + 1 == b.request_latency + b.response_latency
    then send_held b b.held
    else some b

unfoldable pub unified_bus_step : UnifiedBus → ℕ → Option UnifiedBus
unfolding slot_action next_clk
unified_bus_step b cycle = and_then (slot_action b cycle) (λ b'. some (next_clk b' b'.held))

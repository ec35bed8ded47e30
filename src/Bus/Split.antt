-- ===== src/Bus/Split.antt =====
-- src/Interconnect/SplitBusController.cpp: the request bus and the response bus, each with one message
-- in its slot. The arbiters are those of the Arbiter module.
pub mod Held
pub mod Beside
pub mod Latency
use octopus_simulator.Common.{
  ℕ, zero, suc, ◌+◌, Bool, true, false, ◌&&◌, ◌||◌, not, Option, none, some, List, [], ◌∷◌, ◌==◌,
  if◌then◌else◌, and_then, is_some,
}
use octopus_simulator.Message.{Message, request, data_response}
use octopus_simulator.Arbiter.{
  Arbiter, fcfs_elect, rr_elect, tdm_elect, rr_force_elect, tdm_core_elect,
}
use octopus_simulator.Bus.{
  BusInterface, is_reserve_reached, tx_requests, tx_responses, with_tx_requests, with_tx_responses,
  broadcast, send,
}

-- The dynamic type of an arbiter.
pub data ArbiterType : Type 0 where
  tdm_arbiter fcfs_arbiter rr_arbiter : ArbiterType

unfoldable pub elect :
    ArbiterType
    → Arbiter
    → ℕ
    → List (List Message)
    → Arbiter × Option (Message × List (List Message))
unfolding tdm_elect fcfs_elect rr_elect
elect tdm_arbiter a cycle buffers = tdm_elect a cycle buffers
elect fcfs_arbiter a cycle buffers = (a, fcfs_elect buffers)
elect rr_arbiter a cycle buffers = rr_elect a buffers

unfoldable pub force_elect :
    ArbiterType
    → Arbiter
    → ℕ
    → List (List Message)
    → Arbiter × Option (Message × List (List Message))
unfolding tdm_core_elect fcfs_elect rr_force_elect
force_elect tdm_arbiter a cycle buffers = tdm_core_elect a cycle buffers
force_elect fcfs_arbiter a cycle buffers = (a, fcfs_elect buffers)
force_elect rr_arbiter a cycle buffers = rr_force_elect a buffers

-- One bus: its arbiter and its slot. `held` is the elected message while it is available.
pub record Slot : Type 0 where
  pub arbiter : Arbiter
  pub latency : ℕ
  pub clk_in_slot : ℕ
  pub held : Option Message

pub record SplitBus : Type 0 where
  pub arbiter_type : ArbiterType
  pub response_reserve : ℕ
  pub interfaces : List BusInterface
  pub request_slot : Slot
  pub response_slot : Slot

unfoldable pub response_backpressured : ℕ → List BusInterface → Bool
unfolding is_reserve_reached
response_backpressured reserve [] = false
response_backpressured reserve (i ∷ is) =
    is_reserve_reached reserve i || response_backpressured reserve is

-- The slot and the arbiter after an election, and the senders' buffers if it succeeded.
unfoldable pub won_into :
    Slot → Arbiter × Option (Message × List (List Message)) → Slot × Option (List (List Message))
won_into s (a, none) = (record s { arbiter = a }, none)
won_into s (a, some (m, rest)) = (record s { arbiter = a; held = some m }, some rest)

-- The first test of a bus step: at the start of a slot with no message held, the arbiter is asked.
unfoldable pub elect_into :
    ArbiterType → ℕ → Slot → List (List Message) → Slot × Option (List (List Message))
unfolding won_into
elect_into type cycle s buffers =
    if s.clk_in_slot == 0 && not (is_some s.held)
    then won_into s (elect type s.arbiter cycle buffers)
    else (s, none)

abbrev pub put_requests : List BusInterface → Option (List (List Message)) → List BusInterface
put_requests is none = is
put_requests is (some rest) = with_tx_requests is rest

abbrev pub put_responses : List BusInterface → Option (List (List Message)) → List BusInterface
put_responses is none = is
put_responses is (some rest) = with_tx_responses is rest

-- The second half of `requestBusStep`, by the message that is held; the test
-- `clk_in_slot == latency - 1` is made without the subtraction.
unfoldable pub advance_request : Option Message → SplitBus → SplitBus
unfolding broadcast
advance_request none b = record b { request_slot = record (b.request_slot) { clk_in_slot = 0 } }
advance_request (some m) b =
    if b.request_slot.clk_in_slot + 1 == b.request_slot.latency
    then (let (is, done) = broadcast b.interfaces m request in
        if done
        then record b {
          interfaces = is;
          request_slot = record (b.request_slot) { held = none; clk_in_slot = 0 };
        }
        else b)
    else record b {
      request_slot = record (b.request_slot) { clk_in_slot = b.request_slot.clk_in_slot + 1 };
    }

unfoldable pub request_bus_step : SplitBus → ℕ → SplitBus
request_bus_step b cycle =
    if response_backpressured b.response_reserve b.interfaces
    then b
    else let (s, rest) =
        elect_into b.arbiter_type cycle b.request_slot (tx_requests b.interfaces) in
      advance_request s.held
        (record b { interfaces = put_requests b.interfaces rest; request_slot = s })

-- The second half of `responseBusStep`; `none` is the `exit(0)` of a send with no such destination.
unfoldable pub advance_response : Option Message → SplitBus → Option SplitBus
unfolding send
advance_response none b =
    some (record b { response_slot = record (b.response_slot) { clk_in_slot = 0 } })
advance_response (some m) b =
    if b.response_slot.clk_in_slot + 1 == b.response_slot.latency
    then and_then (send b.interfaces m data_response) (λ is. some (record b {
      interfaces = is;
      response_slot = record (b.response_slot) { held = none; clk_in_slot = 0 };
    }))
    else some (record b {
      response_slot = record (b.response_slot) { clk_in_slot = b.response_slot.clk_in_slot + 1 };
    })

unfoldable pub response_bus_step : SplitBus → ℕ → Option SplitBus
response_bus_step b cycle =
    let (s, rest) = elect_into b.arbiter_type cycle b.response_slot (tx_responses b.interfaces) in
    advance_response s.held
      (record b { interfaces = put_responses b.interfaces rest; response_slot = s })

unfoldable pub bus_step : SplitBus → ℕ → Option SplitBus
bus_step b cycle = response_bus_step (request_bus_step b cycle) cycle

-- ===== src/Memory.antt =====
-- src/MainMemoryController.cpp: a memory behind a bus interface that answers a read a fixed number of
-- cycles after it took the request in. `exit(0)` is `none`; a bounded queue is a parameter of its state.
pub mod Ripe
mod Tests
use octopus_simulator.Common.{
  ℕ, suc, ◌+◌, Bool, true, false, Option, none, some, List, [], ◌∷◌, leb, if◌then◌else◌, is_some,
  replicate,
}
use octopus_simulator.Message.{Message, new_message, lower_interconnect, data_response, fill}
use octopus_simulator.Queue.{State, ready, non_ready, is_ready, Buffer, push_back, get_first_ready}
use octopus_simulator.Bus.{BusInterface, peek_message, pop_front_message, push_message}

pub record Memory : Type 0 where
  pub llc_id : ℕ
  pub memory_latency : ℕ
  pub clk_cycle : ℕ
  pub read_count : ℕ
  pub write_count : ℕ
  pub lower_interface : BusInterface
  pub processing_queue : Buffer

-- `getRequestState`.
unfoldable pub ripeness : ℕ → ℕ → Message → State → State
ripeness latency clk m non_ready = if leb (m.cycle + latency) clk then ready else non_ready
ripeness latency clk m _ = non_ready

-- `addRequests2ProcessingQueue`, by the message that `peekMessage` found and the interface after it.
unfoldable pub take_in : Memory → BusInterface → Option Message → Memory
unfolding push_back pop_front_message
take_in d i none = record d { lower_interface = i }
take_in d i (some m) =
    let (q, done) =
      push_back d.processing_queue (record m { source = lower_interconnect; cycle = d.clk_cycle })
        non_ready false in
    if done
    then record d { lower_interface = pop_front_message i; processing_queue = q }
    else record d { lower_interface = i }

unfoldable pub add_requests : Memory → Memory
unfolding peek_message take_in
add_requests d = let (i, found) = peek_message d.lower_interface in take_in d i found

-- The response to a read: 64 bytes of zero.
unfoldable pub response_to : Memory → Message → Message
unfolding new_message
response_to d m = record (new_message m.msg_id m.addr d.clk_cycle 0 m.owner) {
  to = d.llc_id ∷ [];
  kind = fill;
  payload = some (replicate 64 0);
  data_size = 64;
}

unfoldable pub serve : Memory → Option Message → Option Memory
unfolding push_message response_to
serve d none = some d
serve d (some m) =
    if is_some m.payload
    then some (record d { write_count = d.write_count + 1 })
    else (let (i, done) =
          push_message d.lower_interface (response_to d m) d.clk_cycle data_response in
        if done
        then some (record d { read_count = d.read_count + 1; lower_interface = i })
        else none)

unfoldable pub process_logic : Memory → Option Memory
unfolding add_requests serve get_first_ready ripeness
process_logic d =
    let taken = add_requests d in
    let (q, found) =
      get_first_ready (ripeness taken.memory_latency taken.clk_cycle) (λ m. false)
        taken.processing_queue in
    serve (record taken { processing_queue = q }) found

unfoldable pub cycle_process : Memory → Option Memory
unfolding process_logic
cycle_process d = elim (process_logic d) [
  | none ↦ none
  | some d' ↦ some (record d' { clk_cycle = d'.clk_cycle + 1 })
]

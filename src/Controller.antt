-- ===== src/Controller.antt =====
-- header/CacheControllers/BaseController.h and CacheController.h, with the array scheduling of
-- src/CacheControllers/CacheController.cpp: the state of a cache controller, and the accesses to the
-- data array that wait. The simulator runs alone: no core model is attached (`m_cpu_port` is null).
-- Statistics, traces and dumps are left out. A bound of -1 is `none`.
pub mod Access
pub mod Effects
pub mod Fire
pub mod Cycle
pub mod Keeps
pub mod Due
pub mod Weight
pub mod Rounds
pub mod Admission
pub mod Refusal
pub mod Interlock
pub mod Respond
pub mod Llc
pub mod EndToEnd
pub mod Missed
mod Tests
use octopus_simulator.Common.{
  ℕ, zero, suc, ◌+◌, ◌-◌, ◌<◌, Bool, true, false, ◌&&◌, ◌||◌, not, Option, none, some, List, [],
  ◌∷◌, ◌++◌, map, length, find, get_elem?, set, ltb, leb, ◌==◌, if◌then◌else◌, is_some,
}
use octopus_simulator.Message.{Message, MessageType, is_demand_request, is_lower}
use octopus_simulator.Arbiter.{Arbiter, rr_elect, fcfs_elect}
use octopus_simulator.Queue.{Buffer, at_limit}
use octopus_simulator.Cache.Array.{is_ready}
use octopus_simulator.Cache.Registers.{
  Handler, Location, in_mshr, in_pwb, line_location, is_address_tracked, is_ready_for, block_of,
}
use octopus_simulator.Cache.Accesses.{pwb_has_space}
use octopus_simulator.Protocol.Actions.{ControllerAction}

-- CommunicationInterface, for an interface whose state is a `P`.
pub record Port (P : Type 0) : Type 0 where
  pub peek : P → P × Option Message
  pub pop : P → P
  pub push : P → Message → ℕ → MessageType → P × Bool
  pub push_to_rx : P → Message → MessageType → P × Bool

-- CoherenceProtocolHandler: whether `getRequestState` says ready, `processRequest` with `none` for an
-- exit, and `needsDataArray`.
pub record Rules : Type 0 where
  pub is_request_ready : Handler → Message → Bool
  pub process : Handler → Message → Option (List ControllerAction)
  pub needs_array : Handler → Message → Bool

-- What a controller is built with; `draw` gives the results of `rand()` one by one.
pub record Parts (U L : Type 0) : Type 0 where
  pub upper_port : Port U
  pub lower_port : Port L
  pub rules : Rules
  pub draw : ℕ → ℕ

pub data OpKind : Type 0 where
  message_op actions_op : OpKind

pub record DataArrayOp : Type 0 where
  pub kind : OpKind
  pub msg : Message
  pub actions : List ControllerAction
  pub op_id : ℕ
  pub admitted : Bool
  pub ready_cycle : ℕ

-- `m_data_access_arbiter`.
pub data AccessArbiter : Type 0 where
  no_arbiter : AccessArbiter
  round_robin : Arbiter → AccessArbiter
  first_come : AccessArbiter

pub record Controller (U L : Type 0) : Type 0 where
  pub id : ℕ
  pub shared_memory_id : ℕ
  pub perfect_llc : Bool
  pub cache_cycle : ℕ
  pub upper_interface : U
  pub lower_interface : L
  pub data_handler : Handler
  pub data_array_ports : ℕ
  pub processing_queue : Buffer
  pub pending_requests : List (ℕ × List Message)
  pub num_mshr : Option ℕ
  pub saved_requests_for_wb : List (ℕ × List Message)
  pub modifying_data_messages : List (ℕ × Message)
  pub copies_deferred_supply : Bool
  pub arbiter : AccessArbiter
  pub arbiter_candidates : List ℕ
  pub array_ops : List DataArrayOp
  pub array_admitted_this_cycle : ℕ
  pub array_op_seq : ℕ
  pub pipe_firing : Bool
  pub line_interlock : Bool
  pub next_req_id : ℕ
  pub draws : ℕ

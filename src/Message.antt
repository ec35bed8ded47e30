-- ===== src/Message.antt =====
-- header/Interconnect/CommunicationInterface.h: the message that every component exchanges.
-- Ids, addresses and cycles are unbounded numbers; a null `data` pointer is `none`, and a payload is
-- the list of its bytes. `copy` duplicates every field, so a copy is the value itself.
use octopus_simulator.Common.{
  ℕ, Bool, true, false, ◌&&◌, ◌||◌, not, Option, none, some, List, [], ◌==◌, is_some,
}
use octopus_simulator.Cache.Line.{copy_over}

pub data Source : Type 0 where
  lower_interconnect upper_interconnect self : Source

pub data MessageType : Type 0 where
  request data_response service_request : MessageType

pub data Kind : Type 0 where
  unknown demand gets getm putm inv mem_read evict wb_data wb_inv : Kind
  supply supply_deferred resp fill fill_rollback mem_write puts fwd ack : Kind

pub record Message : Type 0 where
  pub msg_id : ℕ
  pub addr : ℕ
  pub cycle : ℕ
  pub complementary_value : ℕ
  pub complementary_value2 : ℕ
  pub owner : ℕ
  pub from : ℕ
  pub to : List ℕ
  pub source : Source
  pub payload : Option (List ℕ)
  pub data_size : ℕ
  pub kind : Kind

-- The constructor `Message(msg_id, addr, cycle, complementary_value, owner)`.
unfoldable pub new_message : ℕ → ℕ → ℕ → ℕ → ℕ → Message
new_message msg_id addr cycle complementary_value owner = record {
  msg_id = msg_id;
  addr = addr;
  cycle = cycle;
  complementary_value = complementary_value;
  complementary_value2 = 0;
  owner = owner;
  from = 0;
  to = [];
  source = lower_interconnect;
  payload = none;
  data_size = 0;
  kind = unknown;
}

-- `copy(data)`: a buffer of 64 bytes.
unfoldable pub with_bytes : Message → List ℕ → Message
with_bytes m bytes = record m { payload = some (copy_over [] 64 bytes); data_size = 64 }

abbrev pub is_lower : Source → Bool
is_lower lower_interconnect = true
is_lower _ = false

abbrev pub same_source : Source → Source → Bool
same_source lower_interconnect lower_interconnect = true
same_source upper_interconnect upper_interconnect = true
same_source self self = true
same_source _ _ = false

unfoldable pub is_demand_request : Message → Bool
is_demand_request m =
    is_lower m.source
    && not (is_some m.payload)
    && (m.complementary_value == 0 || m.complementary_value == 1)

unfoldable pub is_invalidation : Message → Bool
is_invalidation m = m.complementary_value == 10 && not (is_some m.payload)

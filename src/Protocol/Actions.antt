-- ===== src/Protocol/Actions.antt =====
-- header/CacheControllers/ControllerAction.h: what a protocol tells its controller to do, each action with the
-- message, or the message and the line, that its `data` points to.
use octopus_simulator.Message.{Message}
use octopus_simulator.Cache.Line.{Line}

-- `uninitialised` is an action whose type no case has set. `remove_saved_req` is
-- REMOVE_SAVED_REQ, which MESIProtocol writes as NO_ACTION + 1.
pub data ControllerAction : Type 0 where
  remove_pending : Message → ControllerAction
  hit_action : Message → ControllerAction
  add_pending : Message → ControllerAction
  send_bus_msg : Message → ControllerAction
  write_back : Message → ControllerAction
  update_cache_line : Message → Line → ControllerAction
  write_cache_line_data : Message → Line → ControllerAction
  modify_data : Message → ControllerAction
  save_req_for_write_back : Message → ControllerAction
  no_action : ControllerAction
  stall_action : Message → ControllerAction
  send_inv_msg : Message → ControllerAction
  remove_saved_req : Message → ControllerAction
  uninitialised : ControllerAction

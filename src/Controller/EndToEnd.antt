-- ===== src/Controller/EndToEnd.antt =====
-- src/CacheControllers/CacheController_End2End.cpp and CacheControllerExclusive.cpp: the functions that these
-- controllers override or add. An access that waits runs the base controller's function.
use octopus_simulator.Common.{
  Outcome, ok, exits, and_run, ℕ, ◌^◌, Option, none, some, [], ◌∷◌, ◌++◌, drop_key, if◌then◌else◌,
}
use octopus_simulator.Message.{Message, with_bytes, fill_rollback, data_response}
use octopus_simulator.Protocol.Actions.{
  ControllerAction, send_bus_msg, write_back, send_inv_msg, remove_saved_req,
}
use octopus_simulator.Controller.{Controller, Parts}
use octopus_simulator.Controller.Access.{address_key}
use octopus_simulator.Controller.Effects.{
  sent_upper, read_for, when_readable, send_bus_request, send_invalidation_message, run_action,
}
use octopus_simulator.Controller.Cycle.{add_requests}

-- `m_owner_of_latest_data`, whose -1 is `none`.
pub record EndToEnd (U L : Type 0) : Type 0 where
  pub controller : Controller U L
  pub owner_of_latest_data : Option ℕ

unfoldable pub latest_owner : Option ℕ → Option Message → Option ℕ
latest_owner owner none = owner
latest_owner owner (some m) = elim m.payload [ none ↦ owner | some bytes ↦ some m.owner ]

module _ {U L : Type 0} (parts : Parts U L) where
  -- The peek before the intake of the base class.
  unfoldable pub note_owner : EndToEnd U L → EndToEnd U L
  unfolding latest_owner
  note_owner e =
      let (u, found) = parts.upper_port.peek e.controller.upper_interface in
      record {
        controller = record (e.controller) { upper_interface = u };
        owner_of_latest_data = latest_owner e.owner_of_latest_data found;
      }

  abbrev pub with_inner : EndToEnd U L → Outcome (Controller U L) → Outcome (EndToEnd U L)
  with_inner e r = and_run r (λ c. ok (record e { controller = c }))

  unfoldable pub end_to_end_add_requests : ℕ → EndToEnd U L → Outcome (EndToEnd U L)
  unfolding note_owner add_requests
  end_to_end_add_requests flush e =
      with_inner (note_owner e) (add_requests parts flush (note_owner e).controller)

  -- `performWriteBack`: the data go to the shared memory in the name of the owner of the latest data.
  unfoldable pub send_latest : Option ℕ → Controller U L × Message → Outcome (Controller U L)
  send_latest owner (c, m) = sent_upper parts c (
      parts.upper_port.push c.upper_interface
        (record m {
          owner = elim owner [ none ↦ c.id | some id ↦ id ];
          to = m.to ++ c.shared_memory_id ∷ [];
        })
        c.cache_cycle data_response)

  unfoldable pub end_to_end_write_back : EndToEnd U L → Message → Outcome (EndToEnd U L)
  unfolding send_latest when_readable read_for
  end_to_end_write_back e m =
      let c = e.controller in
      if c.perfect_llc
      then ok e
      else with_inner e (
          when_readable parts c m (write_back m)
            (send_latest e.owner_of_latest_data (read_for parts c m)))

  -- CacheControllerExclusive: `removedSaveRequest`.
  unfoldable pub remove_saved_request : Controller U L → Message → Controller U L
  remove_saved_request c m = record c {
    saved_requests_for_wb = drop_key c.saved_requests_for_wb (address_key c m.addr);
  }

  unfoldable pub run_exclusive_action : Controller U L → ControllerAction → Outcome (Controller U L)
  unfolding remove_saved_request run_action
  run_exclusive_action c (remove_saved_req m) = ok (remove_saved_request c m)
  run_exclusive_action c a = run_action parts c a

-- `rollback` takes a message to the block out of what the interface is to send.
module _ {U L : Type 0} (parts : Parts U L) (take_back : U → ℕ → ℕ → U × Option Message) where
  -- A write-back that has not left yet comes back as the answer to the request.
  unfoldable pub end_to_end_send_bus_request : EndToEnd U L → Message → Outcome (EndToEnd U L)
  unfolding send_bus_request with_bytes
  end_to_end_send_bus_request e m =
      let c = e.controller in
      let (u, found) = take_back c.upper_interface m.addr (2 ^ c.data_handler.array.block_bits) in
      elim found [
        | none ↦ with_inner parts e (send_bus_request parts (record c { upper_interface = u }) m)
        | some returned ↦ elim returned.payload [
          | none ↦ exits
          | some bytes ↦ ok (record e {
            controller = record c {
              upper_interface =
                  (parts.upper_port.push_to_rx u
                    (record (with_bytes m bytes) { kind = fill_rollback }) data_response).0;
            };
          })
        ]
      ]

  unfoldable pub run_end_to_end_action : EndToEnd U L → ControllerAction → Outcome (EndToEnd U L)
  unfolding end_to_end_send_bus_request end_to_end_write_back send_invalidation_message run_action
  run_end_to_end_action e (send_bus_msg m) = end_to_end_send_bus_request e m
  run_end_to_end_action e (write_back m) = end_to_end_write_back parts e m
  run_end_to_end_action e (send_inv_msg m) =
      with_inner parts e (send_invalidation_message parts e.controller m)
  run_end_to_end_action e a = with_inner parts e (run_action parts e.controller a)

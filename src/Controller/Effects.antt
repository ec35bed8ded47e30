-- ===== src/Controller/Effects.antt =====
-- src/CacheControllers/BaseController.cpp and CacheController.cpp: the action functions. An exit is
-- `exits`, a call of an action that has no function too; a failed `readCacheLine` without a core model
-- leaves the message without data.
use octopus_simulator.Common.{
  Outcome, ok, exits, and_run, ℕ, suc, ◌^◌, Bool, true, false, ◌&&◌, ◌||◌, not, Option, none, some,
  List, [], ◌∷◌, ◌++◌, map, find, find_all, put, drop_key, push_under, replicate, ltb, ◌==◌,
  if◌then◌else◌, is_some,
}
use octopus_simulator.Message.{
  Message, new_message, with_bytes, Kind, resp, fill, supply_deferred, wb_inv, is_lower, request,
  data_response, service_request,
}
use octopus_simulator.Queue.{push_back, non_ready}
use octopus_simulator.Cache.Line.{Line, new_line, buffer_of}
use octopus_simulator.Cache.Array.{set_requester}
use octopus_simulator.Cache.Registers.{Handler, is_address_tracked, set_array, write_line_to_mshr}
use octopus_simulator.Cache.Accesses.{
  update_line_bits, update_line_data, modify_line_data, read_cache_line,
}
use octopus_simulator.Protocol.Actions.{
  ControllerAction, remove_pending, hit_action, add_pending, send_bus_msg, write_back,
  update_cache_line, write_cache_line_data, modify_data, save_req_for_write_back, no_action,
  stall_action, send_inv_msg, remove_saved_req, uninitialised,
}
use octopus_simulator.Controller.{Controller, Parts, actions_op}
use octopus_simulator.Controller.Access.{address_key, array_enqueue, is_granted}

-- The message after `readCacheLine` into a local line.
unfoldable pub with_read : Message → Bool × Option Line → Message
unfolding with_bytes
with_read m (false, line) = m
with_read m (true, none) = m
with_read m (true, some line) = elim line.bytes [ none ↦ m | some bytes ↦ with_bytes m bytes ]

-- The request that is answered by `m`.
unfoldable pub answer_to : Message → List ℕ → Message → Message
unfolding with_bytes
answer_to m bytes p = record (with_bytes p bytes) {
  complementary_value = m.complementary_value;
  to = m.to;
  kind = resp;
}

abbrev pub owners : List Message → List ℕ
owners = map (λ (m : Message). m.owner)

unfoldable pub is_destination : ℕ → List ℕ → Bool
is_destination id [] = false
is_destination id (t ∷ to) = t == id || is_destination id to

unfoldable pub is_first_destination : ℕ → List ℕ → Bool
is_first_destination id [] = false
is_first_destination id (t ∷ to) = t == id

abbrev pub as_wb_inv : Kind → Kind
as_wb_inv supply_deferred = wb_inv
as_wb_inv kind = kind

-- The message of `performWriteBack` by the requests that are saved for its line.
unfoldable pub forwarded : Bool → ℕ → Message → List Message → Message
unfolding is_destination
forwarded copies memory m [] = record m { kind = as_wb_inv m.kind }
forwarded copies memory m (s ∷ saved) = record m {
  owner = s.owner;
  msg_id = s.msg_id;
  to =
      (if copies && (s.complementary_value == 0 && not (is_destination memory m.to))
        then m.to ++ memory ∷ []
        else m.to)
      ++ owners saved;
}

-- `m_saved_requests_for_wb.erase`, under its condition.
unfoldable pub forget_saved : List (ℕ × List Message) → ℕ → List Message → List (ℕ × List Message)
forget_saved saved key [] = saved
forget_saved saved key (s ∷ ms) = drop_key saved key

-- The data of `modifyData`: the saved message's, or that of a request from below.
unfoldable pub modifying : Message → Option Message → Option Message
modifying m (some saved) = some saved
modifying m none = if is_lower m.source && is_some m.payload then some m else none

-- The answer of a perfect LLC's own fetch.
unfoldable pub own_fill : ℕ → ℕ → Message → Message
unfolding new_message with_bytes
own_fill id cycle m =
    record (with_bytes (new_message m.msg_id m.addr cycle 0 m.owner) (replicate 64 0)) {
      to = id ∷ [];
      kind = fill;
    }

module _ {U L : Type 0} (parts : Parts U L) where
  abbrev pub sent_upper : Controller U L → U × Bool → Outcome (Controller U L)
  sent_upper c (u, true) = ok (record c { upper_interface = u })
  sent_upper c (u, false) = exits

  abbrev pub sent_lower : Controller U L → L × Bool → Outcome (Controller U L)
  sent_lower c (l, true) = ok (record c { lower_interface = l })
  sent_lower c (l, false) = exits

  -- The part of the response functions that reads the line for a message without data.
  unfoldable pub read_for : Controller U L → Message → Controller U L × Message
  unfolding read_cache_line with_read new_line
  read_for c m = elim m.payload [
    | some bytes ↦ (c, m)
    | none ↦
        let (read, h) = read_cache_line c.data_handler m.addr (some new_line) false in
        (record c { data_handler = h }, with_read m read)
  ]

  -- `checkReadinessOfCache`, then the rest of the action if the access is granted.
  unfoldable pub when_granted :
      Controller U L
      → Message
      → ControllerAction
      → Outcome (Controller U L)
      → Outcome (Controller U L)
  unfolding is_granted array_enqueue
  when_granted c m action rest =
      if is_granted c m.addr then rest else ok (array_enqueue c actions_op m (action ∷ []))

  unfoldable pub when_readable :
      Controller U L
      → Message
      → ControllerAction
      → Outcome (Controller U L)
      → Outcome (Controller U L)
  unfolding when_granted
  when_readable c m action rest = elim m.payload [
    | some bytes ↦ rest
    | none ↦ when_granted c m action rest
  ]

  unfoldable pub add_to_pending_requests : Controller U L → Message → Outcome (Controller U L)
  add_to_pending_requests c m = ok (record c {
    modifying_data_messages =
        if is_some m.payload
        then put c.modifying_data_messages m.msg_id m
        else c.modifying_data_messages;
    pending_requests = push_under c.pending_requests (address_key c m.addr) m;
  })

  unfoldable pub respond_each : Controller U L → Message → List Message → Outcome (Controller U L)
  unfolding answer_to
  respond_each c m [] = ok c
  respond_each c m (p ∷ ps) = elim m.payload [
    | none ↦ exits
    | some bytes ↦
        and_run
          (sent_lower c (
            parts.lower_port.push c.lower_interface (answer_to m bytes p) c.cache_cycle
              data_response))
          (λ c'. respond_each c' m ps)
  ]

  -- BaseController::removePendingAndRespond.
  unfoldable pub respond_pending : Controller U L × Message → Outcome (Controller U L)
  unfolding respond_each
  respond_pending (c, m) = elim (find c.pending_requests (address_key c m.addr)) [
    | none ↦ exits
    | some ps ↦ and_run (respond_each c m ps) (λ c'.
        ok (record c' { pending_requests = drop_key c'.pending_requests (address_key c' m.addr) }))
  ]

  unfoldable pub remove_pending_and_respond : Controller U L → Message → Outcome (Controller U L)
  unfolding when_readable respond_pending read_for
  remove_pending_and_respond c m =
      when_readable c m (remove_pending m) (respond_pending (read_for c m))

  unfoldable pub respond_hit : Controller U L × Message → Outcome (Controller U L)
  respond_hit (c, m) = sent_lower c (
      parts.lower_port.push c.lower_interface (record m { kind = resp }) c.cache_cycle
        data_response)

  unfoldable pub hit_line : Controller U L → Message → Outcome (Controller U L)
  unfolding when_readable respond_hit read_for
  hit_line c m = when_readable c m (hit_action m) (respond_hit (read_for c m))

  unfoldable pub send_bus_request : Controller U L → Message → Outcome (Controller U L)
  unfolding own_fill is_first_destination
  send_bus_request c m =
      if c.perfect_llc && is_first_destination c.shared_memory_id m.to
      then ok (record c {
        upper_interface =
            (parts.upper_port.push_to_rx c.upper_interface (own_fill c.id c.cache_cycle m)
              data_response).0;
      })
      else sent_upper c (
          parts.upper_port.push c.upper_interface (record m { cycle = c.cache_cycle }) c.cache_cycle
            request)

  -- BaseController::performWriteBack.
  unfoldable pub send_write_back : Controller U L × Message → Outcome (Controller U L)
  send_write_back (c, m) =
      if m.owner == c.id && c.perfect_llc
      then ok c
      else sent_upper c (
          parts.upper_port.push c.upper_interface
            (record m {
              to = m.to ++ (if m.owner == c.id then c.shared_memory_id else m.owner) ∷ [];
            })
            c.cache_cycle data_response)

  -- CacheController::performWriteBack up to its test for data.
  unfoldable pub forward : Controller U L → Message → Controller U L × Message
  unfolding forwarded forget_saved
  forward c m =
      let key = address_key c m.addr in
      let saved = find_all c.saved_requests_for_wb key in
      (
        record c { saved_requests_for_wb = forget_saved c.saved_requests_for_wb key saved },
        forwarded c.copies_deferred_supply c.shared_memory_id m saved,
      )

  unfoldable pub supply_line : Controller U L × Message → Outcome (Controller U L)
  unfolding when_readable send_write_back read_for
  supply_line (c, m) = when_readable c m (write_back m) (send_write_back (read_for c m))

  unfoldable pub perform_write_back : Controller U L → Message → Outcome (Controller U L)
  unfolding forward supply_line
  perform_write_back c m = supply_line (forward c m)

  abbrev pub with_data : Controller U L → Bool × Handler → Outcome (Controller U L)
  with_data c (false, h) = exits
  with_data c (true, h) = ok (record c { data_handler = h; draws = suc c.draws })

  -- `setRequester`, `updateLineData` and `setRequester(-1)`.
  unfoldable pub write_data : Controller U L → Message → List ℕ → Outcome (Controller U L)
  unfolding update_line_data set_array set_requester
  write_data c m bytes =
      let h = c.data_handler in
      let (written, h') =
        update_line_data (parts.draw c.draws) (set_array h (set_requester h.array (some m.owner)))
          m.addr bytes in
      with_data c (written, set_array h' (set_requester h'.array none))

  unfoldable pub write_line_data : Controller U L → Message → Line → Outcome (Controller U L)
  unfolding when_granted write_data
  write_line_data c m line =
      when_granted c m (write_cache_line_data m line) (write_data c m (buffer_of m.payload))

  -- `updateLineBits`, and `writeLine2MSHR` where it finds no line.
  unfoldable pub update_or_allocate : Handler → ℕ → Line → Handler
  unfolding is_address_tracked update_line_bits write_line_to_mshr
  update_or_allocate h address line =
      if is_address_tracked h address
      then update_line_bits h address line
      else write_line_to_mshr h address line

  unfoldable pub update_line : Controller U L → Message → Line → Outcome (Controller U L)
  unfolding update_or_allocate update_line_bits write_line_data
  update_line c m line =
      if not (is_some m.payload)
        || not line.valid
        || ltb m.data_size (2 ^ c.data_handler.array.block_bits)
      then ok (record c { data_handler = update_or_allocate c.data_handler m.addr line })
      else write_line_data (record c { data_handler = update_line_bits c.data_handler m.addr line })
          m line

  abbrev pub modified : Controller U L → ℕ → Option (Bool × Handler) → Outcome (Controller U L)
  modified c msg_id none = exits
  modified c msg_id (some (done, h)) = ok (record c {
    data_handler = h;
    modifying_data_messages = drop_key c.modifying_data_messages msg_id;
  })

  unfoldable pub modify_line : Controller U L → Message → Outcome (Controller U L)
  unfolding modifying modify_line_data
  modify_line c m = elim (modifying m (find c.modifying_data_messages m.msg_id)) [
    | none ↦ ok c
    | some d ↦
        modified c m.msg_id
          (modify_line_data c.data_handler d.addr (buffer_of d.payload) d.data_size false)
  ]

  unfoldable pub save_request_for_write_back : Controller U L → Message → Outcome (Controller U L)
  save_request_for_write_back c m = ok (record c {
    saved_requests_for_wb = push_under c.saved_requests_for_wb (address_key c m.addr) m;
  })

  unfoldable pub stall_request : Controller U L → Message → Outcome (Controller U L)
  unfolding push_back
  stall_request c m =
      let (q, done) = push_back c.processing_queue m non_ready false in
      if done then ok (record c { processing_queue = q }) else exits

  unfoldable pub send_invalidation_message : Controller U L → Message → Outcome (Controller U L)
  send_invalidation_message c m = sent_lower c (
      parts.lower_port.push c.lower_interface (record m { cycle = c.cache_cycle }) c.cache_cycle
        service_request)

  -- `action_functions[action.type](action.data)`.
  unfoldable pub run_action : Controller U L → ControllerAction → Outcome (Controller U L)
  unfolding remove_pending_and_respond hit_line add_to_pending_requests send_bus_request
      perform_write_back update_line write_line_data modify_line save_request_for_write_back
      stall_request send_invalidation_message
  run_action c (remove_pending m) = remove_pending_and_respond c m
  run_action c (hit_action m) = hit_line c m
  run_action c (add_pending m) = add_to_pending_requests c m
  run_action c (send_bus_msg m) = send_bus_request c m
  run_action c (write_back m) = perform_write_back c m
  run_action c (update_cache_line m line) = update_line c m line
  run_action c (write_cache_line_data m line) = write_line_data c m line
  run_action c (modify_data m) = modify_line c m
  run_action c (save_req_for_write_back m) = save_request_for_write_back c m
  run_action c no_action = ok c
  run_action c (stall_action m) = stall_request c m
  run_action c (send_inv_msg m) = send_invalidation_message c m
  run_action c (remove_saved_req m) = exits
  run_action c uninitialised = exits

  unfoldable pub run_actions : Controller U L → List ControllerAction → Outcome (Controller U L)
  unfolding run_action
  run_actions c [] = ok c
  run_actions c (a ∷ rest) = and_run (run_action c a) (λ c'. run_actions c' rest)

-- ===== src/Controller/Keeps.antt =====
-- The action functions and the state that they leave alone: the clock, the waiting accesses and the
-- processing queue change only where an access starts to wait and where a request stalls.
use octopus_simulator.Common.{
  Ends, ended, exited, Ends-and_run, Ends-if, Ends-elim, Outcome, ℕ, suc, inl, inr, Bool, true,
  false, ◌&&◌, Option, none, some, List, [], ◌∷◌, find, ◌==◌, Option-cases,
}
use octopus_simulator.Message.{Message}
use octopus_simulator.Queue.{Buffer, push_back, non_ready}
use octopus_simulator.Cache.Line.{Line}
use octopus_simulator.Cache.Registers.{Handler}
use octopus_simulator.Cache.Accesses.{update_line_bits}
use octopus_simulator.Protocol.Actions.{
  ControllerAction, remove_pending, hit_action, add_pending, send_bus_msg, write_back,
  update_cache_line, write_cache_line_data, modify_data, save_req_for_write_back, no_action,
  stall_action, send_inv_msg, remove_saved_req, uninitialised,
}
use octopus_simulator.Controller.{Controller, DataArrayOp, OpKind, actions_op, Parts}
use octopus_simulator.Controller.Access.{address_key, array_enqueue, is_granted}
use octopus_simulator.Controller.Effects.{
  sent_upper, sent_lower, when_granted, when_readable, respond_each, respond_pending, read_for,
  remove_pending_and_respond, respond_hit, hit_line, add_to_pending_requests, send_bus_request,
  send_write_back, perform_write_back, with_data, write_data, write_line_data, update_line,
  modified, modifying, modify_line, save_request_for_write_back, stall_request,
  send_invalidation_message, run_action, run_actions, forward, supply_line, is_first_destination,
}

-- A bound after an action, and after actions: a stall raises it by one.
abbrev pub after_action : ControllerAction → ℕ → ℕ
after_action (stall_action m) n = suc n
after_action _ n = n

abbrev pub after_actions : List ControllerAction → ℕ → ℕ
after_actions [] n = n
after_actions (a ∷ rest) n = after_actions rest (after_action a n)

module _ {U L : Type 0} (parts : Parts U L) (P : ℕ → ℕ → List DataArrayOp → Buffer → Type 0) where
  abbrev pub Kept : ℕ → Controller U L → Type 0
  Kept n c = P n c.cache_cycle c.array_ops c.processing_queue

  module _
      (waits : (n : ℕ) (c : Controller U L) (kind : OpKind) (m : Message)
          (actions : List ControllerAction)
        → Kept n c
        → Kept n (array_enqueue c kind m actions))
      (stalls : (n cycle : ℕ) (ops : List DataArrayOp) (q : Buffer) (m : Message)
        → P n cycle ops q
        → P (suc n) cycle ops (push_back q m non_ready false).0) where
    sent_lower-keeps :
        (n : ℕ) (c : Controller U L) (r : L × Bool)
        → Kept n c
        → Ends (Kept n) (sent_lower parts c r)
    sent_lower-keeps n c (l, true) h = ended h
    sent_lower-keeps n c (l, false) h = exited

    sent_upper-keeps :
        (n : ℕ) (c : Controller U L) (r : U × Bool)
        → Kept n c
        → Ends (Kept n) (sent_upper parts c r)
    sent_upper-keeps n c (l, true) h = ended h
    sent_upper-keeps n c (l, false) h = exited

    when_granted-keeps :
        (n : ℕ) (c : Controller U L) (m : Message) (a : ControllerAction)
        (rest : Outcome (Controller U L))
        → Kept n c
        → Ends (Kept n) rest
        → Ends (Kept n) (when_granted parts c m a rest)
    unfolding when_granted
    when_granted-keeps n c m a rest h r =
        Ends-if (is_granted c m.addr) r (ended (waits n c actions_op m (a ∷ []) h))

    when_readable-keeps :
        (n : ℕ) (c : Controller U L) (m : Message) (a : ControllerAction)
        (rest : Outcome (Controller U L))
        → Kept n c
        → Ends (Kept n) rest
        → Ends (Kept n) (when_readable parts c m a rest)
    unfolding when_readable
    when_readable-keeps n c m a rest h r =
        Ends-elim m.payload (when_granted-keeps n c m a rest h r) (λ bytes. r)

    read_for-keeps :
        (n : ℕ) (c : Controller U L) (m : Message) → Kept n c → Kept n (read_for parts c m).0
    unfolding read_for
    read_for-keeps n c m h = elim (Option-cases m.payload) [
      | inl e ↦ rw e h
      | inr (bytes, e) ↦ rw e h
    ]

    respond_each-keeps :
        (n : ℕ) (c : Controller U L) (m : Message) (ps : List Message)
        → Kept n c
        → Ends (Kept n) (respond_each parts c m ps)
    unfolding respond_each
    respond_each-keeps n c m [] h = ended h
    respond_each-keeps n c m (p ∷ ps) h =
        Ends-elim m.payload exited
          (λ bytes. Ends-and_run (sent_lower-keeps n c _ h) (λ d k. respond_each-keeps n d m ps k))

    respond_pending-keeps :
        (n : ℕ) (r : Controller U L × Message)
        → Kept n r.0
        → Ends (Kept n) (respond_pending parts r)
    unfolding respond_pending
    respond_pending-keeps n (c, m) h =
        Ends-elim (find c.pending_requests (address_key c m.addr)) exited
          (λ ps. Ends-and_run (respond_each-keeps n c m ps h) (λ d k. ended k))

    with_data-keeps :
        (n : ℕ) (c : Controller U L) (r : Bool × Handler)
        → Kept n c
        → Ends (Kept n) (with_data parts c r)
    with_data-keeps n c (true, l) h = ended h
    with_data-keeps n c (false, l) h = exited

    write_line_data-keeps :
        (n : ℕ) (c : Controller U L) (m : Message) (line : Line)
        → Kept n c
        → Ends (Kept n) (write_line_data parts c m line)
    unfolding write_line_data write_data
    write_line_data-keeps n c m line h = when_granted-keeps n c m _ _ h (with_data-keeps n c _ h)

    modified-keeps :
        (n : ℕ) (c : Controller U L) (id : ℕ) (r : Option (Bool × Handler))
        → Kept n c
        → Ends (Kept n) (modified parts c id r)
    modified-keeps n c id none h = exited
    modified-keeps n c id (some (done, l)) h = ended h

    modify_line-keeps :
        (n : ℕ) (c : Controller U L) (m : Message)
        → Kept n c
        → Ends (Kept n) (modify_line parts c m)
    unfolding modify_line
    modify_line-keeps n c m h =
        Ends-elim (modifying m (find c.modifying_data_messages m.msg_id)) (ended h)
          (λ d. modified-keeps n c _ _ h)

    send_write_back-keeps :
        (n : ℕ) (r : Controller U L × Message)
        → Kept n r.0
        → Ends (Kept n) (send_write_back parts r)
    unfolding send_write_back
    send_write_back-keeps n (c, m) h =
        Ends-if (m.owner == c.id && c.perfect_llc) (ended h) (sent_upper-keeps n c _ h)

    supply_line-keeps :
        (n : ℕ) (r : Controller U L × Message) → Kept n r.0 → Ends (Kept n) (supply_line parts r)
    unfolding supply_line
    supply_line-keeps n (c, m) h =
        when_readable-keeps n c m (write_back m) _ h
          (send_write_back-keeps n (read_for parts c m) (read_for-keeps n c m h))

    perform_write_back-keeps :
        (n : ℕ) (c : Controller U L) (m : Message)
        → Kept n c
        → Ends (Kept n) (perform_write_back parts c m)
    unfolding perform_write_back forward
    perform_write_back-keeps n c m h = supply_line-keeps n (forward parts c m) h

    -- An action keeps what a waiting access and a stall keep; it counts its stalls.
    run_action-keeps :
        (n : ℕ) (c : Controller U L) (a : ControllerAction)
        → Kept n c
        → Ends (Kept (after_action a n)) (run_action parts c a)
    unfolding run_action remove_pending_and_respond hit_line respond_hit add_to_pending_requests
        send_bus_request update_line save_request_for_write_back stall_request
        send_invalidation_message
    run_action-keeps n c (remove_pending m) h =
        when_readable-keeps n c m (remove_pending m) _ h
          (respond_pending-keeps n (read_for parts c m) (read_for-keeps n c m h))
    run_action-keeps n c (hit_action m) h =
        when_readable-keeps n c m (hit_action m) _ h
          (sent_lower-keeps n (read_for parts c m).0 _ (read_for-keeps n c m h))
    run_action-keeps n c (add_pending m) h = ended h
    run_action-keeps n c (send_bus_msg m) h =
        Ends-if (c.perfect_llc && is_first_destination c.shared_memory_id m.to) (ended h)
          (sent_upper-keeps n c _ h)
    run_action-keeps n c (write_back m) h = perform_write_back-keeps n c m h
    run_action-keeps n c (update_cache_line m line) h = Ends-if _ (ended h) (
        write_line_data-keeps n
          (record c { data_handler = update_line_bits c.data_handler m.addr line }) m line h)
    run_action-keeps n c (write_cache_line_data m line) h = write_line_data-keeps n c m line h
    run_action-keeps n c (modify_data m) h = modify_line-keeps n c m h
    run_action-keeps n c (save_req_for_write_back m) h = ended h
    run_action-keeps n c no_action h = ended h
    run_action-keeps n c (stall_action m) h =
        Ends-if (push_back c.processing_queue m non_ready false).1 (ended (stalls n _ _ _ m h))
          exited
    run_action-keeps n c (send_inv_msg m) h = sent_lower-keeps n c _ h
    run_action-keeps n c (remove_saved_req m) h = exited
    run_action-keeps n c uninitialised h = exited

    pub run_actions-keeps :
        (actions : List ControllerAction) (n : ℕ) (c : Controller U L)
        → Kept n c
        → Ends (Kept (after_actions actions n)) (run_actions parts c actions)
    unfolding run_actions
    run_actions-keeps [] n c h = ended h
    run_actions-keeps (a ∷ rest) n c h =
        Ends-and_run (run_action-keeps n c a h)
          (λ d k. run_actions-keeps rest (after_action a n) d k)

-- ===== src/Directory/Agent.antt =====
-- src/CacheControllers/CacheControllerDirectory.cpp: the intake and the action functions that it adds. The
-- address of a message and its owner decide all that an action does to the counters.
use octopus_simulator.Common.{
  Outcome, ok, exits, and_run, ℕ, Bool, false, not, Option, none, some, List, [], ◌∷◌, find, put,
  drop_key, push_under, if◌then◌else◌, is_some,
}
use octopus_simulator.Message.{
  Message, upper_interconnect, lower_interconnect, service_request, is_demand_request,
}
use octopus_simulator.Queue.{ready, non_ready, push_back, push_front}
use octopus_simulator.Cache.Line.{new_line}
use octopus_simulator.Cache.Registers.{Handler}
use octopus_simulator.Cache.Accesses.{read_cache_line}
use octopus_simulator.Controller.{Controller, Parts}
use octopus_simulator.Controller.Access.{address_key}
use octopus_simulator.Controller.Cycle.{check_replacements}
use octopus_simulator.Controller.Effects.{sent_lower, is_destination, run_action}
use octopus_simulator.Directory.{
  DirectoryAction, base, add_data2msg, set_ack_number, decrement_ack, increment_sharers,
  decrement_sharers, set_sharers, clear_sharers, send_fwd_message, remove_pending_noresponse,
  Sharers, AckCounters, set_ack, dec_ack, without_sharer,
}

-- The protocol's answers, which read the counters; `none` is an exit.
pub record DirectoryRules : Type 0 where
  pub is_ready : Sharers → AckCounters → Handler → Message → Bool
  pub process : Sharers → AckCounters → Handler → Message → Option (List DirectoryAction)

pub record Agent (U L : Type 0) : Type 0 where
  pub controller : Controller U L
  pub sharers : Sharers
  pub ack_counters : AckCounters

module _ {U L : Type 0} where
  abbrev pub key_of : Agent U L → Message → ℕ
  key_of a m = address_key a.controller m.addr

  -- setACKNumber and decrementACK.
  unfoldable pub set_ack_of : Agent U L → Message → Agent U L
  unfolding set_ack
  set_ack_of a m = record a { ack_counters = set_ack a.ack_counters (key_of a m) m }

  unfoldable pub decrement_ack_of : Agent U L → Message → Agent U L
  unfolding dec_ack
  decrement_ack_of a m = record a { ack_counters = dec_ack a.ack_counters (key_of a m) }

  unfoldable pub increment_sharers_of : Agent U L → Message → Agent U L
  increment_sharers_of a m = record a { sharers = push_under a.sharers (key_of a m) m.owner }

  unfoldable pub decrement_sharers_of : Agent U L → Message → Agent U L
  unfolding without_sharer
  decrement_sharers_of a m = record a { sharers = without_sharer a.sharers (key_of a m) m.owner }

  unfoldable pub set_sharers_of : Agent U L → Message → Agent U L
  set_sharers_of a m = record a { sharers = put a.sharers (key_of a m) (m.owner ∷ []) }

  unfoldable pub clear_sharers_of : Agent U L → Message → Agent U L
  clear_sharers_of a m = record a { sharers = drop_key a.sharers (key_of a m) }

  -- `readCacheLine`; the message that gets the data is another action's.
  unfoldable pub read_for_message : Agent U L → Message → Agent U L
  unfolding read_cache_line new_line
  read_for_message a m = record a {
    controller = record (a.controller) {
      data_handler = (read_cache_line a.controller.data_handler m.addr (some new_line) false).1;
    };
  }

  abbrev pub with_controller : Agent U L → Controller U L → Outcome (Agent U L)
  with_controller a c = ok (record a { controller = c })

  unfoldable pub remove_pending_silently : Agent U L → Message → Outcome (Agent U L)
  remove_pending_silently a m = elim (find a.controller.pending_requests (key_of a m)) [
    | none ↦ exits
    | some ms ↦ ok (record a {
      controller = record (a.controller) {
        pending_requests = drop_key a.controller.pending_requests (key_of a m);
      };
    })
  ]

module _ {U L : Type 0} (parts : Parts U L) where
  unfoldable pub send_forward_message : Agent U L → Message → List ℕ → Outcome (Agent U L)
  send_forward_message a m [] = ok a
  send_forward_message a m (t ∷ to) =
      let c = a.controller in
      and_run
        (sent_lower parts c (
          parts.lower_port.push c.lower_interface (record m { cycle = c.cache_cycle }) c.cache_cycle
            service_request))
        (with_controller a)

  unfoldable pub run_directory_action : Agent U L → DirectoryAction → Outcome (Agent U L)
  unfolding run_action set_ack_of decrement_ack_of increment_sharers_of decrement_sharers_of
      set_sharers_of clear_sharers_of read_for_message send_forward_message remove_pending_silently
  run_directory_action a (base action) =
      and_run (run_action parts a.controller action) (with_controller a)
  run_directory_action a (add_data2msg m) = ok (read_for_message a m)
  run_directory_action a (set_ack_number m) = ok (set_ack_of a m)
  run_directory_action a (decrement_ack m) = ok (decrement_ack_of a m)
  run_directory_action a (increment_sharers m) = ok (increment_sharers_of a m)
  run_directory_action a (decrement_sharers m) = ok (decrement_sharers_of a m)
  run_directory_action a (set_sharers m) = ok (set_sharers_of a m)
  run_directory_action a (clear_sharers m) = ok (clear_sharers_of a m)
  run_directory_action a (send_fwd_message m) = send_forward_message a m m.to
  run_directory_action a (remove_pending_noresponse m) = remove_pending_silently a m

  unfoldable pub run_directory_actions : Agent U L → List DirectoryAction → Outcome (Agent U L)
  unfolding run_directory_action
  run_directory_actions a [] = ok a
  run_directory_actions a (x ∷ rest) =
      and_run (run_directory_action a x) (λ a'. run_directory_actions a' rest)

  -- The message from above: data go to the front of the queue, and all else is admitted by force.
  unfoldable pub take_upper : DirectoryRules → Agent U L → U → Message → Controller U L
  unfolding push_back push_front is_demand_request
  take_upper rules a u m =
      let c = record (a.controller) { upper_interface = u } in
      let m' = record m { source = upper_interconnect } in
      let state =
        if rules.is_ready a.sharers a.ack_counters c.data_handler m' then ready else non_ready in
      if is_some m'.payload
      then record c {
        upper_interface = parts.upper_port.pop u;
        processing_queue = push_front c.processing_queue m';
      }
      else (let (q, done) = push_back c.processing_queue m' state (not (is_demand_request m')) in
          record c {
            upper_interface = if done then parts.upper_port.pop u else u;
            processing_queue = q;
          })

  -- A message for another node is dropped.
  unfoldable pub directory_intake_upper : DirectoryRules → Agent U L → Controller U L
  unfolding take_upper is_destination
  directory_intake_upper rules a =
      let c = a.controller in
      let (u, found) = parts.upper_port.peek c.upper_interface in
      elim found [
        | none ↦ record c { upper_interface = u }
        | some m ↦
            if is_destination c.id m.to
            then take_upper rules a u m
            else record c { upper_interface = parts.upper_port.pop u }
      ]

  unfoldable pub directory_intake_lower : Controller U L → Controller U L
  unfolding push_back is_demand_request is_destination
  directory_intake_lower c =
      let (l, found) = parts.lower_port.peek c.lower_interface in
      elim found [
        | none ↦ record c { lower_interface = l }
        | some m ↦
            let m' = record m { source = lower_interconnect } in
            let (q, done) =
              push_back c.processing_queue m' non_ready (not (is_demand_request m')) in
            if is_destination c.id m.to
            then record c {
              lower_interface = if done then parts.lower_port.pop l else l;
              processing_queue = q;
            }
            else record c { lower_interface = parts.lower_port.pop l }
      ]

  unfoldable pub directory_add_requests : DirectoryRules → ℕ → Agent U L → Outcome (Agent U L)
  unfolding directory_intake_upper directory_intake_lower check_replacements
  directory_add_requests rules flush a =
      and_run
        (check_replacements parts flush (directory_intake_lower (directory_intake_upper rules a)))
        (with_controller a)

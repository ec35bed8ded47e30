-- ===== src/Controller/Cycle.antt =====
-- src/CacheControllers/BaseController.cpp and CacheController.cpp: a cycle of the controller. The
-- second admission test of `processLogic` is the first one again, on the same state. The two loops have
-- the rounds that are left as their fuel; `flush` is that of an eviction.
use octopus_simulator.Common.{
  Outcome, ok, no_fuel, and_run, ℕ, zero, suc, Bool, true, false, not, Option, none, some, [], ◌∷◌,
  if◌then◌else◌,
}
use octopus_simulator.Message.{
  Message, new_message, upper_interconnect, lower_interconnect, self, evict, is_demand_request,
}
use octopus_simulator.Queue.{
  State, ready, non_ready, push_back, push_front_ordered, get_first_ready,
}
use octopus_simulator.Cache.Array.{update_cycle}
use octopus_simulator.Cache.Registers.{set_array}
use octopus_simulator.Cache.Accesses.{address_of_line_pending_wb}
use octopus_simulator.Controller.{Controller, message_op, Parts}
use octopus_simulator.Controller.Access.{
  pipelined_array, is_held, is_deferred, array_enqueue, can_admit_request,
}
use octopus_simulator.Controller.Fire.{
  run_answer, pipeline_step, pipeline_flush_line, process_data_array_buffer,
}

module _ {U L : Type 0} (parts : Parts U L) where
  unfoldable pub intake_upper : Controller U L → Controller U L
  unfolding push_front_ordered
  intake_upper c =
      let (u, found) = parts.upper_port.peek c.upper_interface in
      elim found [
        | none ↦ record c { upper_interface = u }
        | some m ↦ record c {
          upper_interface = parts.upper_port.pop u;
          processing_queue =
              push_front_ordered c.processing_queue (record m { source = upper_interconnect });
        }
      ]

  unfoldable pub intake_lower : Controller U L → Controller U L
  unfolding push_back is_demand_request
  intake_lower c =
      let (l, found) = parts.lower_port.peek c.lower_interface in
      elim found [
        | none ↦ record c { lower_interface = l }
        | some m ↦
            let m' = record m { source = lower_interconnect } in
            let (q, done) =
              push_back c.processing_queue m' non_ready (not (is_demand_request m')) in
            record c {
              lower_interface = if done then parts.lower_port.pop l else l;
              processing_queue = q;
            }
      ]

  -- The message of `checkReplacements`.
  unfoldable pub eviction : Controller U L → ℕ → Message
  unfolding new_message
  eviction c address = record (new_message c.next_req_id address c.cache_cycle 0 c.id) {
    to = c.shared_memory_id ∷ [];
    source = self;
    kind = evict;
  }

  unfoldable pub check_replacements : ℕ → Controller U L → Outcome (Controller U L)
  unfolding address_of_line_pending_wb eviction push_back pipeline_flush_line
  check_replacements flush c = elim (address_of_line_pending_wb c.data_handler false).0 [
    | none ↦ ok c
    | some address ↦
        pipeline_flush_line parts flush
          (record c {
            next_req_id = suc c.next_req_id;
            processing_queue = (push_back c.processing_queue (eviction c address) non_ready true).0;
            data_handler = (address_of_line_pending_wb c.data_handler true).1;
          })
          address
  ]

  -- `addRequests2ProcessingQueue`.
  unfoldable pub add_requests : ℕ → Controller U L → Outcome (Controller U L)
  unfolding intake_upper intake_lower check_replacements
  add_requests flush c = check_replacements flush (intake_lower (intake_upper c))

  -- The queue's state callback.
  unfoldable pub request_state : Controller U L → Message → State → State
  request_state c m s = if parts.rules.is_request_ready c.data_handler m then ready else non_ready

  -- `getFirstReady` on the processing queue.
  unfoldable pub next_ready : Controller U L → Controller U L × Option Message
  unfolding get_first_ready request_state is_held
  next_ready c =
      let (q, found) = get_first_ready (request_state c) (is_held c) c.processing_queue in
      (record c { processing_queue = q }, found)

  -- A round of the loop of `processLogic` behind `getFirstReady`, and whether the loop goes on.
  unfoldable pub process_message : Controller U L → Message → Outcome (Controller U L × Bool)
  unfolding can_admit_request is_deferred array_enqueue push_back run_answer
  process_message c m =
      if not (can_admit_request c m)
      then ok (
        record c { processing_queue = (push_back c.processing_queue m non_ready false).0 },
        false,
      )
      else if is_deferred parts.rules c m
      then ok (array_enqueue c message_op m [], true)
      else and_run (run_answer parts c (parts.rules.process c.data_handler m)) (λ c'. ok (c', true))

  unfoldable pub process_rounds : ℕ → Controller U L → Outcome (Controller U L)
  unfolding next_ready process_message
  process_rounds zero c = elim (next_ready c).1 [ none ↦ ok (next_ready c).0 | some m ↦ no_fuel ]
  process_rounds (suc n) c = elim (next_ready c).1 [
    | none ↦ ok (next_ready c).0
    | some m ↦
        and_run (process_message (next_ready c).0 m)
          (λ (c', goes_on). elim goes_on [ true ↦ process_rounds n c' | false ↦ ok c' ])
  ]

  unfoldable pub process_logic : ℕ → ℕ → Controller U L → Outcome (Controller U L)
  unfolding add_requests process_rounds
  process_logic flush rounds c = and_run (add_requests flush c) (process_rounds rounds)

  unfoldable pub array_stage : Controller U L → Outcome (Controller U L)
  unfolding pipelined_array pipeline_step process_data_array_buffer
  array_stage c =
      if pipelined_array c then pipeline_step parts c else process_data_array_buffer parts c

  unfoldable pub cycle_process : ℕ → ℕ → Controller U L → Outcome (Controller U L)
  unfolding set_array update_cycle array_stage process_logic
  cycle_process flush rounds c =
      let h = c.data_handler in
      and_run
        (array_stage (record c { data_handler = set_array h (update_cycle h.array c.cache_cycle) }))
        (λ c'.
          and_run (process_logic flush rounds c')
            (λ d. ok (record d { cache_cycle = suc d.cache_cycle })))

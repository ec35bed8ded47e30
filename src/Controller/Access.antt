-- ===== src/Controller/Access.antt =====
-- src/CacheControllers/CacheController.cpp and BaseController.cpp: the data array's schedule, and the
-- tests that decide whether a message may run now.
use octopus_simulator.Common.{
  ℕ, zero, suc, ◌+◌, ◌-◌, Bool, true, false, ◌&&◌, ◌||◌, not, Option, none, some, List, [], ◌∷◌,
  ◌++◌, length, find, ltb, ◌==◌, if◌then◌else◌, is_some,
}
use octopus_simulator.Message.{Message, is_demand_request, is_lower}
use octopus_simulator.Arbiter.{rr_elect, fcfs_elect}
use octopus_simulator.Queue.{at_limit}
use octopus_simulator.Cache.Array.{is_ready}
use octopus_simulator.Cache.Registers.{
  Location, in_mshr, in_pwb, line_location, is_address_tracked, is_ready_for, block_of,
}
use octopus_simulator.Cache.Accesses.{pwb_has_space}
use octopus_simulator.Protocol.Actions.{ControllerAction}
use octopus_simulator.Controller.{
  Controller, DataArrayOp, OpKind, AccessArbiter, no_arbiter, round_robin, first_come, Rules,
}

unfoldable pub first_index {ℓ} : {A : Type ℓ} → (A → Bool) → List A → Option ℕ
first_index p [] = none
first_index p (x ∷ xs) = elim (p x) [
  | true ↦ some 0
  | false ↦ elim (first_index p xs) [ none ↦ none | some i ↦ some (suc i) ]
]

unfoldable pub is_arbitrated : List ℕ → ℕ → Bool
is_arbitrated [] owner = false
is_arbitrated (id ∷ ids) owner = id == owner || is_arbitrated ids owner

-- The copies that the arbiter chooses from.
unfoldable pub array_candidates : List ℕ → List DataArrayOp → List Message
unfolding is_arbitrated
array_candidates ids [] = []
array_candidates ids (op ∷ ops) =
    if not op.admitted && is_arbitrated ids op.msg.owner
    then record op.msg { msg_id = op.op_id } ∷ array_candidates ids ops
    else array_candidates ids ops

abbrev pub is_elected : ℕ → DataArrayOp → Bool
is_elected op_id op = not op.admitted && op.op_id == op_id

abbrev pub is_outside : List ℕ → DataArrayOp → Bool
unfolding is_arbitrated
is_outside ids op = not op.admitted && not (is_arbitrated ids op.msg.owner)

abbrev pub elected_op : List DataArrayOp → Option (Message × List (List Message)) → Option ℕ
unfolding first_index
elected_op ops none = none
elected_op ops (some (m, rest)) = first_index (is_elected m.msg_id) ops

-- The arbiter's election; it is not asked when there is no candidate.
unfoldable pub ask_arbiter :
    AccessArbiter → List DataArrayOp → List Message → AccessArbiter × Option ℕ
unfolding rr_elect fcfs_elect first_index
ask_arbiter a ops [] = (a, none)
ask_arbiter no_arbiter ops (m ∷ ms) = (no_arbiter, none)
ask_arbiter (round_robin a) ops (m ∷ ms) =
    let (a', won) = rr_elect a ((m ∷ ms) ∷ []) in (round_robin a', elected_op ops won)
ask_arbiter first_come ops (m ∷ ms) = (first_come, elected_op ops (fcfs_elect ((m ∷ ms) ∷ [])))

abbrev pub or_oldest : List ℕ → List DataArrayOp → Option ℕ → Option ℕ
unfolding first_index is_arbitrated
or_oldest ids ops none = first_index (is_outside ids) ops
or_oldest ids ops (some i) = some i

-- `arrayElect`, with the arbiter after the election.
unfoldable pub array_elect : AccessArbiter → List ℕ → List DataArrayOp → AccessArbiter × Option ℕ
unfolding first_index ask_arbiter array_candidates is_arbitrated
array_elect no_arbiter ids ops =
    (no_arbiter, first_index (λ (op : DataArrayOp). not op.admitted) ops)
array_elect a ids ops =
    let (a', won) = ask_arbiter a ops (array_candidates ids ops) in (a', or_oldest ids ops won)

abbrev pub admit_op : ℕ → DataArrayOp → DataArrayOp
admit_op ready_cycle op = record op { admitted = true; ready_cycle = ready_cycle }

unfoldable pub admit_at : ℕ → List DataArrayOp → ℕ → List DataArrayOp
admit_at ready_cycle [] i = []
admit_at ready_cycle (op ∷ ops) zero = admit_op ready_cycle op ∷ ops
admit_at ready_cycle (op ∷ ops) (suc i) = op ∷ admit_at ready_cycle ops i

abbrev pub is_buffered : Location → Bool
is_buffered in_mshr = true
is_buffered in_pwb = true
is_buffered _ = false

abbrev pub is_in_pwb : Location → Bool
is_in_pwb in_pwb = true
is_in_pwb _ = false

module _ {U L : Type 0} where
  abbrev pub address_key : Controller U L → ℕ → ℕ
  address_key c address = block_of c.data_handler address

  unfoldable pub pipelined_array : Controller U L → Bool
  pipelined_array c =
      c.data_handler.array.pipelined && ltb 0 c.data_handler.array.data_access_latency

  abbrev pub is_on_line : Controller U L → ℕ → DataArrayOp → Bool
  is_on_line c key op = address_key c op.msg.addr == key

  unfoldable pub is_any_on_line : Controller U L → ℕ → List DataArrayOp → Bool
  is_any_on_line c key [] = false
  is_any_on_line c key (op ∷ ops) = is_on_line c key op || is_any_on_line c key ops

  unfoldable pub line_has_deferred_op : Controller U L → ℕ → Bool
  unfolding is_any_on_line
  line_has_deferred_op c address = is_any_on_line c (address_key c address) c.array_ops

  -- The hold of the processing queue.
  unfoldable pub is_held : Controller U L → Message → Bool
  unfolding line_has_deferred_op
  is_held c m = c.line_interlock && line_has_deferred_op c m.addr

  -- The rounds of `arrayAdmit` that the ports leave.
  unfoldable pub admit_rounds : ℕ → Controller U L → Controller U L
  unfolding array_elect admit_at
  admit_rounds zero c = c
  admit_rounds (suc n) c =
      let (a, won) = array_elect c.arbiter c.arbiter_candidates c.array_ops in
      elim won [
        | none ↦ record c { arbiter = a }
        | some i ↦ admit_rounds n (record c {
          arbiter = a;
          array_ops =
              admit_at (c.cache_cycle + c.data_handler.array.data_access_latency) c.array_ops i;
          array_admitted_this_cycle = suc c.array_admitted_this_cycle;
        })
      ]

  unfoldable pub array_admit : Controller U L → Controller U L
  unfolding admit_rounds
  array_admit c = admit_rounds (c.data_array_ports - c.array_admitted_this_cycle) c

  -- The start of `pipelineStep`.
  unfoldable pub admitted_now : Controller U L → Controller U L
  unfolding array_admit
  admitted_now c = array_admit (record c { array_admitted_this_cycle = 0 })

  -- The access that `arrayEnqueue` appends.
  abbrev pub waiting_op : Controller U L → OpKind → Message → List ControllerAction → DataArrayOp
  waiting_op c kind m actions = record {
    kind = kind;
    msg = m;
    actions = actions;
    op_id = suc c.array_op_seq;
    admitted = false;
    ready_cycle = 0;
  }

  abbrev pub queued : Controller U L → OpKind → Message → List ControllerAction → Controller U L
  queued c kind m actions = record c {
    array_op_seq = suc c.array_op_seq;
    array_ops = c.array_ops ++ waiting_op c kind m actions ∷ [];
  }

  -- `arrayEnqueue` of an access of that kind.
  unfoldable pub array_enqueue :
      Controller U L → OpKind → Message → List ControllerAction → Controller U L
  unfolding pipelined_array array_admit
  array_enqueue c kind m actions =
      if pipelined_array c then array_admit (queued c kind m actions) else queued c kind m actions

  -- Whether `checkReadinessOfCache` lets the access run at once.
  unfoldable pub is_granted : Controller U L → ℕ → Bool
  unfolding pipelined_array line_location is_ready_for
  is_granted c address =
      if pipelined_array c
      then c.pipe_firing || is_buffered (line_location c.data_handler address)
      else is_ready_for c.data_handler address

  -- `canAdmitRequest`.
  unfoldable pub can_admit_request : Controller U L → Message → Bool
  unfolding is_demand_request is_address_tracked
  can_admit_request c m =
      not (is_demand_request m)
      || is_address_tracked c.data_handler m.addr
      || is_some (find c.pending_requests (address_key c m.addr))
      || not (at_limit c.num_mshr (length c.pending_requests))

  -- `demandAdmissionBlocked`; `m_processing_queue_size` is the queue's maximal size.
  unfoldable pub demand_admission_blocked : Controller U L → ℕ → Bool
  unfolding pwb_has_space
  demand_admission_blocked c outstanding =
      at_limit c.processing_queue.max_size outstanding
      || at_limit c.num_mshr (length c.pending_requests)
      || not (pwb_has_space c.data_handler)

  unfoldable pub message_touches_array : Rules → Controller U L → Message → Bool
  unfolding pipelined_array
  message_touches_array rules c m =
      rules.needs_array c.data_handler m
      || (pipelined_array c
          && (is_some m.payload
              && not (
                  is_lower m.source && (m.complementary_value == 0 || m.complementary_value == 1))))

  -- Whether `deferForDataArray` takes the message off the queue.
  unfoldable pub is_deferred : Rules → Controller U L → Message → Bool
  unfolding pipelined_array message_touches_array line_location is_ready
  is_deferred rules c m =
      if pipelined_array c
      then not (is_in_pwb (line_location c.data_handler m.addr)) && message_touches_array rules c m
      else c.line_interlock
        && not (c.data_handler.array.data_access_latency == 0)
        && not (is_ready c.data_handler.array)
        && rules.needs_array c.data_handler m

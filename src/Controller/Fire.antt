-- ===== src/Controller/Fire.antt =====
-- src/CacheControllers/CacheController.cpp: the accesses that waited for the data array run. A loop
-- that takes accesses off the list has the rounds that are left as its fuel.
use octopus_simulator.Common.{
  Outcome, ok, exits, no_fuel, and_run, ℕ, zero, suc, Bool, true, false, ◌&&◌, Option, none, some,
  List, [], ◌∷◌, length, leb, if◌then◌else◌, and_then,
}
use octopus_simulator.Message.{Message}
use octopus_simulator.Queue.{push_back, non_ready, mark_dirty}
use octopus_simulator.Cache.Array.{is_ready}
use octopus_simulator.Protocol.Actions.{ControllerAction}
use octopus_simulator.Controller.{Controller, DataArrayOp, OpKind, message_op, actions_op, Parts}
use octopus_simulator.Controller.Access.{address_key, is_on_line, array_elect, admitted_now}
use octopus_simulator.Controller.Effects.{run_actions}

-- The first access with `p`, and the list without it.
unfoldable pub take_first :
    (DataArrayOp → Bool) → List DataArrayOp → Option (DataArrayOp × List DataArrayOp)
take_first p [] = none
take_first p (op ∷ ops) = elim (p op) [
  | true ↦ some (op, ops)
  | false ↦ and_then (take_first p ops) (λ (o, rest). some (o, op ∷ rest))
]

-- The access at an index, and the list without it.
unfoldable pub take_op : List DataArrayOp → ℕ → Option (DataArrayOp × List DataArrayOp)
take_op [] i = none
take_op (op ∷ ops) zero = some (op, ops)
take_op (op ∷ ops) (suc i) = and_then (take_op ops i) (λ (o, rest). some (o, op ∷ rest))

-- The array is free of the access in the round's latency.
abbrev pub is_due : ℕ → DataArrayOp → Bool
is_due cycle op = op.admitted && leb op.ready_cycle cycle

module _ {U L : Type 0} (parts : Parts U L) where
  -- What a protocol answers is run; `none` is its exit.
  unfoldable pub run_answer :
      Controller U L → Option (List ControllerAction) → Outcome (Controller U L)
  unfolding run_actions
  run_answer c none = exits
  run_answer c (some actions) = run_actions parts c actions

  -- `m_processing_queue->pushBack(op.msg, NonReady, true)`.
  unfoldable pub requeue : Controller U L → Message → Controller U L
  unfolding push_back
  requeue c m = record c { processing_queue = (push_back c.processing_queue m non_ready true).0 }

  unfoldable pub fire_message : Controller U L → Message → Outcome (Controller U L)
  unfolding requeue run_answer
  fire_message c m =
      if parts.rules.is_request_ready c.data_handler m
      then run_answer c (parts.rules.process c.data_handler m)
      else ok (requeue c m)

  unfoldable pub fire_kind : Controller U L → DataArrayOp → OpKind → Outcome (Controller U L)
  unfolding fire_message run_actions
  fire_kind c op message_op = fire_message c op.msg
  fire_kind c op actions_op = run_actions parts c op.actions

  unfoldable pub pipeline_fire : Controller U L → DataArrayOp → Outcome (Controller U L)
  unfolding fire_kind mark_dirty
  pipeline_fire c op = and_run (fire_kind (record c { pipe_firing = true }) op op.kind) (λ c'.
      ok (record c' {
        pipe_firing = c.pipe_firing;
        processing_queue = mark_dirty c'.processing_queue;
      }))

  -- The loops of `pipelineStep` and `pipelineFlushLine`: the first access with `p` runs, until there is
  -- none.
  unfoldable pub fire_all : (DataArrayOp → Bool) → ℕ → Controller U L → Outcome (Controller U L)
  unfolding take_first pipeline_fire
  fire_all p zero c = elim (take_first p c.array_ops) [ none ↦ ok c | some taken ↦ no_fuel ]
  fire_all p (suc n) c = elim (take_first p c.array_ops) [
    | none ↦ ok c
    | some (op, ops) ↦ and_run (pipeline_fire (record c { array_ops = ops }) op) (fire_all p n)
  ]

  unfoldable pub pipeline_step : Controller U L → Outcome (Controller U L)
  unfolding admitted_now fire_all
  pipeline_step c =
      fire_all (is_due c.cache_cycle) (length (admitted_now c).array_ops) (admitted_now c)

  unfoldable pub pipeline_flush_line : ℕ → Controller U L → ℕ → Outcome (Controller U L)
  unfolding fire_all
  pipeline_flush_line fuel c address = fire_all (is_on_line c (address_key c address)) fuel c

  unfoldable pub process_data_array_buffer : Controller U L → Outcome (Controller U L)
  unfolding is_ready array_elect take_op pipeline_fire
  process_data_array_buffer c =
      if is_ready c.data_handler.array
      then (let (a, won) = array_elect c.arbiter c.arbiter_candidates c.array_ops in
          elim (and_then won (take_op c.array_ops)) [
            | none ↦ ok (record c { arbiter = a })
            | some (op, ops) ↦ pipeline_fire (record c { arbiter = a; array_ops = ops }) op
          ])
      else ok c

-- ===== src/Controller/Due.antt =====
-- CacheController::pipelineStep: its loop comes to an end. An access that starts to wait in this cycle
-- is not due in it.
use octopus_simulator.Common.{
  ok, no_fuel, and_run, Ends, ended, exited, Ends-and_run, Ends-if, if_keeps, Ends-weaken,
  option_keeps, ℕ, zero, suc, ◌+◌, ◌≤◌, ◌<◌, ◌≡◌, refl, sym, ap, subst, inl, inr, Bool, true, false,
  Option, none, some, List, [], ◌∷◌, ◌++◌, length, leb, ltb→lt, if◌then◌else◌, and_then, Bool-cases,
  arith,
}
use octopus_simulator.Message.{Message}
use octopus_simulator.Queue.{Buffer}
use octopus_simulator.Protocol.Actions.{ControllerAction}
use octopus_simulator.Controller.{Controller, DataArrayOp, OpKind, message_op, actions_op, Parts}
use octopus_simulator.Controller.Access.{
  pipelined_array, array_elect, admit_at, admit_rounds, array_admit, array_enqueue, admitted_now,
  waiting_op,
}
use octopus_simulator.Controller.Effects.{run_actions}
use octopus_simulator.Controller.Fire.{
  take_first, is_due, run_answer, requeue, fire_message, fire_kind, pipeline_fire, fire_all,
  pipeline_step,
}
use octopus_simulator.Controller.Keeps.{run_actions-keeps}

-- How many accesses have `p`.
unfoldable pub count : (DataArrayOp → Bool) → List DataArrayOp → ℕ
count p [] = 0
count p (op ∷ ops) = count p ops + (if p op then 1 else 0)

count-length : (p : DataArrayOp → Bool) (ops : List DataArrayOp) → count p ops ≤ length ops
unfolding count
count-length p [] = omega arith
count-length p (op ∷ ops) = elim (Bool-cases (p op)) [
  | inl e ↦ rw e (omega (arith, count-length p ops))
  | inr e ↦ rw e (omega (arith, count-length p ops))
]

count-append :
    (p : DataArrayOp → Bool) (ops : List DataArrayOp) (op : DataArrayOp)
    → p op ≡ false
    → count p (ops ++ op ∷ []) ≡ count p ops
unfolding count
count-append p [] op e = rw e refl
count-append p (o ∷ ops) op e = ap (λ n. n + (if p o then 1 else 0)) (count-append p ops op e)

-- What `take_first` leaves, by its result.
abbrev Taken :
    (DataArrayOp → Bool) → List DataArrayOp → Option (DataArrayOp × List DataArrayOp) → Type 0
Taken p ops none = count p ops ≡ 0
Taken p ops (some (op, rest)) = count p ops ≡ suc (count p rest)

Taken-step :
    (p : DataArrayOp → Bool) (op : DataArrayOp) (ops : List DataArrayOp)
    (r : Option (DataArrayOp × List DataArrayOp))
    → p op ≡ false
    → Taken p ops r
    → Taken p (op ∷ ops) (and_then r (λ (o, rest). some (o, op ∷ rest)))
unfolding count
Taken-step p op ops none e h = rw e (omega (arith, h))
Taken-step p op ops (some (o, rest)) e h = rw e (omega (arith, h))

take_first-Taken :
    (p : DataArrayOp → Bool) (ops : List DataArrayOp) → Taken p ops (take_first p ops)
unfolding take_first count
take_first-Taken p [] = refl
take_first-Taken p (op ∷ ops) = elim (Bool-cases (p op)) [
  | inl e ↦ subst Goal (sym e) (rw e (omega arith))
  | inr e ↦ subst Goal (sym e) (Taken-step p op ops (take_first p ops) e (take_first-Taken p ops))
]
  where
    Goal : Bool → Type 0
    Goal b = Taken p (op ∷ ops) (elim b [
      | true ↦ some (op, ops)
      | false ↦ and_then (take_first p ops) (λ (o, rest). some (o, op ∷ rest))
    ])

-- An admitted access that is not due counts no more than before.
count-admit_at :
    (cycle t : ℕ) (ops : List DataArrayOp) (i : ℕ)
    → cycle < t
    → count (is_due cycle) (admit_at t ops i) ≤ count (is_due cycle) ops
unfolding count admit_at
count-admit_at cycle t [] i h = omega arith
count-admit_at cycle t (op ∷ ops) zero h = rw (late cycle t h) (omega arith)
  where
    late : (a b : ℕ) → a < b → leb b a ≡ false
    late a b h = ground arith
count-admit_at cycle t (op ∷ ops) (suc i) h = omega (arith, count-admit_at cycle t ops i h)

-- At most `k` accesses are due, and it is cycle `t`.
abbrev pub DueAtMost : ℕ → ℕ → ℕ → ℕ → List DataArrayOp → Buffer → Type 0
DueAtMost t k n cycle ops q = (cycle ≡ t) × (count (is_due t) ops ≤ k)

module _ {U L : Type 0} where
  abbrev Calm : ℕ → ℕ → Controller U L → Type 0
  Calm t k c = DueAtMost t k 0 c.cache_cycle c.array_ops c.processing_queue

  latency_positive :
      (c : Controller U L) → pipelined_array c ≡ true → 0 < c.data_handler.array.data_access_latency
  unfolding pipelined_array
  latency_positive c e = elim (Bool-cases c.data_handler.array.pipelined) [
    | inl f ↦ ltb→lt _ _ (rw f at e)
    | inr f ↦ cc
  ]

  admit_rounds-Calm :
      (n t k : ℕ) (c : Controller U L)
      → 0 < c.data_handler.array.data_access_latency
      → Calm t k c
      → Calm t k (admit_rounds n c)
  unfolding admit_rounds
  admit_rounds-Calm zero t k c l h = h
  admit_rounds-Calm (suc n) t k c l (h, g) =
      option_keeps (Calm t k) (array_elect c.arbiter c.arbiter_candidates c.array_ops).1 (h, g)
        (λ i. admit_rounds-Calm n t k _ l (h, omega (arith, g, admitted i)))
    where
      admitted :
          (i : ℕ)
          → count
              (is_due t)
              (admit_at (c.cache_cycle + c.data_handler.array.data_access_latency) c.array_ops i)
            ≤ count (is_due t) c.array_ops
      admitted i = count-admit_at t _ c.array_ops i (omega (arith, h, l))

  array_enqueue-Calm :
      (t k n : ℕ) (c : Controller U L) (kind : OpKind) (m : Message)
      (actions : List ControllerAction)
      → Calm t k c
      → Calm t k (array_enqueue c kind m actions)
  unfolding array_enqueue array_admit
  array_enqueue-Calm t k n c kind m actions (h, g) =
      if_keeps (Calm t k) (pipelined_array c)
        (λ e. admit_rounds-Calm _ t k _ (latency_positive c e) (h, waits)) (λ e. (h, waits))
    where
      waits : count (is_due t) (c.array_ops ++ waiting_op c kind m actions ∷ []) ≤ k
      waits = rw (count-append (is_due t) c.array_ops (waiting_op c kind m actions) refl) g

  module _ (parts : Parts U L) where
    run_actions-Calm :
        (t k : ℕ) (c : Controller U L) (actions : List ControllerAction)
        → Calm t k c
        → Ends (Calm t k) (run_actions parts c actions)
    run_actions-Calm t k c actions h =
        run_actions-keeps parts (DueAtMost t k) (array_enqueue-Calm t k) (λ n cycle ops q m g. g)
          actions 0 c h

    run_answer-Calm :
        (t k : ℕ) (c : Controller U L) (r : Option (List ControllerAction))
        → Calm t k c
        → Ends (Calm t k) (run_answer parts c r)
    unfolding run_answer
    run_answer-Calm t k c none h = exited
    run_answer-Calm t k c (some actions) h = run_actions-Calm t k c actions h

    fire_message-Calm :
        (t k : ℕ) (c : Controller U L) (m : Message)
        → Calm t k c
        → Ends (Calm t k) (fire_message parts c m)
    unfolding fire_message requeue
    fire_message-Calm t k c m h =
        Ends-if (parts.rules.is_request_ready c.data_handler m)
          (run_answer-Calm t k c (parts.rules.process c.data_handler m) h)
          (ended {a = requeue parts c m} h)

    fire_kind-Calm :
        (t k : ℕ) (c : Controller U L) (op : DataArrayOp) (kind : OpKind)
        → Calm t k c
        → Ends (Calm t k) (fire_kind parts c op kind)
    unfolding fire_kind
    fire_kind-Calm t k c op message_op h = fire_message-Calm t k c op.msg h
    fire_kind-Calm t k c op actions_op h = run_actions-Calm t k c op.actions h

    pipeline_fire-Calm :
        (t k : ℕ) (c : Controller U L) (op : DataArrayOp)
        → Calm t k c
        → Ends (Calm t k) (pipeline_fire parts c op)
    unfolding pipeline_fire
    pipeline_fire-Calm t k c op h =
        Ends-and_run (fire_kind-Calm t k (record c { pipe_firing = true }) op op.kind h)
          (λ d g. ended g)

    -- The loop of `pipelineStep` ends within as many rounds as accesses are due, and then none is.
    fire_all-Ends :
        (n t : ℕ) (c : Controller U L)
        → Calm t n c
        → Ends (Calm t 0) (fire_all parts (is_due t) n c)
    unfolding fire_all
    fire_all-Ends zero t c (h, g) =
        fire_last (take_first (is_due t) c.array_ops) (take_first-Taken (is_due t) c.array_ops)
      where
        fire_last :
            (r : Option (DataArrayOp × List DataArrayOp))
            → Taken (is_due t) c.array_ops r
            → Ends (Calm t 0) (elim r [ none ↦ ok c | some taken ↦ no_fuel ])
        fire_last none e = ended (h, omega (arith, e))
        fire_last (some (op, ops)) e = absurd (omega (arith, e, g))
    fire_all-Ends (suc n) t c (h, g) =
        fire_next (take_first (is_due t) c.array_ops) (take_first-Taken (is_due t) c.array_ops)
          (λ d k. fire_all-Ends n t d k)
      where
        fire_next :
            (r : Option (DataArrayOp × List DataArrayOp))
            → Taken (is_due t) c.array_ops r
            → ((d : Controller U L) → Calm t n d → Ends (Calm t 0) (fire_all parts (is_due t) n d))
            → Ends (Calm t 0) (elim r [
              | none ↦ ok c
              | some (op, ops) ↦
                  and_run
                    (pipeline_fire parts (record c { array_ops = ops }) op)
                    (fire_all parts (is_due t) n)
            ])
        fire_next none e rest = ended (h, omega (arith, e))
        fire_next (some (op, ops)) e rest =
            Ends-and_run
              (pipeline_fire-Calm t n (record c { array_ops = ops }) op (h, omega (arith, e, g)))
              rest

    -- If the data array is pipelined, then the step of the pipeline never runs out of its fuel, the number of
    -- accesses that wait: it exits, or it ends in the cycle in which it began, with no access due.
    pub pipeline_step-Ends :
        (c : Controller U L)
        → pipelined_array c ≡ true
        → Ends
            (λ d. (d.cache_cycle ≡ c.cache_cycle) × (count (is_due c.cache_cycle) d.array_ops ≡ 0))
            (pipeline_step parts c)
    unfolding pipeline_step admitted_now array_admit
    pipeline_step-Ends c e =
        Ends-weaken (λ d (h, g). (h, omega (arith, g)))
          (fire_all-Ends _ c.cache_cycle (admitted_now c)
            (same_cycle, count-length (is_due c.cache_cycle) (admitted_now c).array_ops))
      where
        same_cycle : (admitted_now c).cache_cycle ≡ c.cache_cycle
        same_cycle =
            (admit_rounds-Calm _ c.cache_cycle (count (is_due c.cache_cycle) c.array_ops)
              (record c { array_admitted_this_cycle = 0 }) (latency_positive c e)
              (refl, omega arith)).0

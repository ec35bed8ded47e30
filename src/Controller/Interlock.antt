-- ===== src/Controller/Interlock.antt =====
-- CacheController: the address interlock. The queue's hold keeps a message back while an access to its
-- line waits for the data array.
use octopus_simulator.Common.{
  Ends, ended, if_keeps, option_keeps, ℕ, zero, suc, ◌+◌, ◌-◌, ◌≡◌, refl, ap, ◌∙◌, inl, inr, Bool,
  true, false, some, List, [], ◌∷◌, ◌++◌, if◌then◌else◌, eq→==, Bool-cases, arith,
}
use octopus_simulator.Message.{Message}
use octopus_simulator.Queue.Order.{get_first_ready-Handed}
use octopus_simulator.Protocol.Actions.{ControllerAction}
use octopus_simulator.Controller.{Controller, DataArrayOp, OpKind, message_op, Parts}
use octopus_simulator.Controller.Access.{
  pipelined_array, array_elect, admit_at, admit_op, admit_rounds, array_admit, array_enqueue,
  queued, waiting_op, address_key, is_on_line, is_any_on_line, line_has_deferred_op, is_held,
  is_deferred, can_admit_request,
}
use octopus_simulator.Controller.Cycle.{request_state, next_ready, process_message}
use octopus_simulator.Controller.Due.{count}

count-admit_at_same :
    (p : DataArrayOp → Bool) (t : ℕ) (ops : List DataArrayOp) (i : ℕ)
    → ((op : DataArrayOp) → p (admit_op t op) ≡ p op)
    → count p (admit_at t ops i) ≡ count p ops
unfolding count admit_at
count-admit_at_same p t [] i h = refl
count-admit_at_same p t (op ∷ ops) zero h = ap (λ b. count p ops + (if b then 1 else 0)) (h op)
count-admit_at_same p t (op ∷ ops) (suc i) h =
    ap (λ n. n + (if p op then 1 else 0)) (count-admit_at_same p t ops i h)

count-append_one :
    (p : DataArrayOp → Bool) (ops : List DataArrayOp) (op : DataArrayOp)
    → count p ops ≡ 0
    → p op ≡ true
    → count p (ops ++ op ∷ []) ≡ 1
unfolding count
count-append_one p [] op z e = rw e refl
count-append_one p (o ∷ ops) op z e =
    omega (arith, z, count-append_one p ops op (omega (arith, z)) e)

module _ {U L : Type 0} where
  count-is_any :
      (c : Controller U L) (key : ℕ) (ops : List DataArrayOp)
      → is_any_on_line c key ops ≡ false
      → count (is_on_line c key) ops ≡ 0
  unfolding count is_any_on_line
  count-is_any c key [] h = refl
  count-is_any c key (op ∷ ops) h = elim (Bool-cases (is_on_line c key op)) [
    | inl e ↦ cc
    | inr e ↦ rw e (omega (arith, count-is_any c key ops (rw e at h)))
  ]

  -- The accesses on a line, of the controller's own list.
  abbrev pub on_line : ℕ → Controller U L → ℕ
  on_line key c = count (is_on_line c key) c.array_ops

  admit_rounds-on_line :
      (n key : ℕ) (c : Controller U L) → on_line key (admit_rounds n c) ≡ on_line key c
  unfolding admit_rounds
  admit_rounds-on_line zero key c = refl
  admit_rounds-on_line (suc n) key c =
      option_keeps (λ d. on_line key d ≡ on_line key c)
        (array_elect c.arbiter c.arbiter_candidates c.array_ops).1 refl
        (λ i.
          admit_rounds-on_line n key (record c {
            arbiter = (array_elect c.arbiter c.arbiter_candidates c.array_ops).0;
            array_ops =
                admit_at (c.cache_cycle + c.data_handler.array.data_access_latency) c.array_ops i;
            array_admitted_this_cycle = suc c.array_admitted_this_cycle;
          })
          ∙ count-admit_at_same (is_on_line c key) _ c.array_ops i (λ op. refl))

  array_enqueue-on_line :
      (c : Controller U L) (kind : OpKind) (m : Message) (actions : List ControllerAction)
      → line_has_deferred_op c m.addr ≡ false
      → on_line (address_key c m.addr) (array_enqueue c kind m actions) ≡ 1
  unfolding array_enqueue array_admit line_has_deferred_op
  array_enqueue-on_line c kind m actions h =
      if_keeps (λ d. on_line (address_key c m.addr) d ≡ 1) (pipelined_array c)
        (λ e.
          admit_rounds-on_line (c.data_array_ports - c.array_admitted_this_cycle)
            (address_key c m.addr) (queued c kind m actions)
          ∙ alone)
        (λ e. alone)
    where
      alone : on_line (address_key c m.addr) (queued c kind m actions) ≡ 1
      alone =
          count-append_one (is_on_line c (address_key c m.addr)) c.array_ops
            (waiting_op c kind m actions) (count-is_any c (address_key c m.addr) c.array_ops h)
            (eq→== _ _ refl)

  module _ (parts : Parts U L) (c : Controller U L) (m : Message)
      (handed : (next_ready parts c).1 ≡ some m) (interlock : c.line_interlock ≡ true) where
    -- With the line interlock, a message that the queue hands out has no access on its line that waits for
    -- the data array or is in it.
    pub next_ready-free : line_has_deferred_op c m.addr ≡ false
    unfolding next_ready is_held
    next_ready-free =
        rw interlock at
          (get_first_ready-Handed (request_state parts c) (is_held c) c.processing_queue m handed).5

    -- With the line interlock, if a message that the queue hands out is admitted and waits for the data
    -- array, then the loop of `processLogic` goes on, and the message is the only access on its line.
    pub process_message-alone :
        can_admit_request (next_ready parts c).0 m ≡ true
        → is_deferred parts.rules (next_ready parts c).0 m ≡ true
        → Ends
            (λ (r : Controller U L × Bool). (r.1 ≡ true) × (on_line (address_key c m.addr) r.0 ≡ 1))
            (process_message parts (next_ready parts c).0 m)
    unfolding next_ready process_message
    process_message-alone a b =
        rw (a, b)
          (ended
            (refl, array_enqueue-on_line (next_ready parts c).0 message_op m [] next_ready-free))

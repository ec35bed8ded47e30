-- ===== src/Controller/Rounds.antt =====
-- BaseController::processLogic: its loop comes to an end.
use octopus_simulator.Common.{
  ok, no_fuel, and_run, Ends, ended, exited, Ends-and_run, Ends-weaken, if_keeps, option_keeps, ℕ,
  zero, suc, ◌+◌, ◌-◌, ◌≤◌, ◌≡◌, ◌⊎◌, refl, inl, inr, Bool, true, false, not, Option, none, some,
  List, [], ◌∷◌, if◌then◌else◌, arith,
}
use octopus_simulator.Message.{Message}
use octopus_simulator.Queue.{Buffer, push_back, non_ready}
use octopus_simulator.Cache.Registers.{Handler}
use octopus_simulator.Protocol.Actions.{
  ControllerAction, remove_pending, hit_action, add_pending, send_bus_msg, write_back,
  update_cache_line, write_cache_line_data, modify_data, save_req_for_write_back, no_action,
  stall_action, send_inv_msg, remove_saved_req, uninitialised,
}
use octopus_simulator.Controller.{Controller, DataArrayOp, OpKind, message_op, Rules, Parts}
use octopus_simulator.Controller.Access.{
  pipelined_array, array_elect, admit_rounds, array_admit, array_enqueue, queued, is_held,
  is_deferred, can_admit_request,
}
use octopus_simulator.Controller.Fire.{run_answer}
use octopus_simulator.Controller.Cycle.{request_state, next_ready, process_message, process_rounds}
use octopus_simulator.Controller.Keeps.{after_actions, run_actions-keeps}
use octopus_simulator.Controller.Weight.{weight, weight-push_back, Popped, get_first_ready-Popped}

after_actions-add :
    (actions : List ControllerAction) (n : ℕ)
    → after_actions actions n ≡ n + after_actions actions 0
after_actions-add [] n = omega arith
after_actions-add (stall_action m ∷ rest) n =
    omega (arith, after_actions-add rest (suc n), after_actions-add rest 1)
after_actions-add (remove_pending m ∷ rest) n = after_actions-add rest n
after_actions-add (hit_action m ∷ rest) n = after_actions-add rest n
after_actions-add (add_pending m ∷ rest) n = after_actions-add rest n
after_actions-add (send_bus_msg m ∷ rest) n = after_actions-add rest n
after_actions-add (write_back m ∷ rest) n = after_actions-add rest n
after_actions-add (update_cache_line m line ∷ rest) n = after_actions-add rest n
after_actions-add (write_cache_line_data m line ∷ rest) n = after_actions-add rest n
after_actions-add (modify_data m ∷ rest) n = after_actions-add rest n
after_actions-add (save_req_for_write_back m ∷ rest) n = after_actions-add rest n
after_actions-add (no_action ∷ rest) n = after_actions-add rest n
after_actions-add (send_inv_msg m ∷ rest) n = after_actions-add rest n
after_actions-add (remove_saved_req m ∷ rest) n = after_actions-add rest n
after_actions-add (uninitialised ∷ rest) n = after_actions-add rest n

-- A protocol answers with one stall at most, and with none to a message that is ready.
abbrev pub IsFirm : Rules → Type 0
IsFirm rules =
    (h : Handler) (m : Message) (actions : List ControllerAction)
    → rules.process h m ≡ some actions
    → (after_actions actions 0 ≤ 1)
      × (rules.is_request_ready h m ≡ true → after_actions actions 0 ≡ 0)

abbrev LighterThan : ℕ → ℕ → List DataArrayOp → Buffer → Type 0
LighterThan n cycle ops q = weight q.elements ≤ n

module _ {U L : Type 0} where
  abbrev IsLight : ℕ → Controller U L → Type 0
  IsLight n c = weight c.processing_queue.elements ≤ n

  admit_rounds-IsLight : (k n : ℕ) (c : Controller U L) → IsLight n c → IsLight n (admit_rounds k c)
  unfolding admit_rounds
  admit_rounds-IsLight zero n c h = h
  admit_rounds-IsLight (suc k) n c h =
      option_keeps (IsLight n) (array_elect c.arbiter c.arbiter_candidates c.array_ops).1 h
        (λ i. admit_rounds-IsLight k n _ h)

  array_enqueue-IsLight :
      (n : ℕ) (c : Controller U L) (kind : OpKind) (m : Message) (actions : List ControllerAction)
      → IsLight n c
      → IsLight n (array_enqueue c kind m actions)
  unfolding array_enqueue array_admit
  array_enqueue-IsLight n c kind m actions h =
      if_keeps (IsLight n) (pipelined_array c)
        (λ e.
          admit_rounds-IsLight (c.data_array_ports - c.array_admitted_this_cycle) n
            (queued c kind m actions) h)
        (λ e. h)

  module _ (parts : Parts U L) where
    -- The loop stops at `d` because the queue hands nothing out, or because it has handed out a message
    -- that is not admitted, which goes back.
    abbrev pub Drained : Controller U L → Type 0
    Drained d = (c : Controller U L) × (next_ready parts c ≡ (d, none))

    abbrev pub TurnedAway : Controller U L → Type 0
    TurnedAway d =
        (c : Controller U L) × (m : Message) × (can_admit_request c m ≡ false)
        × (d ≡ record c { processing_queue = (push_back c.processing_queue m non_ready false).0 })

  module _ (parts : Parts U L) (firm : IsFirm parts.rules) where
    -- A message that was ready now stalls not at all, another one once at most.
    run_answer-IsLight :
        (n : ℕ) (c : Controller U L) (m : Message) (r : Option (List ControllerAction))
        → parts.rules.process c.data_handler m ≡ r
        → Popped
            (parts.rules.is_request_ready c.data_handler)
            (suc n)
            (some m)
            c.processing_queue.elements
        → Ends (IsLight n) (run_answer parts c r)
    unfolding run_answer
    run_answer-IsLight n c m none e h = exited
    run_answer-IsLight n c m (some actions) e h =
        Ends-weaken (λ d g. omega (arith, g, fits h))
          (run_actions-keeps parts LighterThan array_enqueue-IsLight
            (λ k cycle ops q a g. omega (arith, weight-push_back q a, g)) actions
            (weight c.processing_queue.elements) c (omega arith))
      where
        fits :
            Popped
              (parts.rules.is_request_ready c.data_handler)
              (suc n)
              (some m)
              c.processing_queue.elements
            → after_actions actions (weight c.processing_queue.elements) ≤ n
        fits (inl g) = omega (
          arith,
          g,
          after_actions-add actions (weight c.processing_queue.elements),
          (firm c.data_handler m actions e).0,
        )
        fits (inr (f, g)) = omega (
          arith,
          g,
          after_actions-add actions (weight c.processing_queue.elements),
          (firm c.data_handler m actions e).1 f,
        )

    abbrev Lightened : ℕ → Controller U L × Bool → Type 0
    Lightened n r = if r.1 then IsLight n r.0 else IsLight (suc n) r.0 × TurnedAway parts r.0

    process_message-Lightened :
        (n : ℕ) (c : Controller U L) (m : Message)
        → Popped
            (parts.rules.is_request_ready c.data_handler)
            (suc n)
            (some m)
            c.processing_queue.elements
        → Ends (Lightened n) (process_message parts c m)
    unfolding process_message
    process_message-Lightened n c m h =
        if_keeps (Ends (Lightened n)) (not (can_admit_request c m))
          (λ e. ended (
            omega (arith, weight-push_back c.processing_queue m, popped h),
            (c, m, not_true (can_admit_request c m) e, refl),
          ))
          (λ e.
            if_keeps (Ends (Lightened n)) (is_deferred parts.rules c m)
              (λ f. ended (array_enqueue-IsLight n c message_op m [] (popped h)))
              (λ f. Ends-and_run (run_answer-IsLight n c m _ refl h) (λ d k. ended k)))
      where
        not_true : (b : Bool) → not b ≡ true → b ≡ false
        not_true true q = cc
        not_true false q = refl

        popped :
            Popped
              (parts.rules.is_request_ready c.data_handler)
              (suc n)
              (some m)
              c.processing_queue.elements
            → IsLight n c
        popped (inl g) = omega (arith, g)
        popped (inr (f, g)) = omega (arith, g)

    abbrev PoppedFrom : ℕ → Controller U L × Option Message → Type 0
    PoppedFrom w r =
        Popped (parts.rules.is_request_ready r.0.data_handler) w r.1 r.0.processing_queue.elements

    next_ready-Popped :
        (c : Controller U L) → PoppedFrom (weight c.processing_queue.elements) (next_ready parts c)
    unfolding next_ready request_state
    next_ready-Popped c =
        get_first_ready-Popped (parts.rules.is_request_ready c.data_handler) (is_held c)
          c.processing_queue

    PoppedFrom-weaken :
        (w n : ℕ) (r : Controller U L × Option Message) → w ≤ n → PoppedFrom w r → PoppedFrom n r
    PoppedFrom-weaken w n (d, none) h g = omega (arith, h, g)
    PoppedFrom-weaken w n (d, some m) h (inl g) = inl (omega (arith, h, g))
    PoppedFrom-weaken w n (d, some m) h (inr (f, g)) = inr (f, omega (arith, h, g))

    abbrev Stopped : ℕ → Controller U L → Type 0
    Stopped n d = IsLight n d × (Drained parts d ⊎ TurnedAway parts d)

    -- If the protocol answers every message with one stall at most, and a message that it calls ready with
    -- none, then the loop of `processLogic` never runs out of rounds when it has two for each
    -- message that the queue holds as ready and one for each other: it exits, or it ends with a
    -- queue that is no heavier, because the queue hands nothing out or because a message that it
    -- handed out is not admitted.
    pub process_rounds-Ends :
        (n : ℕ) (c : Controller U L)
        → weight c.processing_queue.elements ≤ n
        → Ends
            (λ d. (weight d.processing_queue.elements ≤ n) × (Drained parts d ⊎ TurnedAway parts d))
            (process_rounds parts n c)
    unfolding process_rounds
    process_rounds-Ends zero c h =
        last (next_ready parts c) refl
          (PoppedFrom-weaken _ zero (next_ready parts c) h (next_ready-Popped c))
      where
        last :
            (r : Controller U L × Option Message)
            → next_ready parts c ≡ r
            → PoppedFrom zero r
            → Ends (Stopped zero) (elim r.1 [ none ↦ ok r.0 | some m ↦ no_fuel ])
        last (d, none) e g = ended (g, inl (c, e))
        last (d, some m) e (inl g) = absurd (omega (arith, g))
        last (d, some m) e (inr (f, g)) = absurd (omega (arith, g))
    process_rounds-Ends (suc n) c h =
        round (next_ready parts c) refl
          (PoppedFrom-weaken _ (suc n) (next_ready parts c) h (next_ready-Popped c))
          (λ d k. process_rounds-Ends n d k)
      where
        go_on :
            (d : Controller U L) (goes_on : Bool)
            → Lightened n (d, goes_on)
            → ((e : Controller U L) → IsLight n e → Ends (Stopped n) (process_rounds parts n e))
            → Ends
                (Stopped (suc n))
                (elim goes_on [ true ↦ process_rounds parts n d | false ↦ ok d ])
        go_on d true k rest = Ends-weaken (λ e (g, s). (omega (arith, g), s)) (rest d k)
        go_on d false (k, t) rest = ended (k, inr t)

        round :
            (r : Controller U L × Option Message)
            → next_ready parts c ≡ r
            → PoppedFrom (suc n) r
            → ((e : Controller U L) → IsLight n e → Ends (Stopped n) (process_rounds parts n e))
            → Ends (Stopped (suc n)) (elim r.1 [
              | none ↦ ok r.0
              | some m ↦ and_run (process_message parts r.0 m) (λ (c', goes_on). elim goes_on [
                | true ↦ process_rounds parts n c'
                | false ↦ ok c'
              ])
            ])
        round (d, none) e g rest = ended (g, inl (c, e))
        round (d, some m) e g rest =
            Ends-and_run (process_message-Lightened n d m g)
              (λ (x, goes_on) k. go_on x goes_on k rest)

-- ===== src/Bus/Unified/Drop.antt =====
-- UnifiedBusController: what becomes of a request when its broadcast is refused, or when the request
-- part of the slot is one cycle long.
use octopus_simulator.Common.{
  ℕ, suc, ◌+◌, ◌≡◌, ◌≢◌, ◌<◌, refl, ap, ◌∙◌, ◌⊎◌, inl, inr, true, false, Option, none, some, List,
  [], ◌∷◌, All, arith, ◌==◌, and_then,
}
use octopus_simulator.Message.{Message, request, is_demand_request}
use octopus_simulator.Arbiter.{Arbiter}
use octopus_simulator.Bus.{BusInterface, broadcast, tx_responses, with_tx_responses}
use octopus_simulator.Bus.Delivery.{HasSpace, broadcast-atomic}
use octopus_simulator.Bus.Split.{force_elect}
use octopus_simulator.Bus.Unified.{
  UnifiedBus, take_response, broadcast_held, next_clk, slot_action, unified_bus_step,
}
use native.Mathlib.Nat.{mod-eq_of_lt}

-- The slot after the request has had its broadcast.
abbrev pub past_request : UnifiedBus → UnifiedBus
past_request b = record b { clk_in_slot = b.request_latency }

refused :
    (b : UnifiedBus) (m : Message)
    → is_demand_request m ≡ true
    → (All HasSpace b.interfaces → ⊥)
    → (broadcast b.interfaces m request).0 ≡ b.interfaces
refused b m d s = elim (broadcast-atomic b.interfaces m) [
  | inl (e, _, _) ↦ ap (λ p. p.0) e
  | inr (_, inl n) ↦ cc
  | inr (_, inr h) ↦ absurd (s h)
]

next_clk_held :
    (b : UnifiedBus) (m : Message)
    → b.held ≡ some m
    → b.clk_in_slot + 1 ≡ b.request_latency
    → 0 < b.response_latency
    → next_clk b b.held ≡ past_request b
next_clk_held b m h e r =
    ap (next_clk b) h
    ∙ unfold next_clk in ap (λ k. record b { clk_in_slot = k }) (mod-eq_of_lt (omega arith) ∙ e)

broadcast_part :
    (b : UnifiedBus) (cycle : ℕ)
    → b.clk_in_slot ≢ 0
    → b.clk_in_slot + 1 ≡ b.request_latency
    → slot_action b cycle ≡ some (broadcast_held b b.held)
unfolding slot_action
broadcast_part b cycle n e = rw (skip, last)
  where
    skip : (b.clk_in_slot == 0) ≡ false
    skip = ground arith

    last : (b.clk_in_slot + 1 == b.request_latency) ≡ true
    last = ground arith

response_part :
    (b : UnifiedBus) (cycle : ℕ)
    → 0 < b.request_latency
    → b.clk_in_slot ≡ b.request_latency
    → slot_action b cycle
      ≡ some
          (take_response b (force_elect b.arbiter_type b.arbiter cycle (tx_responses b.interfaces)))
unfolding slot_action
response_part b cycle n e = rw (skip, early, now)
  where
    skip : (b.clk_in_slot == 0) ≡ false
    skip = ground arith

    early : (b.clk_in_slot + 1 == b.request_latency) ≡ false
    early = ground arith

    now : (b.clk_in_slot == b.request_latency) ≡ true
    now = ground arith

broadcast_refused :
    (b : UnifiedBus) (m : Message)
    → b.held ≡ some m
    → is_demand_request m ≡ true
    → (All HasSpace b.interfaces → ⊥)
    → broadcast_held b b.held ≡ b
broadcast_refused b m h d s =
    ap (broadcast_held b) h
    ∙ unfold broadcast_held in ap (λ is. record b { interfaces = is }) (refused b m d s)

step_refused :
    (b : UnifiedBus) (m : Message) (cycle : ℕ)
    → b.held ≡ some m
    → b.clk_in_slot ≢ 0
    → b.clk_in_slot + 1 ≡ b.request_latency
    → 0 < b.response_latency
    → is_demand_request m ≡ true
    → (All HasSpace b.interfaces → ⊥)
    → unified_bus_step b cycle ≡ some (past_request b)
step_refused b m cycle h n e r d s =
    unfold unified_bus_step in
    ap (λ x. and_then x (λ b'. some (next_clk b' b'.held)))
      (broadcast_part b cycle n e ∙ ap some (broadcast_refused b m h d s))
    ∙ ap some (next_clk_held b m h e r)

-- No message that a sender still has to send, or that a receiver has got, is lost or won.
abbrev pub SameRequests : List BusInterface → List BusInterface → Type 0
SameRequests [] [] = Unit
SameRequests (i ∷ is) [] = ⊥
SameRequests [] (j ∷ js) = ⊥
SameRequests (i ∷ is) (j ∷ js) =
    (i.tx_request ≡ j.tx_request) × (i.rx_request ≡ j.rx_request) × SameRequests is js

SameRequests-refl : (is : List BusInterface) → SameRequests is is
SameRequests-refl [] = tt
SameRequests-refl (i ∷ is) = (refl, refl, SameRequests-refl is)

with_tx_responses-SameRequests :
    (is : List BusInterface) (bs : List (List Message)) → SameRequests (with_tx_responses is bs) is
unfolding with_tx_responses
with_tx_responses-SameRequests [] bs = tt
with_tx_responses-SameRequests (i ∷ is) [] = SameRequests-refl (i ∷ is)
with_tx_responses-SameRequests (i ∷ is) (b ∷ bs) =
    (refl, refl, with_tx_responses-SameRequests is bs)

-- The bus after a response election `won`: its requests are those of `b`, and it holds no request.
abbrev pub OnlyResponse : UnifiedBus → Option (Message × List (List Message)) → UnifiedBus → Type 0
OnlyResponse b won b' =
    SameRequests b'.interfaces b.interfaces
    × (((won ≡ none) × (b'.held ≡ none))
        ⊎ ((r : Message) × (rest : List (List Message)) × (won ≡ some (r, rest))
            × (b'.held ≡ some r)))

take_response-OnlyResponse :
    (b : UnifiedBus) (x : Arbiter × Option (Message × List (List Message)))
    → OnlyResponse b x.1 (next_clk (take_response b x) (take_response b x).held)
unfolding take_response next_clk
take_response-OnlyResponse b (a, none) = (SameRequests-refl b.interfaces, inl (refl, refl))
take_response-OnlyResponse b (a, some (r, rest)) =
    (with_tx_responses-SameRequests b.interfaces rest, inr (r, rest, refl, refl))

-- A demand request that some receiver has no space for at the end of the request part of its slot is
-- lost: two steps later no sender's and no receiver's request buffer has changed, and what the bus
-- holds, if anything, is a response elected from the response buffers.
pub unified_bus_step-drops :
    (b : UnifiedBus) (m : Message) (cycle : ℕ)
    → b.held ≡ some m
    → b.clk_in_slot ≢ 0
    → b.clk_in_slot + 1 ≡ b.request_latency
    → 0 < b.response_latency
    → is_demand_request m ≡ true
    → (All HasSpace b.interfaces → ⊥)
    → (b' : UnifiedBus) × (and_then (unified_bus_step b cycle) (λ x. unified_bus_step x (suc cycle))
        ≡ some b')
      × OnlyResponse b
          (force_elect b.arbiter_type b.arbiter (suc cycle) (tx_responses b.interfaces)).1
          b'
unified_bus_step-drops b m cycle h n e r d s = (
  next_clk taken taken.held,
  ap (λ x. and_then x (λ y. unified_bus_step y (suc cycle))) (step_refused b m cycle h n e r d s)
      ∙ unfold unified_bus_step in
        ap (λ x. and_then x (λ b'. some (next_clk b' b'.held)))
          (response_part (past_request b) (suc cycle) (omega arith) refl),
  take_response-OnlyResponse (past_request b) won,
)
  where
    won : Arbiter × Option (Message × List (List Message))
    won = force_elect b.arbiter_type b.arbiter (suc cycle) (tx_responses b.interfaces)

    taken : UnifiedBus
    taken = take_response (past_request b) won

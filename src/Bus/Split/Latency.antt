-- ===== src/Bus/Split/Latency.antt =====
-- SplitBusController: the time from the election of a request to its delivery.
use octopus_simulator.Common.{
  ℕ, zero, suc, ◌+◌, ◌≡◌, ◌≢◌, ap, sym, ◌∙◌, ◌⊎◌, inl, inr, false, none, some, List, [], ◌∷◌, ◌++◌,
  map, All, refl, arith,
}
use octopus_simulator.Message.{Message, is_demand_request}
use octopus_simulator.Bus.{BusInterface}
use octopus_simulator.Bus.Delivery.{delivered, HasSpace}
use octopus_simulator.Bus.Split.{SplitBus, Slot, response_backpressured, request_bus_step, bus_step}
use octopus_simulator.Bus.Split.Held.{broadcasted, waited, request_bus_step-HeldStep}
use octopus_simulator.Bus.Split.Beside.{rx_requests, bus_step-Beside}

-- Nothing stands in the way of the delivery of `m`.
abbrev IsFree : SplitBus → Message → Type 0
IsFree b m =
    (response_backpressured b.response_reserve b.interfaces ≡ false)
    × ((is_demand_request m ≡ false) ⊎ All HasSpace b.interfaces)

-- Consecutive cycles of the bus without back-pressure at their starts, while the senders and receivers do
-- nothing: the number of cycles, the bus and the cycle at the start, and the bus at the end.
pub data SmoothRun : ℕ → SplitBus → ℕ → SplitBus → Type 0 where
  ended_run : {b : SplitBus} {cycle : ℕ} → SmoothRun zero b cycle b
  then_cycle :
      {n : ℕ} {b b' c : SplitBus} {cycle : ℕ}
      → response_backpressured b.response_reserve b.interfaces ≡ false
      → bus_step b cycle ≡ some b'
      → SmoothRun n b' (suc cycle) c
      → SmoothRun (suc n) b cycle c

step_waits :
    (b : SplitBus) (m : Message) (cycle : ℕ)
    → b.request_slot.held ≡ some m
    → IsFree b m
    → b.request_slot.clk_in_slot + 1 ≢ b.request_slot.latency
    → request_bus_step b cycle ≡ waited b
step_waits b m cycle h (p, inl d) n = elim (request_bus_step-HeldStep b m cycle h) [
  | inl (e, inl q) ↦ cc
  | inl (e, inr (q, s)) ↦ cc
  | inr (inl (e, _)) ↦ e
  | inr (inr (_, e, _)) ↦ absurd (n e)
]
step_waits b m cycle h (p, inr d) n = elim (request_bus_step-HeldStep b m cycle h) [
  | inl (e, inl q) ↦ cc
  | inl (e, inr (q, s)) ↦ absurd (s d)
  | inr (inl (e, _)) ↦ e
  | inr (inr (_, e, _)) ↦ absurd (n e)
]

step_delivers :
    (b : SplitBus) (m : Message) (cycle : ℕ)
    → b.request_slot.held ≡ some m
    → IsFree b m
    → b.request_slot.clk_in_slot + 1 ≡ b.request_slot.latency
    → request_bus_step b cycle ≡ broadcasted b m
step_delivers b m cycle h (p, inl d) n = elim (request_bus_step-HeldStep b m cycle h) [
  | inl (e, inl q) ↦ cc
  | inl (e, inr (q, s)) ↦ cc
  | inr (inl (_, e)) ↦ absurd (e n)
  | inr (inr (e, _, _)) ↦ e
]
step_delivers b m cycle h (p, inr d) n = elim (request_bus_step-HeldStep b m cycle h) [
  | inl (e, inl q) ↦ cc
  | inl (e, inr (q, s)) ↦ absurd (s d)
  | inr (inl (_, e)) ↦ absurd (e n)
  | inr (inr (e, _, _)) ↦ e
]

abbrev pub freed : Slot → Slot
freed s = record s { held = none; clk_in_slot = 0 }

-- A request bus that holds `m` is left, after the step, with `m` delivered.
abbrev pub Delivered : Message → SplitBus → SplitBus → Type 0
Delivered m b c =
    (c.request_slot ≡ freed b.request_slot)
    × (rx_requests c.interfaces
        ≡ map (λ (q : List Message). q ++ m ∷ []) (rx_requests b.interfaces))

rx_requests-delivered :
    (m : Message) (is : List BusInterface)
    → rx_requests (map (delivered m) is) ≡ map (λ (q : List Message). q ++ m ∷ []) (rx_requests is)
rx_requests-delivered m [] = refl
rx_requests-delivered m (i ∷ is) =
    ap (λ l. (i.rx_request ++ m ∷ []) ∷ l) (rx_requests-delivered m is)

still_free :
    (m : Message) (is js : List BusInterface)
    → (is_demand_request m ≡ false) ⊎ All HasSpace is
    → (All HasSpace is → All HasSpace js)
    → (is_demand_request m ≡ false) ⊎ All HasSpace js
still_free m is js (inl d) k = inl d
still_free m is js (inr s) k = inr (k s)

-- Over `n + 1` consecutive cycles of the bus, requests and responses, with no back-pressure at the start of
-- any: a message that the request bus holds at their start with `n + 1` cycles of its slot left, and
-- that is no demand request or finds space at every receiver then, stands at the end of every
-- receiver's request buffer after them, nothing else has come to these buffers, and the slot is free.
pub bus_step-delivers :
    (n : ℕ) (b c : SplitBus) (m : Message) (cycle : ℕ)
    → b.request_slot.held ≡ some m
    → (is_demand_request m ≡ false) ⊎ All HasSpace b.interfaces
    → b.request_slot.clk_in_slot + suc n ≡ b.request_slot.latency
    → SmoothRun (suc n) b cycle c
    → Delivered m b c
bus_step-delivers zero b c m cycle h f l (then_cycle p e ended_run) =
    let kept =
      bus_step-Beside b c (broadcasted b m) cycle (step_delivers b m cycle h (p, f) (omega arith))
        e in
    (kept.0, kept.1.0 ∙ rx_requests-delivered m b.interfaces)
bus_step-delivers (suc n) b c m cycle h f l (then_cycle {b' = b'} p e r) =
    let kept =
      bus_step-Beside b b' (waited b) cycle (step_waits b m cycle h (p, f) (omega arith)) e in
    let later =
      bus_step-delivers n b' c m (suc cycle) (ap (λ s. s.held) (kept.0) ∙ h)
        (still_free m b.interfaces b'.interfaces f (kept.1.1))
        (ap (λ s. s.clk_in_slot + suc n) (kept.0)
          ∙ omega arith
          ∙ sym (ap (λ s. s.latency) (kept.0)))
        r in
    (later.0 ∙ ap freed (kept.0), later.1 ∙ ap (map (λ (q : List Message). q ++ m ∷ [])) (kept.1.0))

-- ===== src/Bus/Split/Held.antt =====
-- SplitBusController: an elected request is held until every receiver has it.
use octopus_simulator.Common.{
  ℕ, ◌+◌, ◌≡◌, ◌≢◌, refl, ap, sym, ◌∙◌, ◌⊎◌, inl, inr, Bool, true, false, not, ◌&&◌, Option, none,
  some, List, map, All, arith, is_some, Bool-cases, subst, if◌then◌else◌, ◌==◌,
}
use octopus_simulator.Message.{Message, is_demand_request}
use octopus_simulator.Arbiter.{Arbiter}
use octopus_simulator.Bus.{tx_requests, with_tx_requests}
use octopus_simulator.Bus.Delivery.{delivered, HasSpace, broadcast-atomic}
use octopus_simulator.Bus.Split.{
  SplitBus, Slot, response_backpressured, elect_into, advance_request, request_bus_step, won_into,
  elect, ArbiterType, put_requests,
}

-- The bus after it has delivered `m`.
abbrev pub broadcasted : SplitBus → Message → SplitBus
broadcasted b m = record b {
  interfaces = map (delivered m) b.interfaces;
  request_slot = record (b.request_slot) { held = none; clk_in_slot = 0 };
}

-- The bus one cycle on in its slot.
abbrev pub waited : SplitBus → SplitBus
waited b = record b {
  request_slot = record (b.request_slot) { clk_in_slot = b.request_slot.clk_in_slot + 1 };
}

-- What a step of the request bus may do while it holds `m`.
abbrev pub HeldStep : SplitBus → Message → SplitBus → Type 0
HeldStep b m b' =
    ((b' ≡ b)
      × ((response_backpressured b.response_reserve b.interfaces ≡ true)
          ⊎ ((is_demand_request m ≡ true) × (All HasSpace b.interfaces → ⊥))))
    ⊎ (((b' ≡ waited b) × (b.request_slot.clk_in_slot + 1 ≢ b.request_slot.latency))
        ⊎ ((b' ≡ broadcasted b m)
            × (b.request_slot.clk_in_slot + 1 ≡ b.request_slot.latency)
            × ((is_demand_request m ≡ false) ⊎ All HasSpace b.interfaces)))

advance-HeldStep : (b : SplitBus) (m : Message) → HeldStep b m (advance_request (some m) b)
unfolding advance_request
advance-HeldStep b m =
    elim (Bool-cases (b.request_slot.clk_in_slot + 1 == b.request_slot.latency)) [
      | inr n ↦ inr (inl (rw n, ground arith))
      | inl e ↦ elim (broadcast-atomic b.interfaces m) [
        | inl (f, d, s) ↦ inl (rw (e, f), inr (d, s))
        | inr (f, s) ↦ inr (inr (rw (e, f), ground arith, s))
      ]
    ]

elect_into_held :
    (b : SplitBus) (m : Message) (cycle : ℕ) (buffers : List (List Message))
    → b.request_slot.held ≡ some m
    → elect_into b.arbiter_type cycle b.request_slot buffers ≡ (b.request_slot, none)
unfolding elect_into
elect_into_held b m cycle buffers h = ground arith

pub request_bus_step_held :
    (b : SplitBus) (m : Message) (cycle : ℕ)
    → response_backpressured b.response_reserve b.interfaces ≡ false
    → b.request_slot.held ≡ some m
    → request_bus_step b cycle ≡ advance_request (some m) b
unfolding request_bus_step
request_bus_step_held b m cycle p h =
    rw (p, elect_into_held b m cycle (tx_requests b.interfaces) h) (ap (λ x. advance_request x b) h)

-- While the request bus holds a message, a step elects no other one. It either leaves the bus as it
-- is (because a response buffer is within its reserve, or a demand request finds a receiver
-- without space), or moves one cycle on in the slot, or at the end of the slot puts the message at
-- the end of every receiver's request buffer and frees the slot. The message is never dropped.
pub request_bus_step-HeldStep :
    (b : SplitBus) (m : Message) (cycle : ℕ)
    → b.request_slot.held ≡ some m
    → HeldStep b m (request_bus_step b cycle)
unfolding request_bus_step
request_bus_step-HeldStep b m cycle h =
    elim (Bool-cases (response_backpressured b.response_reserve b.interfaces)) [
      | inl p ↦ inl (unfold request_bus_step in rw p, inl p)
      | inr p ↦
          subst (HeldStep b m) (sym (request_bus_step_held b m cycle p h)) (advance-HeldStep b m)
    ]

-- The outcomes `b'` of a step that asks the arbiter, by the arbiter's answer.
abbrev pub ElectedStep :
    SplitBus → Arbiter × Option (Message × List (List Message)) → SplitBus → Type 0
ElectedStep b (a, won) b' =
    ((won ≡ none)
      × (b' ≡ record b { request_slot = record (b.request_slot) { arbiter = a; clk_in_slot = 0 } }))
    ⊎ ((m : Message) × (rest : List (List Message)) × (won ≡ some (m, rest))
        × (b'
            ≡ advance_request (some m) (record b {
              interfaces = with_tx_requests b.interfaces rest;
              request_slot = record (b.request_slot) { arbiter = a; held = some m };
            })))

abbrev finish : SplitBus → Slot × Option (List (List Message)) → SplitBus
finish b (s, rest) =
    advance_request s.held
      (record b { interfaces = put_requests b.interfaces rest; request_slot = s })

finish-ElectedStep :
    (b : SplitBus) (x : Arbiter × Option (Message × List (List Message)))
    → b.request_slot.held ≡ none
    → ElectedStep b x (finish b (won_into b.request_slot x))
unfolding won_into
finish-ElectedStep b (a, none) h = inl (
  refl,
  ap (λ y. advance_request y (record b { request_slot = record (b.request_slot) { arbiter = a } }))
        h
      ∙ unfold advance_request in refl,
)
finish-ElectedStep b (a, some (m, rest)) h = inr (m, rest, refl, refl)

elect_into_idle :
    (type : ArbiterType) (cycle : ℕ) (s : Slot) (buffers : List (List Message))
    → s.held ≡ none
    → s.clk_in_slot ≡ 0
    → elect_into type cycle s buffers ≡ won_into s (elect type s.arbiter cycle buffers)
unfolding elect_into
elect_into_idle type cycle s buffers h c =
    idle (s.clk_in_slot == 0) (is_some s.held) (ground arith) (ground arith)
  where
    idle :
        (x y : Bool)
        → x ≡ true
        → y ≡ false
        → (if x && not y then won_into s (elect type s.arbiter cycle buffers) else (s, none))
          ≡ won_into s (elect type s.arbiter cycle buffers)
    idle x y e f = rw (e, f)

-- At the start of a slot with no message held and no back-pressure, the step asks the arbiter. If it
-- elects nothing, no buffer changes; if it elects a message, that message leaves its sender's buffer
-- and goes through the rest of the step as the held one, so that a latency of 1 delivers it at once.
request_bus_step-ElectedStep :
    (b : SplitBus) (cycle : ℕ)
    → response_backpressured b.response_reserve b.interfaces ≡ false
    → b.request_slot.held ≡ none
    → b.request_slot.clk_in_slot ≡ 0
    → ElectedStep b
        (elect b.arbiter_type b.request_slot.arbiter cycle (tx_requests b.interfaces))
        (request_bus_step b cycle)
request_bus_step-ElectedStep b cycle p h c =
    subst (ElectedStep b won) (sym step) (finish-ElectedStep b won h)
  where
    won : Arbiter × Option (Message × List (List Message))
    won = elect b.arbiter_type b.request_slot.arbiter cycle (tx_requests b.interfaces)

    asks :
        request_bus_step b cycle
        ≡ finish b (elect_into b.arbiter_type cycle b.request_slot (tx_requests b.interfaces))
    asks = unfold request_bus_step in rw p

    step : request_bus_step b cycle ≡ finish b (won_into b.request_slot won)
    step =
        asks
        ∙ ap (finish b)
            (elect_into_idle b.arbiter_type cycle b.request_slot (tx_requests b.interfaces) h c)

-- ===== src/Bus/Direct.antt =====
-- src/Interconnect/DirectController.cpp: two interfaces joined back to back.
use octopus_simulator.Common.{
  ◌≡◌, ◌≤◌, refl, ap, sym, subst, ◌∙◌, ◌⊎◌, inl, inr, Bool, true, false, List, [], ◌∷◌, ◌++◌,
  length, arith, if◌then◌else◌, Bool-cases, leb, ◌&&◌,
}
use octopus_simulator.Message.{Message, request, data_response, is_demand_request}
use octopus_simulator.Bus.{BusInterface, push_message_to_rx}

-- The lower interface, which is the first of the two, and the upper one.
pub record Pair : Type 0 where
  pub lower : BusInterface
  pub upper : BusInterface

abbrev pub swap : Pair → Pair
swap p = record { lower = p.upper; upper = p.lower }

-- `send` of the first of the requests `ms` of `p.lower`, and the erase if it went.
unfoldable pub forward_request : List Message → Pair → Pair × Bool
unfolding push_message_to_rx
forward_request [] p = (p, false)
forward_request (m ∷ ms) p =
    let (upper', done) = push_message_to_rx p.upper m request in
    if done
    then (record { lower = record (p.lower) { tx_request = ms }; upper = upper' }, true)
    else (p, false)

unfoldable pub forward_response : List Message → Pair → Pair × Bool
unfolding push_message_to_rx
forward_response [] p = (p, false)
forward_response (m ∷ ms) p =
    let (upper', done) = push_message_to_rx p.upper m data_response in
    if done
    then (record { lower = record (p.lower) { tx_response = ms }; upper = upper' }, true)
    else (p, false)

-- The two loops of `controllerStep`: the lower side first, and one message at most.
unfoldable pub request_loop : Pair → Pair
unfolding forward_request
request_loop p =
    let (p', done) = forward_request p.lower.tx_request p in
    if done then p' else swap (forward_request p.upper.tx_request (swap p)).0

unfoldable pub response_loop : Pair → Pair
unfolding forward_response
response_loop p =
    let (p', done) = forward_response p.lower.tx_response p in
    if done then p' else swap (forward_response p.upper.tx_response (swap p)).0

unfoldable pub controller_step : Pair → Pair
unfolding request_loop response_loop
controller_step p = response_loop (request_loop p)

-- The first request of the lower side is at the end of the upper side's receive buffer.
abbrev pub RequestMoved : Pair → Pair → Type 0
RequestMoved p p' =
    (m : Message) × (ms : List Message) × (p.lower.tx_request ≡ m ∷ ms)
    × (p'.lower ≡ record (p.lower) { tx_request = ms })
    × (p'.upper ≡ record (p.upper) { rx_request = p.upper.rx_request ++ m ∷ [] })

-- There is no request on the lower side, or the upper side has no space for the first one.
abbrev pub RequestStuck : Pair → Type 0
RequestStuck p =
    (p.lower.tx_request ≡ [])
    ⊎ ((m : Message) × (ms : List Message) × (p.lower.tx_request ≡ m ∷ ms)
        × (is_demand_request m ≡ true)
        × (p.upper.max_size ≤ length p.upper.rx_request))

forward_request-cases :
    (ms : List Message) (p : Pair)
    → p.lower.tx_request ≡ ms
    → (((forward_request ms p).1 ≡ true) × RequestMoved p (forward_request ms p).0)
      ⊎ ((forward_request ms p ≡ (p, false)) × RequestStuck p)
unfolding forward_request
forward_request-cases [] p e = inr (refl, inl e)
forward_request-cases (m ∷ ms) p e =
    elim (Bool-cases (is_demand_request m && leb p.upper.max_size (length p.upper.rx_request))) [
      | inl f ↦ inr (rw f, inr (m, ms, e, ground arith, ground arith))
      | inr f ↦ inl (rw f, (m, ms, e, rw f, rw f))
    ]

-- A step of the direct link first moves one request: the lower side's, if it has one that the upper
-- side takes, and otherwise the upper side's, if the lower side takes it. No request is lost.
request_loop-moves :
    (p : Pair)
    → RequestMoved p (request_loop p)
      ⊎ (RequestStuck p
          × (RequestMoved (swap p) (swap (request_loop p))
              ⊎ ((request_loop p ≡ p) × RequestStuck (swap p))))
unfolding request_loop
request_loop-moves p = elim (forward_request-cases p.lower.tx_request p refl) [
  | inl (e, m) ↦ inl (unfold request_loop in rw e m)
  | inr (e, s) ↦ elim (forward_request-cases p.upper.tx_request (swap p) refl) [
    | inl (f, m) ↦ inr (s, inl (subst (λ q. RequestMoved (swap p) (swap q)) (sym (second e)) m))
    | inr (f, t) ↦ inr (s, inr (second e ∙ ap (λ (x : Pair × Bool). swap x.0) f, t))
  ]
]
  where
    second :
        forward_request p.lower.tx_request p ≡ (p, false)
        → request_loop p ≡ swap (forward_request p.upper.tx_request (swap p)).0
    second e =
        ap
          (λ (x : Pair × Bool).
            if x.1 then x.0 else swap (forward_request p.upper.tx_request (swap p)).0)
          e

-- ===== src/Bus/Delivery.antt =====
-- BusController: a broadcast reaches all receivers or none, and what a sender may rely on.
use mathlib.Core.Path.{ap₂}
use octopus_simulator.Common.{
  ℕ, ◌≡◌, ◌≢◌, ◌<◌, refl, ap, sym, ◌∙◌, ◌⊎◌, inl, inr, true, false, none, some, List, [], ◌∷◌, ◌++◌,
  map, length, All, arith, Bool-cases, ◌==◌,
}
use octopus_simulator.Message.{Message, request, data_response, is_demand_request}
use octopus_simulator.Bus.{
  BusInterface, broadcast, all_accept, push_all, push_message_to_rx, send_to, send_each, send,
}

-- The interface with a request delivered.
abbrev pub delivered : Message → BusInterface → BusInterface
delivered m i = record i { rx_request = i.rx_request ++ m ∷ [] }

abbrev pub HasSpace : BusInterface → Type 0
HasSpace i = length i.rx_request < i.max_size

all_accept-HasSpace : (is : List BusInterface) → all_accept is request ≡ true → All HasSpace is
unfolding all_accept
all_accept-HasSpace [] e = tt
all_accept-HasSpace (i ∷ is) e = (ground arith, all_accept-HasSpace is (ground arith))

all_accept-false : (is : List BusInterface) → all_accept is request ≡ false → All HasSpace is → ⊥
unfolding all_accept
all_accept-false [] e h = cc
all_accept-false (i ∷ is) e h =
    ground (arith, h.0, λ (f : all_accept is request ≡ false). all_accept-false is f h.1)

push_all-service :
    (m : Message) (is : List BusInterface)
    → is_demand_request m ≡ false
    → push_all m request is ≡ map (delivered m) is
unfolding push_message_to_rx
push_all-service m [] d = refl
push_all-service m (i ∷ is) d = rw (d, push_all-service m is d)

push_all-demand :
    (m : Message) (is : List BusInterface)
    → All HasSpace is
    → push_all m request is ≡ map (delivered m) is
unfolding push_message_to_rx
push_all-demand m [] h = refl
push_all-demand m (i ∷ is) h = ap₂ ◌∷◌ (ground (arith, h.0)) (push_all-demand m is h.1)

-- A broadcast on the request bus is atomic. It fails only for a demand request when some receiver has
-- no space, and then changes no receiver; otherwise every receiver gets the message at the end of
-- its request buffer, and nothing else changes.
pub broadcast-atomic :
    (is : List BusInterface) (m : Message)
    → ((broadcast is m request ≡ (is, false))
        × (is_demand_request m ≡ true)
        × (All HasSpace is → ⊥))
      ⊎ ((broadcast is m request ≡ (map (delivered m) is, true))
          × ((is_demand_request m ≡ false) ⊎ All HasSpace is))
unfolding broadcast
broadcast-atomic is m = elim (Bool-cases (is_demand_request m)) [
  | inr d ↦ inr (rw (d, push_all-service m is d), inl d)
  | inl d ↦ elim (Bool-cases (all_accept is request)) [
    | inl a ↦
        inr (
          rw (d, a, push_all-demand m is (all_accept-HasSpace is a)),
          inr (all_accept-HasSpace is a),
        )
    | inr a ↦ inl (rw (d, a), d, all_accept-false is a)
  ]
]

-- Some interface has that id.
abbrev pub HasId : List BusInterface → ℕ → Type 0
HasId [] to = ⊥
HasId (i ∷ is) to = (i.id ≡ to) ⊎ HasId is to

send_to-data :
    (is : List BusInterface) (m : Message) (to : ℕ)
    → HasId is to
    → (is' : List BusInterface) × (send_to is m data_response to ≡ some is')
      × (map (λ (i : BusInterface). i.id) is' ≡ map (λ (i : BusInterface). i.id) is)
unfolding send_to push_message_to_rx
send_to-data [] m to h = absurd h
send_to-data (i ∷ is) m to h = elim (Bool-cases (i.id == to)) [
  | inl e ↦ (record i { rx_response = i.rx_response ++ m ∷ [] } ∷ is, rw e, refl)
  | inr e ↦
      let (is', f, g) = send_to-data is m to (other h e) in (i ∷ is', rw (e, f), ap (◌∷◌ i.id) g)
]
  where
    other : HasId (i ∷ is) to → (i.id == to) ≡ false → HasId is to
    other (inl p) e = absurd (ground arith)
    other (inr p) e = p

abbrev pub ids : List BusInterface → List ℕ
ids = map (λ (i : BusInterface). i.id)

HasId-ids : (is js : List BusInterface) (to : ℕ) → ids is ≡ ids js → HasId is to → HasId js to
HasId-ids [] js to e h = absurd h
HasId-ids (i ∷ is) [] to e h = cc
HasId-ids (i ∷ is) (j ∷ js) to e (inl p) = inl (ground arith)
HasId-ids (i ∷ is) (j ∷ js) to e (inr p) = inr (HasId-ids is js to (cc) p)

All-HasId-ids :
    (is js : List BusInterface) (tos : List ℕ)
    → ids is ≡ ids js
    → All (HasId is) tos
    → All (HasId js) tos
All-HasId-ids is js [] e h = tt
All-HasId-ids is js (to ∷ tos) e h = (HasId-ids is js to e h.0, All-HasId-ids is js tos e h.1)

send_each-data :
    (tos : List ℕ) (is : List BusInterface) (m : Message)
    → All (HasId is) tos
    → (is' : List BusInterface) × (send_each tos is m data_response ≡ some is') × (ids is' ≡ ids is)
unfolding send_each
send_each-data [] is m h = (is, refl, refl)
send_each-data (to ∷ tos) is m h =
    let (is₁, e, f) = send_to-data is m to h.0 in
    let (is₂, g, k) = send_each-data tos is₁ m (All-HasId-ids is is₁ tos (sym f) h.1) in
    (is₂, rw (e, g), k ∙ f)

-- A data response whose destinations are all on the bus is delivered; no receiver's bound stops it.
send-data :
    (is : List BusInterface) (m : Message) → All (HasId is) m.to → send is m data_response ≢ none
unfolding send
send-data is m h e = let (is', f, _) = send_each-data m.to is m h in cc

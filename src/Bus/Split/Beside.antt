-- ===== src/Bus/Split/Beside.antt =====
-- SplitBusController: what the response bus leaves of the request bus in a cycle.
use octopus_simulator.Common.{
  ℕ, ◌+◌, ◌≡◌, refl, ap, sym, subst, ◌∙◌, Option, none, some, List, [], ◌∷◌, map, All, and_then,
  ◌==◌, if_keeps,
}
use octopus_simulator.Message.{Message, data_response}
use octopus_simulator.Bus.{
  BusInterface, push_message_to_rx, with_tx_responses, send_to, send_each, send, tx_responses,
}
use octopus_simulator.Bus.Delivery.{HasSpace}
use octopus_simulator.Bus.Split.{
  SplitBus, Slot, request_bus_step, elect_into, put_responses, advance_response, response_bus_step,
  bus_step,
}

-- The receivers' request buffers.
abbrev pub rx_requests : List BusInterface → List (List Message)
rx_requests = map (λ (i : BusInterface). i.rx_request)

-- The receivers' request buffers stay, and so does their space.
abbrev pub Keeps : List BusInterface → List BusInterface → Type 0
Keeps is js = (rx_requests js ≡ rx_requests is) × (All HasSpace is → All HasSpace js)

Keeps-refl : (is : List BusInterface) → Keeps is is
Keeps-refl is = (refl, λ h. h)

cons-Keeps : (i : BusInterface) (is js : List BusInterface) → Keeps is js → Keeps (i ∷ is) (i ∷ js)
cons-Keeps i is js (e, f) = (ap (λ l. i.rx_request ∷ l) e, λ h. (h.0, f (h.1)))

Keeps-trans : (is js ks : List BusInterface) → Keeps is js → Keeps js ks → Keeps is ks
Keeps-trans is js ks (e, f) (g, h) = (g ∙ e, λ p. h (f p))

with_tx_responses-Keeps :
    (is : List BusInterface) (bs : List (List Message)) → Keeps is (with_tx_responses is bs)
unfolding with_tx_responses
with_tx_responses-Keeps [] bs = Keeps-refl []
with_tx_responses-Keeps (i ∷ is) [] = Keeps-refl (i ∷ is)
with_tx_responses-Keeps (i ∷ is) (b ∷ bs) =
    cons-Keeps (record i { tx_response = b }) is (with_tx_responses is bs)
      (with_tx_responses-Keeps is bs)

put_responses-Keeps :
    (is : List BusInterface) (rest : Option (List (List Message)))
    → Keeps is (put_responses is rest)
put_responses-Keeps is none = Keeps-refl is
put_responses-Keeps is (some bs) = with_tx_responses-Keeps is bs

-- What is computed, if anything is, has `P`.
abbrev OnSome {ℓ κ} : {A : Type ℓ} → (A → Type κ) → Option A → Type κ
OnSome P none = Unit
OnSome P (some a) = P a

OnSome-and_then {ℓ κ} :
    {A B : Type ℓ} (P : A → Type κ) (Q : B → Type κ) (o : Option A) (f : A → Option B)
    → OnSome P o
    → ((a : A) → P a → OnSome Q (f a))
    → OnSome Q (and_then o f)
OnSome-and_then P Q none f p q = tt
OnSome-and_then P Q (some a) f p q = q a p

OnSome-weaken {ℓ κ} :
    {A : Type ℓ} (P Q : A → Type κ) (o : Option A) → OnSome P o → ((a : A) → P a → Q a) → OnSome Q o
OnSome-weaken P Q none p f = tt
OnSome-weaken P Q (some a) p f = f a p

send_to-Keeps :
    (is : List BusInterface) (m : Message) (to : ℕ)
    → OnSome (Keeps is) (send_to is m data_response to)
unfolding send_to push_message_to_rx
send_to-Keeps [] m to = tt
send_to-Keeps (i ∷ is) m to =
    if_keeps (OnSome (Keeps (i ∷ is))) (i.id == to) (λ _. (refl, λ h. h))
      (λ _.
        OnSome-and_then (Keeps is) (Keeps (i ∷ is)) (send_to is m data_response to)
          (λ js. some (i ∷ js)) (send_to-Keeps is m to) (λ js k. cons-Keeps i is js k))

send_each-Keeps :
    (tos : List ℕ) (is : List BusInterface) (m : Message)
    → OnSome (Keeps is) (send_each tos is m data_response)
unfolding send_each
send_each-Keeps [] is m = Keeps-refl is
send_each-Keeps (to ∷ tos) is m =
    OnSome-and_then (Keeps is) (Keeps is) (send_to is m data_response to)
      (λ js. send_each tos js m data_response) (send_to-Keeps is m to)
      (λ js k.
        OnSome-weaken (Keeps js) (Keeps is) (send_each tos js m data_response)
          (send_each-Keeps tos js m) (λ ks l. Keeps-trans is js ks k l))

-- The response bus leaves the request slot and what `Keeps` says.
abbrev pub Beside : SplitBus → SplitBus → Type 0
Beside b c = (c.request_slot ≡ b.request_slot) × Keeps b.interfaces c.interfaces

advance_response-Beside :
    (held : Option Message) (b : SplitBus) → OnSome (Beside b) (advance_response held b)
unfolding advance_response send
advance_response-Beside none b = (refl, Keeps-refl b.interfaces)
advance_response-Beside (some m) b =
    if_keeps (OnSome (Beside b)) (b.response_slot.clk_in_slot + 1 == b.response_slot.latency)
      (λ _.
        OnSome-and_then (Keeps b.interfaces) (Beside b) (send b.interfaces m data_response)
          (λ is. some (record b {
            interfaces = is;
            response_slot = record (b.response_slot) { held = none; clk_in_slot = 0 };
          }))
          (send_each-Keeps m.to b.interfaces m) (λ is k. (refl, k)))
      (λ _. (refl, Keeps-refl b.interfaces))

response_bus_step-Beside :
    (b : SplitBus) (cycle : ℕ) → OnSome (Beside b) (response_bus_step b cycle)
unfolding response_bus_step
response_bus_step-Beside b cycle =
    elected (elect_into b.arbiter_type cycle b.response_slot (tx_responses b.interfaces))
  where
    elected :
        (x : Slot × Option (List (List Message)))
        → OnSome (Beside b) (
            advance_response x.0.held
              (record b { interfaces = put_responses b.interfaces x.1; response_slot = x.0 }))
    elected (s, rest) =
        OnSome-weaken (Beside b') (Beside b) (advance_response s.held b')
          (advance_response-Beside s.held b')
          (λ c k. (
            k.0,
            Keeps-trans b.interfaces (put_responses b.interfaces rest) c.interfaces
                (put_responses-Keeps b.interfaces rest) (k.1),
          ))
      where
        b' : SplitBus
        b' = record b { interfaces = put_responses b.interfaces rest; response_slot = s }

-- What a cycle of the bus leaves of what its request bus has made.
pub bus_step-Beside :
    (b b' c : SplitBus) (cycle : ℕ)
    → request_bus_step b cycle ≡ c
    → bus_step b cycle ≡ some b'
    → Beside c b'
unfolding bus_step
bus_step-Beside b b' c cycle e f =
    subst (OnSome (Beside c)) (ap (λ x. response_bus_step x cycle) (sym e) ∙ f)
      (response_bus_step-Beside c cycle)

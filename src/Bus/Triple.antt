-- ===== src/Bus/Triple.antt =====
-- src/Interconnect/TripleBusInterface.cpp and TripleBusController.cpp: an agent's buffers at a bus with
-- a third channel for service messages. `s_rx_delivery_seq`, which all interfaces share, is an
-- argument; a sequence number that is not there compares as not earlier.
pub mod Merge
pub mod Channels
pub mod Order
mod Tests
use octopus_simulator.Common.{
  ℕ, zero, suc, ◌<◌, Bool, true, false, ◌&&◌, ◌||◌, not, Option, none, some, List, [], ◌∷◌, ◌++◌,
  length, ltb, if◌then◌else◌,
}
use octopus_simulator.Message.{
  Message, MessageType, request, data_response, service_request, is_demand_request,
}
use octopus_simulator.Bus.{
  BusInterface, Selector, neither, requests, responses, new_interface, peek_message,
  pop_front_message, push_message, push_message_to_rx, can_accept_rx, stamped, head?, tail,
}

pub record TripleInterface : Type 0 where
  pub base : BusInterface
  pub request_seq : List ℕ
  pub response_seq : List ℕ
  pub tx_service : List Message
  pub rx_service : List Message
  pub service_seq : List ℕ
  pub service_selected : Bool

unfoldable pub new_triple : ℕ → ℕ → TripleInterface
unfolding new_interface
new_triple id max_size = record {
  base = new_interface id max_size;
  request_seq = [];
  response_seq = [];
  tx_service = [];
  rx_service = [];
  service_seq = [];
  service_selected = false;
}

abbrev pub is_empty : List Message → Bool
is_empty [] = true
is_empty (m ∷ ms) = false

abbrev pub drop_first : List ℕ → List ℕ
drop_first [] = []
drop_first (k ∷ ks) = ks

-- `m_rx_service_seq[0] < m_rx_request_seq[0]`.
abbrev pub precedes : List ℕ → List ℕ → Bool
precedes [] rs = false
precedes (s ∷ ss) [] = false
precedes (s ∷ ss) (r ∷ rs) = ltb s r

unfoldable pub serves_service : TripleInterface → Bool
serves_service t =
    not (is_empty t.rx_service)
    && (is_empty t.base.rx_request || precedes t.service_seq t.request_seq)

unfoldable pub triple_peek : TripleInterface → TripleInterface × Option Message
unfolding serves_service peek_message
triple_peek t =
    if serves_service t
    then (record t { service_selected = true }, head? t.rx_service)
    else (let (b, m) = peek_message t.base in (record t { base = b; service_selected = false }, m))

-- The numbers that `BusInterface::popFrontMessage` erases with the message.
unfoldable pub pop_seq : Selector → TripleInterface → TripleInterface
pop_seq neither t = t
pop_seq requests t = record t { request_seq = drop_first t.request_seq }
pop_seq responses t = record t { response_seq = drop_first t.response_seq }

unfoldable pub triple_pop : TripleInterface → TripleInterface
unfolding pop_seq pop_front_message
triple_pop t =
    if t.service_selected
    then record t {
      rx_service = tail t.rx_service;
      service_seq = drop_first t.service_seq;
      service_selected = false;
    }
    else record (pop_seq t.base.selector t) { base = pop_front_message t.base }

unfoldable pub triple_push : TripleInterface → Message → ℕ → MessageType → TripleInterface × Bool
unfolding push_message
triple_push t m cycle service_request =
    if ltb (length t.tx_service) t.base.max_size
    then (record t { tx_service = t.tx_service ++ stamped t.base.id cycle m ∷ [] }, true)
    else (t, false)
triple_push t m cycle request =
    let (b, done) = push_message t.base m cycle request in (record t { base = b }, done)
triple_push t m cycle data_response =
    let (b, done) = push_message t.base m cycle data_response in (record t { base = b }, done)

-- A delivery, with the last number that was given out.
unfoldable pub triple_push_to_rx :
    ℕ → TripleInterface → Message → MessageType → (ℕ × TripleInterface) × Bool
unfolding push_message_to_rx
triple_push_to_rx seq t m service_request = (
  (
    suc seq,
    record t { rx_service = t.rx_service ++ m ∷ []; service_seq = t.service_seq ++ suc seq ∷ [] },
  ),
  true,
)
triple_push_to_rx seq t m request =
    let (b, done) = push_message_to_rx t.base m request in
    if done
    then ((suc seq, record t { base = b; request_seq = t.request_seq ++ suc seq ∷ [] }), true)
    else ((seq, t), false)
triple_push_to_rx seq t m data_response =
    let (b, done) = push_message_to_rx t.base m data_response in
    if done
    then ((suc seq, record t { base = b; response_seq = t.response_seq ++ suc seq ∷ [] }), true)
    else ((seq, t), false)

unfoldable pub triple_can_accept : TripleInterface → MessageType → Bool
unfolding can_accept_rx
triple_can_accept t service_request = true
triple_can_accept t request = can_accept_rx t.base request
triple_can_accept t data_response = can_accept_rx t.base data_response

unfoldable pub all_triples_accept : List TripleInterface → MessageType → Bool
unfolding triple_can_accept
all_triples_accept [] type = true
all_triples_accept (t ∷ ts) type = triple_can_accept t type && all_triples_accept ts type

unfoldable pub push_to_triples :
    ℕ → Message → MessageType → List TripleInterface → ℕ × List TripleInterface
unfolding triple_push_to_rx
push_to_triples seq m type [] = (seq, [])
push_to_triples seq m type (t ∷ ts) =
    let ((seq', t'), done) = triple_push_to_rx seq t m type in
    let (last, ts') = push_to_triples seq' m type ts in (last, t' ∷ ts')

-- BusController::broadcast over these interfaces.
unfoldable pub triple_broadcast :
    ℕ → List TripleInterface → Message → MessageType → (ℕ × List TripleInterface) × Bool
unfolding all_triples_accept push_to_triples
triple_broadcast seq ts m type =
    if is_demand_request m && not (all_triples_accept ts type)
    then ((seq, ts), false)
    else (push_to_triples seq m type ts, true)

-- The first interface, counted from `i`, with a service message to send, and that message.
unfoldable pub first_service : ℕ → List TripleInterface → Option (ℕ × Message)
first_service i [] = none
first_service i (t ∷ ts) = elim t.tx_service [
  | m ∷ ms ↦ some (i, m)
  | [] ↦ first_service (suc i) ts
]

unfoldable pub erase_service : ℕ → List TripleInterface → List TripleInterface
erase_service i [] = []
erase_service zero (t ∷ ts) = record t { tx_service = tail t.tx_service } ∷ ts
erase_service (suc i) (t ∷ ts) = t ∷ erase_service i ts

unfoldable pub service_bus_step : ℕ → List TripleInterface → ℕ × List TripleInterface
unfolding first_service erase_service triple_broadcast
service_bus_step seq ts = elim (first_service 0 ts) [
  | none ↦ (seq, ts)
  | some (i, m) ↦
      let ((seq', ts'), done) = triple_broadcast seq ts m service_request in
      if done then (seq', erase_service i ts') else (seq', ts')
]

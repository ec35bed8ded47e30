-- ===== src/Bus.antt =====
-- src/Interconnect/BusInterface.cpp and BusController.cpp: an agent's four buffers at a bus, and the
-- two ways in which a controller delivers. The delivery sequence numbers, which only the triple bus reads,
-- are kept in Bus/Triple.antt. `exit(0)` is `none`.
pub mod Receive
pub mod Delivery
pub mod Split
pub mod Unified
pub mod Direct
pub mod Triple
pub mod PointToPoint
mod Tests
use octopus_simulator.Common.{
  ℕ, zero, suc, ◌+◌, ◌-◌, ◌/◌, ◌*◌, Bool, true, false, ◌&&◌, ◌||◌, not, Option, none, some, List,
  [], ◌∷◌, ◌++◌, map, length, set, get_elem?, erase_at, ltb, leb, ◌==◌, if◌then◌else◌, and_then,
}
use octopus_simulator.Message.{
  Message, MessageType, request, data_response, service_request, is_demand_request,
}

-- `m_buffer_selector`: -1, 0 and 1.
pub data Selector : Type 0 where
  neither requests responses : Selector

pub record BusInterface : Type 0 where
  pub id : ℕ
  pub selector : Selector
  pub max_size : ℕ
  pub tx_request : List Message
  pub tx_response : List Message
  pub rx_request : List Message
  pub rx_response : List Message

unfoldable pub new_interface : ℕ → ℕ → BusInterface
new_interface id max_size = record {
  id = id;
  selector = neither;
  max_size = max_size;
  tx_request = [];
  tx_response = [];
  rx_request = [];
  rx_response = [];
}

abbrev pub head? : List Message → Option Message
head? [] = none
head? (m ∷ ms) = some m

abbrev pub tail : List Message → List Message
tail [] = []
tail (m ∷ ms) = ms

abbrev pub not_requests : Selector → Bool
not_requests requests = false
not_requests _ = true

abbrev pub not_responses : Selector → Bool
not_responses responses = false
not_responses _ = true

-- The second test of a round of `peekMessage`.
unfoldable pub choose_response : Selector → List Message → Selector
choose_response s [] = neither
choose_response s (r ∷ rs) = if not_responses s then responses else neither

-- The buffer that a round chooses.
unfoldable pub choose : Selector → List Message → List Message → Selector
unfolding choose_response
choose s [] rs = choose_response s rs
choose s (m ∷ ms) rs = if not_requests s then requests else choose_response s rs

-- The second round starts with no buffer excluded.
unfoldable pub choose_again : Selector → List Message → List Message → Selector
unfolding choose
choose_again neither ms rs = choose neither ms rs
choose_again requests ms rs = requests
choose_again responses ms rs = responses

unfoldable pub head_of : Selector → BusInterface → Option Message
head_of neither i = none
head_of requests i = head? i.rx_request
head_of responses i = head? i.rx_response

unfoldable pub peek_message : BusInterface → BusInterface × Option Message
unfolding choose_again head_of
peek_message i =
    let s =
      choose_again (choose i.selector i.rx_request i.rx_response) i.rx_request i.rx_response in
    (record i { selector = s }, head_of s i)

unfoldable pub pop_from : Selector → BusInterface → BusInterface
pop_from neither i = i
pop_from requests i = record i { rx_request = tail i.rx_request }
pop_from responses i = record i { rx_response = tail i.rx_response }

unfoldable pub pop_front_message : BusInterface → BusInterface
unfolding pop_from
pop_front_message i = pop_from i.selector i

-- What `pushMessage` writes into the message.
abbrev pub stamped : ℕ → ℕ → Message → Message
stamped id cycle m =
    if cycle == 0 then record m { from = id } else record m { cycle = cycle; from = id }

unfoldable pub push_message : BusInterface → Message → ℕ → MessageType → BusInterface × Bool
push_message i m cycle request =
    if ltb (length i.tx_request) i.max_size
    then (record i { tx_request = i.tx_request ++ stamped i.id cycle m ∷ [] }, true)
    else (i, false)
push_message i m cycle data_response =
    if ltb (length i.tx_response) i.max_size
    then (record i { tx_response = i.tx_response ++ stamped i.id cycle m ∷ [] }, true)
    else (i, false)
push_message i m cycle service_request = (i, false)

unfoldable pub push_message_to_rx : BusInterface → Message → MessageType → BusInterface × Bool
unfolding is_demand_request
push_message_to_rx i m request =
    if is_demand_request m && leb i.max_size (length i.rx_request)
    then (i, false)
    else (record i { rx_request = i.rx_request ++ m ∷ [] }, true)
push_message_to_rx i m data_response = (record i { rx_response = i.rx_response ++ m ∷ [] }, true)
push_message_to_rx i m service_request = (i, false)

unfoldable pub can_accept_rx : BusInterface → MessageType → Bool
can_accept_rx i request = ltb (length i.rx_request) i.max_size
can_accept_rx i data_response = true
can_accept_rx i service_request = false

-- `txResponseFreeSlots() <= reserve`, without the subtraction.
unfoldable pub is_reserve_reached : ℕ → BusInterface → Bool
is_reserve_reached reserve i = leb i.max_size (reserve + length i.tx_response)

-- The buffers that `getCongregatedBuffers` points to, and the interfaces after a change of them.
abbrev pub tx_requests : List BusInterface → List (List Message)
tx_requests = map (λ (i : BusInterface). i.tx_request)

abbrev pub tx_responses : List BusInterface → List (List Message)
tx_responses = map (λ (i : BusInterface). i.tx_response)

unfoldable pub with_tx_requests : List BusInterface → List (List Message) → List BusInterface
with_tx_requests [] bs = []
with_tx_requests (i ∷ is) [] = i ∷ is
with_tx_requests (i ∷ is) (b ∷ bs) = record i { tx_request = b } ∷ with_tx_requests is bs

unfoldable pub with_tx_responses : List BusInterface → List (List Message) → List BusInterface
with_tx_responses [] bs = []
with_tx_responses (i ∷ is) [] = i ∷ is
with_tx_responses (i ∷ is) (b ∷ bs) = record i { tx_response = b } ∷ with_tx_responses is bs

-- `address & ~(mask - 1)` for a mask that is a power of two.
abbrev pub block_of : ℕ → ℕ → ℕ
block_of mask address = address / mask * mask

-- One buffer of `rollback`: the first message to the block, taken out.
unfoldable pub rollback_buffer : ℕ → ℕ → List Message → Option (Message × List Message)
rollback_buffer address mask [] = none
rollback_buffer address mask (m ∷ ms) =
    if block_of mask address == block_of mask m.addr
    then some (m, ms)
    else and_then (rollback_buffer address mask ms) (λ (n, rest). some (n, m ∷ rest))

unfoldable pub rollback : BusInterface → ℕ → ℕ → BusInterface × Option Message
unfolding rollback_buffer
rollback i address mask = elim (rollback_buffer address mask i.tx_request) [
  | some (m, rest) ↦ (record i { tx_request = rest }, some m)
  | none ↦ elim (rollback_buffer address mask i.tx_response) [
    | some (m, rest) ↦ (record i { tx_response = rest }, some m)
    | none ↦ (i, none)
  ]
]

unfoldable pub all_accept : List BusInterface → MessageType → Bool
unfolding can_accept_rx
all_accept [] type = true
all_accept (i ∷ is) type = can_accept_rx i type && all_accept is type

abbrev pub push_all : Message → MessageType → List BusInterface → List BusInterface
push_all m type = map (λ (i : BusInterface). (push_message_to_rx i m type).0)

-- BusController::broadcast.
unfoldable pub broadcast : List BusInterface → Message → MessageType → List BusInterface × Bool
unfolding all_accept
broadcast is m type =
    if is_demand_request m && not (all_accept is type)
    then (is, false)
    else (push_all m type is, true)

-- BusController::send to one destination: the first interface of that id.
unfoldable pub send_to : List BusInterface → Message → MessageType → ℕ → Option (List BusInterface)
unfolding push_message_to_rx
send_to [] m type to = none
send_to (i ∷ is) m type to =
    let later = send_to is m type to in
    if i.id == to
    then (let (i', done) = push_message_to_rx i m type in if done then some (i' ∷ is) else none)
    else and_then later (λ is'. some (i ∷ is'))

unfoldable pub send_each :
    List ℕ → List BusInterface → Message → MessageType → Option (List BusInterface)
unfolding send_to
send_each [] is m type = some is
send_each (to ∷ tos) is m type = and_then (send_to is m type to) (λ is'. send_each tos is' m type)

unfoldable pub send : List BusInterface → Message → MessageType → Option (List BusInterface)
unfolding send_each
send is m type = send_each m.to is m type

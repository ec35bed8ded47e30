-- ===== src/Bus/Triple/Order.antt =====
-- TripleBusInterface: the order in which an agent takes requests and service messages, over every
-- history of deliveries and receives.
use octopus_simulator.Common.{
  ℕ, suc, ◌+◌, ◌≡◌, refl, sym, ap, ◌∙◌, subst, Bool, true, false, ◌&&◌, Option, List, [], ◌∷◌, ◌++◌,
  length, leb, if◌then◌else◌, if_keeps,
}
use mathlib.Core.List.{append-nil}
use octopus_simulator.Message.{
  Message, MessageType, request, data_response, service_request, is_demand_request,
}
use octopus_simulator.Bus.{
  Selector, neither, BusInterface, requests, responses, new_interface, choose, choose_again,
  head_of, peek_message, pop_from, pop_front_message, push_message_to_rx,
}
use octopus_simulator.Bus.Triple.{
  TripleInterface, new_triple, pop_seq, serves_service, triple_peek, triple_pop, triple_push_to_rx,
}
use octopus_simulator.Bus.Triple.Merge.{merge}
use octopus_simulator.Bus.Triple.Channels.{
  Channel, messages, Holds, Holds-request, Holds-service, Holds-later, serves, list_of,
  Holds-without_service, Holds-without_request, Holds-none, length-merge,
}

-- What happens to an interface: the bus delivers a message to it, it is peeked, or peeked and popped,
-- or the bus delivers a message to another interface.
pub data Event : Type 0 where
  arrives : Message → MessageType → Event
  looked served elsewhere : Event

-- The requests and service messages delivered so far, and those taken out.
pub record Log : Type 0 where
  pub interface : TripleInterface
  pub seq : ℕ
  pub delivered : List Message
  pub taken : List Message

unfoldable pub new_log : ℕ → ℕ → Log
unfolding new_triple
new_log id max_size = record {
  interface = new_triple id max_size;
  seq = 0;
  delivered = [];
  taken = [];
}

abbrev if_ordered : MessageType → Message → List Message
if_ordered data_response m = []
if_ordered _ m = m ∷ []

abbrev if_request : Selector → List Message → List Message
if_request requests ms = ms
if_request _ ms = []

-- What a peek hands out, unless it is a response.
abbrev handed : TripleInterface × Option Message → List Message
handed p = if p.0.service_selected then list_of p.1 else if_request p.0.base.selector (list_of p.1)

abbrev arrived : Log → Message → MessageType → (ℕ × TripleInterface) × Bool → Log
arrived l m type p = record l {
  interface = p.0.1;
  seq = p.0.0;
  delivered = l.delivered ++ (if p.1 then if_ordered type m else []);
}

unfoldable pub happen : Log → Event → Log
unfolding triple_peek triple_pop triple_push_to_rx
happen l (arrives m type) = arrived l m type (triple_push_to_rx l.seq l.interface m type)
happen l looked = record l { interface = (triple_peek l.interface).0 }
happen l served = record l {
  interface = triple_pop (triple_peek l.interface).0;
  taken = l.taken ++ handed (triple_peek l.interface);
}
happen l elsewhere = record l { seq = suc l.seq }

abbrev pub history : Log → List Event → Log
history l [] = l
history l (e ∷ es) = history (happen l e) es

abbrev channels : TripleInterface → Channel × Channel
channels t = ((t.base.rx_request, t.request_seq), (t.rx_service, t.service_seq))

abbrev LogHolds : Log → Type 0
LogHolds l = Holds l.seq (channels l.interface) l.delivered l.taken

-- What a receive leaves, from what the peek gave.
abbrev Served : Log → TripleInterface × Option Message → Type 0
unfolding triple_pop
Served l p = Holds l.seq (channels (triple_pop p.0)) l.delivered (l.taken ++ handed p)

from_base-Served :
    (l : Log) (s : Selector)
    → LogHolds l
    → serves (channels l.interface) ≡ false
    → Served l (
      record l.interface {
        base = record l.interface.base { selector = s };
        service_selected = false;
      },
      head_of s l.interface.base,
    )
unfolding triple_pop pop_seq pop_front_message pop_from head_of
from_base-Served l neither h e = Holds-none l.seq (channels l.interface) l.delivered l.taken h
from_base-Served l requests h e =
    Holds-without_request l.seq (channels l.interface) l.delivered l.taken h e
from_base-Served l responses h e = Holds-none l.seq (channels l.interface) l.delivered l.taken h

served-LogHolds : (l : Log) → LogHolds l → LogHolds (happen l served)
unfolding triple_peek triple_pop serves_service peek_message pop_front_message happen
served-LogHolds l h =
    if_keeps (Served l) (serves_service l.interface)
      (λ e. Holds-without_service l.seq (channels l.interface) l.delivered l.taken h e)
      (from_base-Served l
        (choose_again
          (choose l.interface.base.selector l.interface.base.rx_request
            l.interface.base.rx_response)
          l.interface.base.rx_request l.interface.base.rx_response)
        h)

looked-LogHolds : (l : Log) → LogHolds l → LogHolds (happen l looked)
unfolding triple_peek peek_message happen
looked-LogHolds l h =
    if_keeps
      (λ (p : TripleInterface × Option Message). Holds l.seq (channels p.0) l.delivered l.taken)
      (serves_service l.interface) (λ _. h) (λ _. h)

arrives-LogHolds :
    (l : Log) (m : Message) (type : MessageType) → LogHolds l → LogHolds (happen l (arrives m type))
unfolding triple_push_to_rx push_message_to_rx happen
arrives-LogHolds l m service_request h =
    Holds-service l.seq (channels l.interface) l.delivered l.taken m h
arrives-LogHolds l m request h =
    if_keeps
      (λ (p : BusInterface × Bool). LogHolds (
        arrived l m request (
          if p.1
          then (
            (
              suc l.seq,
              record l.interface {
                base = p.0;
                request_seq = l.interface.request_seq ++ suc l.seq ∷ [];
              },
            ),
            true,
          )
          else ((l.seq, l.interface), false))))
      (is_demand_request m && leb l.interface.base.max_size (length l.interface.base.rx_request))
      (λ _.
        subst (λ d. Holds l.seq (channels l.interface) d l.taken) (sym (append-nil l.delivered)) h)
      (λ _. Holds-request l.seq (channels l.interface) l.delivered l.taken m h)
arrives-LogHolds l m data_response h =
    Holds-later l.seq (channels l.interface) (l.delivered ++ []) l.taken
      (subst (λ d. Holds l.seq (channels l.interface) d l.taken) (sym (append-nil l.delivered)) h)

happen-LogHolds : (l : Log) (e : Event) → LogHolds l → LogHolds (happen l e)
unfolding happen
happen-LogHolds l (arrives m type) h = arrives-LogHolds l m type h
happen-LogHolds l looked h = looked-LogHolds l h
happen-LogHolds l served h = served-LogHolds l h
happen-LogHolds l elsewhere h = Holds-later l.seq (channels l.interface) l.delivered l.taken h

history-LogHolds : (l : Log) (es : List Event) → LogHolds l → LogHolds (history l es)
history-LogHolds l [] h = h
history-LogHolds l (e ∷ es) h = history-LogHolds (happen l e) es (happen-LogHolds l e h)

-- All that was delivered, in the order of delivery, is what was taken out, in the order in which it
-- was taken, and then the requests and service messages that wait, each of them once.
abbrev pub TakenInOrder : Log → Type 0
TakenInOrder l =
    (waiting : List Message) × (l.delivered ≡ l.taken ++ waiting)
    × (length waiting ≡ length l.interface.base.rx_request + length l.interface.rx_service)

LogHolds-TakenInOrder : (l : Log) → LogHolds l → TakenInOrder l
LogHolds-TakenInOrder l (rs, ss, e, h, k, g) = (
  messages (merge rs ss),
  g,
  length-merge rs ss ∙ ap (λ (c : Channel × Channel). length c.0.0 + length c.1.0) (sym e),
)

-- Over every history of a new interface at a triple bus, in which messages arrive on the three channels,
-- the owner peeks, or peeks and pops, and other interfaces receive: the requests and the service
-- messages leave the interface together in the order in which the bus delivered them, and those that
-- have not left still wait in it.
pub history-TakenInOrder :
    (id max_size : ℕ) (es : List Event) → TakenInOrder (history (new_log id max_size) es)
unfolding new_triple new_interface merge new_log
history-TakenInOrder id max_size es =
    LogHolds-TakenInOrder (history (new_log id max_size) es)
      (history-LogHolds (new_log id max_size) es ([], [], refl, tt, tt, refl))

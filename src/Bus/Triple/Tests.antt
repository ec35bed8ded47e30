-- ===== src/Bus/Triple/Tests.antt =====
-- An agent at a triple bus that is one message behind: a request, then an invalidation.
use octopus_simulator.Common.{ℕ, ◌≡◌, refl, List, [], ◌∷◌, map}
use octopus_simulator.Message.{Message, new_message, request, data_response, service_request}
use octopus_simulator.Bus.Triple.{TripleInterface, new_triple, triple_push, service_bus_step}
use octopus_simulator.Bus.Triple.Order.{
  Event, arrives, looked, served, elsewhere, new_log, happen, history, TakenInOrder,
  history-TakenInOrder,
}

abbrev get_m : Message
unfolding new_message
get_m = new_message 7 64 3 0 1

abbrev invalidation : Message
unfolding new_message
invalidation = new_message 8 64 3 0 2

abbrev answer : Message
unfolding new_message
answer = new_message 9 128 3 0 1

abbrev events : List Event
events =
    arrives get_m request
    ∷ arrives answer data_response
    ∷ elsewhere
    ∷ looked
    ∷ arrives invalidation service_request
    ∷ served
    ∷ served
    ∷ served
    ∷ []

request_first : (history (new_log 1 4) events).taken ≡ get_m ∷ invalidation ∷ []
unfolding new_log happen get_m invalidation answer
request_first = refl

invalidation_first :
    (history
      (new_log 1 4)
      (arrives invalidation service_request ∷ arrives get_m request ∷ served ∷ [])).taken
    ≡ invalidation ∷ []
unfolding new_log happen get_m invalidation
invalidation_first = refl

history-TakenInOrder_example : TakenInOrder (history (new_log 1 4) events)
history-TakenInOrder_example = history-TakenInOrder 1 4 events

-- A service message is broadcast to every interface, its sender's too, and leaves its sender.
abbrev broadcasting : List TripleInterface
unfolding new_triple triple_push
broadcasting = (triple_push (new_triple 9 4) invalidation 0 service_request).0 ∷ new_triple 1 4 ∷ []

abbrev waiting_and_numbers : TripleInterface → List Message × List ℕ
waiting_and_numbers t = (t.tx_service, t.service_seq)

broadcast_to_all :
    map waiting_and_numbers (service_bus_step 5 broadcasting).1 ≡ ([], 6 ∷ []) ∷ ([], 7 ∷ []) ∷ []
unfolding service_bus_step broadcasting invalidation
broadcast_to_all = refl

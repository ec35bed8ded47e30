-- ===== src/Bus/PointToPoint/Tests.antt =====
-- A cache 1 below a shared cache 9, with links of two cycles.
use octopus_simulator.Common.{◌≡◌, refl, none, some, List, [], ◌∷◌, map, and_then}
use octopus_simulator.Message.{Message, new_message}
use octopus_simulator.Arbiter.{new_arbiter}
use octopus_simulator.Bus.{BusInterface, new_interface, send}
use octopus_simulator.Bus.Split.{fcfs_arbiter, elect}
use octopus_simulator.Bus.PointToPoint.{Links, links_step}

abbrev get_s : Message
unfolding new_message
get_s = record (new_message 7 64 3 0 1) { to = 9 ∷ [] }

abbrev answer : Message
unfolding new_message
answer = record (new_message 8 64 3 0 1) { to = 1 ∷ [] }

abbrev links : Links
unfolding new_interface get_s answer
links = record {
  arbiter_type = fcfs_arbiter;
  arbiter = new_arbiter (1 ∷ []) 4;
  request_latency = 2;
  response_latency = 2;
  interfaces =
      record (new_interface 1 4) { tx_request = get_s ∷ [] }
      ∷ record (new_interface 9 4) { tx_response = answer ∷ [] }
      ∷ [];
  lower_level_ids = 1 ∷ [];
  clk_in_slot_lower = 0;
  clk_in_slot_upper = 0;
  held_lower = none;
  held_upper = none;
}

abbrev received : BusInterface → List Message
received i = i.rx_response

-- In two cycles both links deliver, as data responses.
both_deliver :
    and_then
      (links_step links 3)
      (λ p. and_then (links_step p 4) (λ q. some (map received q.interfaces)))
    ≡ some ((answer ∷ []) ∷ (get_s ∷ []) ∷ [])
unfolding links_step links get_s answer elect send
both_deliver = refl

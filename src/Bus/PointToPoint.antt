-- ===== src/Bus/PointToPoint.antt =====
-- src/Interconnect/Point2PointController.cpp: the links between one upper interface and the lower
-- ones. The ids of the lower level are distinct. A latency of 1 never sends. The counter and the
-- held message of the upward link are what the memory held: the constructor does not set them.
mod Tests
use octopus_simulator.Common.{
  ℕ, zero, suc, ◌+◌, ◌%◌, Bool, true, false, Option, none, some, List, [], ◌∷◌, ◌++◌, ◌||◌, map,
  get_elem?, set, ◌==◌, if◌then◌else◌, and_then,
}
use octopus_simulator.Message.{Message, data_response}
use octopus_simulator.Arbiter.{Arbiter}
use octopus_simulator.Bus.{
  BusInterface, tx_requests, tx_responses, with_tx_requests, with_tx_responses, tail, send,
}
use octopus_simulator.Bus.Split.{ArbiterType, elect}

-- `held_lower` and `held_upper` are the elected messages while they are available.
pub record Links : Type 0 where
  pub arbiter_type : ArbiterType
  pub arbiter : Arbiter
  pub request_latency : ℕ
  pub response_latency : ℕ
  pub interfaces : List BusInterface
  pub lower_level_ids : List ℕ
  pub clk_in_slot_lower : ℕ
  pub clk_in_slot_upper : ℕ
  pub held_lower : Option Message
  pub held_upper : Option Message

unfoldable pub is_lower_id : List ℕ → ℕ → Bool
is_lower_id [] id = false
is_lower_id (l ∷ ls) id = l == id || is_lower_id ls id

-- The first interface of an id, as none or one.
unfoldable pub of_id : ℕ → List BusInterface → List BusInterface
of_id id [] = []
of_id id (i ∷ is) = let rest = of_id id is in if i.id == id then i ∷ [] else rest

unfoldable pub lower_interfaces : List ℕ → List BusInterface → List BusInterface
unfolding of_id
lower_interfaces [] is = []
lower_interfaces (l ∷ ls) is = of_id l is ++ lower_interfaces ls is

-- The first interface that is not of the lower level.
unfoldable pub upper_interface : List ℕ → List BusInterface → Option BusInterface
unfolding is_lower_id
upper_interface ls [] = none
upper_interface ls (i ∷ is) =
    let rest = upper_interface ls is in if is_lower_id ls i.id then rest else some i

-- An interface back in its place, the first of its id.
unfoldable pub put_interface : BusInterface → List BusInterface → List BusInterface
put_interface j [] = []
put_interface j (i ∷ is) =
    let rest = put_interface j is in if i.id == j.id then j ∷ is else i ∷ rest

unfoldable pub put_interfaces : List BusInterface → List BusInterface → List BusInterface
unfolding put_interface
put_interfaces [] is = is
put_interfaces (j ∷ js) is = put_interfaces js (put_interface j is)

-- The interfaces after a change of all their buffers, first the requests and then the responses.
unfoldable pub with_buffers : List BusInterface → List (List Message) → List BusInterface
unfolding with_tx_requests with_tx_responses
with_buffers js bs = with_tx_responses (with_tx_requests js bs) (after js bs)
  where
    after : List BusInterface → List (List Message) → List (List Message)
    after [] bs = bs
    after (j ∷ js) [] = []
    after (j ∷ js) (b ∷ bs) = after js bs

unfoldable pub elected_lower : Links → Arbiter × Option (Message × List (List Message)) → Links
unfolding lower_interfaces put_interfaces with_buffers
elected_lower p (a, none) = record p { arbiter = a; held_lower = none }
elected_lower p (a, some (m, rest)) = record p {
  arbiter = a;
  held_lower = some m;
  interfaces =
      put_interfaces (with_buffers (lower_interfaces p.lower_level_ids p.interfaces) rest)
        p.interfaces;
}

-- `send` of what is held; `none` is the `exit(0)` of a send.
unfoldable pub send_link : Links → Option Message → Option Links
send_link p none = some p
send_link p (some m) =
    and_then (send p.interfaces m data_response) (λ is. some (record p { interfaces = is }))

abbrev pub next_slot : Option Message → ℕ → ℕ → ℕ
next_slot none clk latency = 0
next_slot (some m) clk latency = (clk + 1) % latency

unfoldable pub lower_bus_step : Links → ℕ → Option Links
unfolding elected_lower send_link lower_interfaces
lower_bus_step p cycle =
    let js = lower_interfaces p.lower_level_ids p.interfaces in
    let moved =
      if p.clk_in_slot_lower == 0
      then some (
          elected_lower p
            (elect p.arbiter_type p.arbiter cycle (tx_requests js ++ tx_responses js)))
      else if p.clk_in_slot_lower + 1 == p.request_latency
      then send_link p p.held_lower
      else some p in
    and_then moved (λ q. some (record q {
      clk_in_slot_lower = next_slot q.held_lower q.clk_in_slot_lower q.request_latency;
    }))

-- The search of the upper interface's two buffers.
unfoldable pub take_upper : Links → BusInterface → List Message → List Message → Links
unfolding put_interface
take_upper p i [] [] = record p { held_upper = none }
take_upper p i [] (r ∷ rs) = record p {
  held_upper = some r;
  interfaces = put_interface (record i { tx_response = rs }) p.interfaces;
}
take_upper p i (m ∷ ms) rs = record p {
  held_upper = some m;
  interfaces = put_interface (record i { tx_request = ms }) p.interfaces;
}

unfoldable pub elected_upper : Links → Option BusInterface → Links
unfolding take_upper
elected_upper p none = p
elected_upper p (some i) = take_upper p i i.tx_request i.tx_response

unfoldable pub upper_bus_step : Links → Option Links
unfolding elected_upper send_link upper_interface
upper_bus_step p =
    let moved =
      if p.clk_in_slot_upper == 0
      then some (elected_upper p (upper_interface p.lower_level_ids p.interfaces))
      else if p.clk_in_slot_upper + 1 == p.response_latency
      then send_link p p.held_upper
      else some p in
    and_then moved (λ q. some (record q {
      clk_in_slot_upper = next_slot q.held_upper q.clk_in_slot_upper q.response_latency;
    }))

unfoldable pub links_step : Links → ℕ → Option Links
unfolding lower_bus_step upper_bus_step
links_step p cycle = and_then (lower_bus_step p cycle) upper_bus_step

-- ===== src/Mesh/Noc.antt =====
-- src/Interconnect/NoCInterface.cpp, NoCController.cpp and NoC.cpp: routing tables, delivery to the other end
-- of a link, and the switches that pass messages on.
use octopus_simulator.Common.{
  Outcome, ok, exits, no_fuel, and_run, ℕ, zero, suc, Bool, false, ◌||◌, Option, none, some, List,
  [], ◌∷◌, find, put, ◌==◌, if◌then◌else◌,
}
use octopus_simulator.Message.{Message}
use octopus_simulator.Mesh.{MeshInterface, mesh_peek, mesh_pop, push_routed, sent_by}
use octopus_simulator.Mesh.Link.{Link, Deliver, send_to_node}

abbrev pub Routes : Type 0
Routes = List (ℕ × ℕ)

unfoldable pub is_among : ℕ → List ℕ → Bool
is_among id [] = false
is_among id (s ∷ ss) = s == id || is_among id ss

-- The ids reachable from the switch `via`, but this interface's.
unfoldable pub add_reachable : ℕ → ℕ → List ℕ → Routes → Routes
add_reachable id via [] routes = routes
add_reachable id via (r ∷ rs) routes =
    add_reachable id via rs (if r == id then routes else put routes r via)

-- The rows of the connection matrix that are of this switch.
unfoldable pub add_rows : ℕ → ℕ → List (ℕ × List ℕ) → Routes → Routes
unfolding add_reachable
add_rows id via [] routes = routes
add_rows id via ((first, rest) ∷ rows) routes =
    add_rows id via rows (if first == via then add_reachable id via rest routes else routes)

-- The constructor of NoCInterface.
unfoldable pub routing_table : ℕ → List ℕ → List (ℕ × List ℕ) → List ℕ → Routes → Routes
unfolding is_among add_rows
routing_table id [] matrix switches routes = routes
routing_table id (l ∷ ls) matrix switches routes =
    routing_table id ls matrix switches
      (if is_among l switches then add_rows id l matrix (put routes l l) else put routes l l)

-- `m_routing_table[to]`: a missing destination is sent over the link 0.
unfoldable pub route_in : Routes → ℕ → ℕ
route_in routes to = elim (find routes to) [ none ↦ 0 | some link ↦ link ]

unfoldable pub noc_push : Routes → MeshInterface → Message → Option (MeshInterface × Bool)
unfolding push_routed route_in
noc_push routes i m = push_routed (route_in routes) i m

-- NoCInterface::pushMessage.
unfoldable pub noc_push_message :
    Routes → MeshInterface → Message → ℕ → Option (MeshInterface × Bool)
unfolding noc_push
noc_push_message routes i m cycle = noc_push routes i (sent_by i.id cycle m)

-- The end of a link that NoCController::step sends to.
unfoldable pub far_end : Link → Message → ℕ
far_end l m = if m.from == l.id_a then l.id_b else l.id_a

unfoldable pub noc_deliver : Deliver
unfolding far_end send_to_node
noc_deliver l is = send_to_node is l.msg (far_end l l.msg)

-- One round of the loop of `NoC::cycleProcess` after its peek; the result of the push is not read.
unfoldable pub pass_on : Routes → MeshInterface → Message → Outcome MeshInterface
unfolding mesh_pop noc_push
pass_on routes i m = elim (noc_push routes (mesh_pop i) m) [
  | none ↦ exits
  | some (i', done) ↦ ok i'
]

-- The loop, with the rounds that are left.
unfoldable pub switch_rounds : ℕ → Routes → MeshInterface → Outcome MeshInterface
unfolding mesh_peek pass_on
switch_rounds zero routes i = elim (mesh_peek i).1 [ none ↦ ok (mesh_peek i).0 | some m ↦ no_fuel ]
switch_rounds (suc n) routes i = elim (mesh_peek i).1 [
  | none ↦ ok (mesh_peek i).0
  | some m ↦ and_run (pass_on routes (mesh_peek i).0 m) (switch_rounds n routes)
]

-- The switches are the interfaces with a table here; `rounds` gives each enough rounds.
unfoldable pub switches_step :
    List (ℕ × Routes) → (MeshInterface → ℕ) → List MeshInterface → Outcome (List MeshInterface)
unfolding switch_rounds
switches_step tables rounds [] = ok []
switches_step tables rounds (i ∷ is) = elim (find tables i.id) [
  | none ↦ and_run (switches_step tables rounds is) (λ is'. ok (i ∷ is'))
  | some routes ↦
      and_run (switch_rounds (rounds i) routes i)
        (λ i'. and_run (switches_step tables rounds is) (λ is'. ok (i' ∷ is')))
]

-- ===== src/Mesh/Tests.antt =====
-- Two nodes 1 and 2, a link between them, and a switch.
use octopus_simulator.Common.{
  length, none, Ends, ◌≡◌, refl, some, List, [], ◌∷◌, ltb, if◌then◌else◌, and_then, arith,
}
use octopus_simulator.Message.{Message, new_message}
use octopus_simulator.Arbiter.{new_arbiter}
use octopus_simulator.Bus.Split.{fcfs_arbiter}
use octopus_simulator.Mesh.{MeshInterface, new_mesh_interface, push_to}
use octopus_simulator.Mesh.Link.{Link, request_link, utilize, mesh_deliver}
use octopus_simulator.Mesh.Noc.{is_among, noc_deliver}
use octopus_simulator.Mesh.Copies.{accepted, refused, gathered, push_to-gather}
use octopus_simulator.Mesh.Latency.{link_cycles, link_cycles-delivers, link_cycles-loses}
use octopus_simulator.Mesh.Cycle.{
  Mesh, Setup, noc_cycle, initialize_links, add_neighbours, add_link, is_link_of, same_link,
  same_type, new_link,
}
use octopus_simulator.Mesh.Passed.{Passed, waiting_rounds, noc_cycle-Ends}

abbrev get_s : Message
unfolding new_message
get_s = record (new_message 7 64 3 0 1) { to = 2 ∷ 3 ∷ []; from = 1 }

abbrev node : MeshInterface
unfolding new_mesh_interface
node = new_mesh_interface 1 4 (2 ∷ 3 ∷ [])

abbrev nodes : List MeshInterface
unfolding new_mesh_interface
nodes = node ∷ new_mesh_interface 2 4 (1 ∷ []) ∷ []

-- The answer to the request above.
abbrev answer : Message
unfolding new_message
answer = record (new_message 8 64 4 0 1) { to = 2 ∷ 3 ∷ []; payload = some (5 ∷ []) }

push_to-gather_example :
    push_to (λ to. to) node answer (2 ∷ 3 ∷ [])
    ≡ (if ltb 2 4 then accepted (gathered (λ to. to) node answer (2 ∷ 3 ∷ [])) else refused node)
unfolding node answer is_among
push_to-gather_example =
    push_to-gather (λ to. to) node answer 2 (3 ∷ []) (refl, (refl, tt)) refl refl

abbrev slow : Link
unfolding new_message
slow = record {
  id_a = 1;
  id_b = 2;
  type = request_link;
  latency = 3;
  utilization_cycle = 0;
  arbiter_type = fcfs_arbiter;
  arbiter = new_arbiter (1 ∷ 2 ∷ []) 3;
  msg = new_message 0 0 0 0 0;
}

link_cycles-delivers_example :
    link_cycles mesh_deliver 2 6 (utilize slow 5 get_s, nodes)
    ≡ and_then (mesh_deliver (utilize slow 5 get_s) nodes) (λ is. some (utilize slow 5 get_s, is))
unfolding slow
link_cycles-delivers_example = link_cycles-delivers mesh_deliver 1 5 slow nodes get_s refl

abbrev fast : Link
unfolding slow
fast = record slow { latency = 1 }

link_cycles-loses_example :
    link_cycles mesh_deliver 3 6 (utilize fast 5 get_s, nodes)
    ≡ link_cycles (λ l is. none) 3 6 (utilize fast 5 get_s, nodes)
unfolding utilize slow
link_cycles-loses_example =
    link_cycles-loses mesh_deliver (λ l is. none) 3 6 (utilize fast 5 get_s) nodes refl
      (omega arith)

abbrev switch : MeshInterface
unfolding new_mesh_interface get_s
switch = record (new_mesh_interface 4 4 (5 ∷ [])) { rx_request = get_s ∷ [] }

-- A message from node 1 that switch 4 passes on to switch 5 is sent over their link to switch 4 again.
abbrev between : Link
unfolding slow get_s
between = record slow { id_a = 4; id_b = 5; msg = get_s }

sent_back :
    noc_deliver between (switch ∷ [])
    ≡ some (record switch { rx_request = get_s ∷ get_s ∷ [] } ∷ [])
unfolding noc_deliver between switch get_s
sent_back = refl

-- A network of the two nodes and the switch, whose topology names each edge from both sides.
abbrev network : Mesh
unfolding slow switch new_mesh_interface get_s
network = record {
  cycle = 6;
  cycle_edges = 3;
  links = record slow { id_b = 4 } ∷ [];
  interfaces = new_mesh_interface 1 4 (4 ∷ []) ∷ switch ∷ [];
}

noc_cycle-Ends_example :
    Ends
      (Passed ((4, (2, 5) ∷ []) ∷ []) network)
      (noc_cycle ((4, (2, 5) ∷ []) ∷ []) waiting_rounds network)
unfolding network
noc_cycle-Ends_example = noc_cycle-Ends ((4, (2, 5) ∷ []) ∷ []) network refl

abbrev setup : Setup
setup = record {
  arbiter_type = fcfs_arbiter;
  candidates = 1 ∷ 2 ∷ [];
  request_latency = 2;
  data_latency = 4;
}

two_links : length (initialize_links setup ((1, 2 ∷ []) ∷ (2, 1 ∷ []) ∷ []) []) ≡ 2
unfolding initialize_links add_neighbours add_link is_link_of same_link same_type new_link
two_links = refl

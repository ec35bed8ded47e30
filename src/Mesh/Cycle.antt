-- ===== src/Mesh/Cycle.antt =====
-- src/Interconnect/MeshController.cpp, Mesh.cpp and NoC.cpp: the links that a topology gives, and a cycle of
-- the mesh and of the network.
use octopus_simulator.Common.{
  Outcome, ok, exits, and_run, ℕ, suc, ◌%◌, Bool, true, false, ◌&&◌, ◌||◌, none, some, List, [],
  ◌∷◌, ◌++◌, ◌==◌, if◌then◌else◌,
}
use octopus_simulator.Message.{new_message}
use octopus_simulator.Arbiter.{new_arbiter}
use octopus_simulator.Bus.Split.{ArbiterType, fcfs_arbiter}
use octopus_simulator.Mesh.{MeshInterface}
use octopus_simulator.Mesh.Link.{LinkType, request_link, data_link, Link, Deliver, links_step}
use octopus_simulator.Mesh.Noc.{Routes, noc_deliver, switches_step}

unfoldable pub same_type : LinkType → LinkType → Bool
same_type request_link request_link = true
same_type data_link data_link = true
same_type _ _ = false

-- `operator ==`.
unfoldable pub same_link : Link → Link → Bool
unfolding same_type
same_link l k =
    (l.id_a == k.id_a && l.id_b == k.id_b && same_type l.type k.type)
    || (l.id_a == k.id_b && l.id_b == k.id_a && same_type l.type k.type)

unfoldable pub is_link_of : Link → List Link → Bool
unfolding same_link
is_link_of l [] = false
is_link_of l (k ∷ ks) = same_link k l || is_link_of l ks

unfoldable pub add_link : List Link → Link → List Link
unfolding is_link_of
add_link links l = if is_link_of l links then links else links ++ l ∷ []

-- The ids that a link's arbiter chooses from: the first-come arbiter has the link's own.
unfoldable pub arbiter_ids : ArbiterType → List ℕ → ℕ → ℕ → List ℕ
arbiter_ids fcfs_arbiter candidates a b = a ∷ b ∷ []
arbiter_ids _ candidates a b = candidates

-- What the links are built with; `candidates` are the ids of the interfaces, less those of the switches in
-- a network.
pub record Setup : Type 0 where
  pub arbiter_type : ArbiterType
  pub candidates : List ℕ
  pub request_latency : ℕ
  pub data_latency : ℕ

unfoldable pub new_link : Setup → ℕ → ℕ → LinkType → ℕ → Link
unfolding arbiter_ids new_arbiter new_message
new_link s a b type latency = record {
  id_a = a;
  id_b = b;
  type = type;
  latency = latency;
  utilization_cycle = 0;
  arbiter_type = s.arbiter_type;
  arbiter = new_arbiter (arbiter_ids s.arbiter_type s.candidates a b) latency;
  msg = new_message 0 0 0 0 0;
}

-- The two links to each neighbour of `a`.
unfoldable pub add_neighbours : Setup → ℕ → List ℕ → List Link → List Link
unfolding add_link new_link
add_neighbours s a [] links = links
add_neighbours s a (b ∷ bs) links = add_neighbours s a bs (
    add_link (add_link links (new_link s a b request_link s.request_latency))
      (new_link s a b data_link s.data_latency))

-- `initializeLinks`, over the map of the topology in the order of its ids.
unfoldable pub initialize_links : Setup → List (ℕ × List ℕ) → List Link → List Link
unfolding add_neighbours
initialize_links s [] links = links
initialize_links s ((a, bs) ∷ rows) links = initialize_links s rows (add_neighbours s a bs links)

pub record Mesh : Type 0 where
  pub cycle : ℕ
  pub cycle_edges : ℕ
  pub links : List Link
  pub interfaces : List MeshInterface

-- The step of the links, behind which the cycle has moved on.
unfoldable pub edge_step : Deliver → Mesh → Outcome Mesh
unfolding links_step
edge_step deliver m = elim (links_step deliver m.cycle m.links m.interfaces) [
  | none ↦ exits
  | some (links, interfaces) ↦
      ok (record m { cycle = suc m.cycle; links = links; interfaces = interfaces })
]

-- Mesh::cycleProcess, with the delivery of its controller.
unfoldable pub mesh_cycle : Deliver → Mesh → Outcome Mesh
unfolding edge_step
mesh_cycle deliver m =
    and_run (if m.cycle_edges % 2 == 1 then edge_step deliver m else ok m)
      (λ m'. ok (record m' { cycle_edges = suc m'.cycle_edges }))

-- NoC::cycleProcess.
unfoldable pub noc_cycle : List (ℕ × Routes) → (MeshInterface → ℕ) → Mesh → Outcome Mesh
unfolding mesh_cycle noc_deliver switches_step
noc_cycle tables rounds m = and_run (mesh_cycle noc_deliver m) (λ m'.
    if m'.cycle_edges % 2 == 0
    then and_run (switches_step tables rounds m'.interfaces)
        (λ interfaces. ok (record m' { interfaces = interfaces }))
    else ok m')

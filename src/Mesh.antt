-- ===== src/Mesh.antt =====
-- src/Interconnect/MeshInterface.cpp, MeshController.cpp, NoCInterface.cpp, NoCController.cpp and NoC.cpp: nodes
-- with one pair of buffers for each link, the links that carry one message at a time, and the switches
-- of a network on chip. `exit(0)` is `none`.
pub mod Link
pub mod Noc
pub mod Copies
pub mod Latency
pub mod Drained
pub mod Cycle
pub mod Passed
mod Tests
use octopus_simulator.Common.{
  ℕ, zero, suc, Bool, true, false, ◌&&◌, not, Option, none, some, List, [], ◌∷◌, ◌++◌, map, length,
  ltb, ◌==◌, if◌then◌else◌, is_some,
}
use octopus_simulator.Message.{Message}
use octopus_simulator.Bus.{
  Selector, neither, requests, responses, choose, choose_again, head?, tail,
}

pub record MeshInterface : Type 0 where
  pub id : ℕ
  pub selector : Selector
  pub max_size : ℕ
  pub link_ids : List ℕ
  pub tx_request : List (List Message)
  pub tx_data : List (List Message)
  pub rx_request : List Message
  pub rx_data : List Message

abbrev pub no_buffers : List ℕ → List (List Message)
no_buffers = map (λ (l : ℕ). [])

unfoldable pub new_mesh_interface : ℕ → ℕ → List ℕ → MeshInterface
new_mesh_interface id max_size link_ids = record {
  id = id;
  selector = neither;
  max_size = max_size;
  link_ids = link_ids;
  tx_request = no_buffers link_ids;
  tx_data = no_buffers link_ids;
  rx_request = [];
  rx_data = [];
}

unfoldable pub received : Selector → MeshInterface → Option Message
received neither i = none
received requests i = head? i.rx_request
received responses i = head? i.rx_data

unfoldable pub mesh_peek : MeshInterface → MeshInterface × Option Message
unfolding choose choose_again received
mesh_peek i =
    let s = choose_again (choose i.selector i.rx_request i.rx_data) i.rx_request i.rx_data in
    (record i { selector = s }, received s i)

unfoldable pub pop_received : Selector → MeshInterface → MeshInterface
pop_received neither i = i
pop_received requests i = record i { rx_request = tail i.rx_request }
pop_received responses i = record i { rx_data = tail i.rx_data }

unfoldable pub mesh_pop : MeshInterface → MeshInterface
unfolding pop_received
mesh_pop i = pop_received i.selector i

-- The copy for one destination, at the first link of that id.
unfoldable pub place_copy : List ℕ → List (List Message) → ℕ → Message → List (List Message)
place_copy [] bs link m = bs
place_copy (l ∷ ls) [] link m = []
place_copy (l ∷ ls) (b ∷ bs) link m =
    let rest = place_copy ls bs link m in if l == link then (b ++ m ∷ []) ∷ bs else b ∷ rest

-- The loop over the destinations; `route` gives the link to a destination.
unfoldable pub push_copies :
    (ℕ → ℕ) → List ℕ → List ℕ → Message → List (List Message) → List (List Message)
unfolding place_copy
push_copies route links [] m bs = bs
push_copies route links (to ∷ tos) m bs =
    push_copies route links tos m (place_copy links bs (route to) (record m { to = to ∷ [] }))

-- The end of `pushMessage` for these destinations; the size that is tested is the number of links.
unfoldable pub push_to : (ℕ → ℕ) → MeshInterface → Message → List ℕ → Option (MeshInterface × Bool)
unfolding push_copies
push_to route i m [] = none
push_to route i m (t ∷ ts) =
    if not (is_some m.payload) && ltb (length i.tx_request) i.max_size
    then some (record i { tx_request = push_copies route i.link_ids (t ∷ ts) m i.tx_request }, true)
    else if is_some m.payload && ltb (length i.tx_data) i.max_size
    then some (record i { tx_data = push_copies route i.link_ids (t ∷ ts) m i.tx_data }, true)
    else some (i, false)

unfoldable pub push_routed : (ℕ → ℕ) → MeshInterface → Message → Option (MeshInterface × Bool)
unfolding push_to
push_routed route i m = push_to route i m m.to

-- The sender and the cycle that `pushMessage` writes into the message.
abbrev pub sent_by : ℕ → ℕ → Message → Message
sent_by id cycle m =
    if cycle == 0 then record m { from = id } else record m { cycle = cycle; from = id }

unfoldable pub mesh_push : MeshInterface → Message → ℕ → Option (MeshInterface × Bool)
unfolding push_routed
mesh_push i m cycle = push_routed (λ to. to) i (sent_by i.id cycle m)

unfoldable pub mesh_push_to_rx : MeshInterface → Message → MeshInterface × Bool
mesh_push_to_rx i m =
    if not (is_some m.payload) && ltb (length i.rx_request) i.max_size
    then (record i { rx_request = i.rx_request ++ m ∷ [] }, true)
    else if is_some m.payload && ltb (length i.rx_data) i.max_size
    then (record i { rx_data = i.rx_data ++ m ∷ [] }, true)
    else (i, false)

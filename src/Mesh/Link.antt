-- ===== src/Mesh/Link.antt =====
-- src/Interconnect/MeshController.cpp and its header: a link, its election and its delivery. A link's two
-- ends are interfaces of the controller. `send` is the mesh's or the network's.
use octopus_simulator.Common.{
  ℕ, ◌+◌, ◌-◌, Bool, ◌||◌, Option, none, some, List, [], ◌∷◌, ◌++◌, ltb, ◌==◌, if◌then◌else◌,
  and_then,
}
use octopus_simulator.Message.{Message}
use octopus_simulator.Arbiter.{Arbiter}
use octopus_simulator.Bus.Split.{ArbiterType, elect}
use octopus_simulator.Mesh.{MeshInterface, mesh_push_to_rx}

pub data LinkType : Type 0 where
  request_link data_link : LinkType

pub record Link : Type 0 where
  pub id_a : ℕ
  pub id_b : ℕ
  pub type : LinkType
  pub latency : ℕ
  pub utilization_cycle : ℕ
  pub arbiter_type : ArbiterType
  pub arbiter : Arbiter
  pub msg : Message

abbrev pub is_end : Link → MeshInterface → Bool
is_end l i = i.id == l.id_a || i.id == l.id_b

-- The id of the end that `i` is not.
abbrev pub other_end : Link → MeshInterface → ℕ
other_end l i = if i.id == l.id_a then l.id_b else l.id_a

abbrev pub buffers_of : LinkType → MeshInterface → List (List Message)
buffers_of request_link i = i.tx_request
buffers_of data_link i = i.tx_data

abbrev pub with_buffers_of : LinkType → MeshInterface → List (List Message) → MeshInterface
with_buffers_of request_link i bs = record i { tx_request = bs }
with_buffers_of data_link i bs = record i { tx_data = bs }

-- The buffer of the first link of that id, as none or one.
unfoldable pub buffer_to : List ℕ → List (List Message) → ℕ → List (List Message)
buffer_to [] bs id = []
buffer_to (l ∷ ls) [] id = []
buffer_to (l ∷ ls) (b ∷ bs) id = if l == id then b ∷ [] else buffer_to ls bs id

-- The buffers with the first of `rest` in the place of that buffer, and what `rest` has left.
unfoldable pub put_buffer :
    List ℕ
    → List (List Message)
    → ℕ
    → List (List Message)
    → List (List Message) × List (List Message)
put_buffer [] bs id rest = (bs, rest)
put_buffer (l ∷ ls) [] id rest = ([], rest)
put_buffer (l ∷ ls) (b ∷ bs) id [] = (b ∷ bs, [])
put_buffer (l ∷ ls) (b ∷ bs) id (r ∷ rest) =
    let (bs', rest') = put_buffer ls bs id (r ∷ rest) in
    if l == id then (r ∷ bs, rest) else (b ∷ bs', rest')

-- `setInterfaceBuffers`: what the two ends send to one another.
unfoldable pub link_buffers : Link → List MeshInterface → List (List Message)
unfolding buffer_to
link_buffers l [] = []
link_buffers l (i ∷ is) =
    (if is_end l i then buffer_to i.link_ids (buffers_of l.type i) (other_end l i) else [])
    ++ link_buffers l is

unfoldable pub with_link_buffers :
    Link → List MeshInterface → List (List Message) → List MeshInterface
unfolding put_buffer
with_link_buffers l [] rest = []
with_link_buffers l (i ∷ is) rest =
    let (bs, rest') = put_buffer i.link_ids (buffers_of l.type i) (other_end l i) rest in
    if is_end l i
    then with_buffers_of l.type i bs ∷ with_link_buffers l is rest'
    else i ∷ with_link_buffers l is rest

-- `send` to one destination: the first interface of that id.
unfoldable pub send_to_node : List MeshInterface → Message → ℕ → Option (List MeshInterface)
unfolding mesh_push_to_rx
send_to_node [] m to = none
send_to_node (i ∷ is) m to =
    let later = send_to_node is m to in
    if i.id == to
    then (let (i', done) = mesh_push_to_rx i m in if done then some (i' ∷ is) else none)
    else and_then later (λ is'. some (i ∷ is'))

-- MeshController::send.
unfoldable pub send_to_all : List MeshInterface → Message → List ℕ → Option (List MeshInterface)
unfolding send_to_node
send_to_all is m [] = some is
send_to_all is m (to ∷ tos) = and_then (send_to_node is m to) (λ is'. send_to_all is' m tos)

abbrev pub Deliver : Type 0
Deliver = Link → List MeshInterface → Option (List MeshInterface)

unfoldable pub mesh_deliver : Deliver
unfolding send_to_all
mesh_deliver l is = send_to_all is l.msg l.msg.to

-- `utilize`; a latency is 1 at least.
unfoldable pub utilize : Link → ℕ → Message → Link
utilize l cycle m = record l { utilization_cycle = cycle + (l.latency - 1); msg = m }

abbrev pub State : Type 0
State = Link × List MeshInterface

unfoldable pub elected : ℕ → State → Arbiter × Option (Message × List (List Message)) → State
unfolding utilize with_link_buffers
elected cycle (l, is) (a, none) = (record l { arbiter = a }, is)
elected cycle (l, is) (a, some (m, rest)) =
    (utilize (record l { arbiter = a }) cycle m, with_link_buffers l is rest)

-- One round of the loop of `step`.
unfoldable pub link_step : Deliver → ℕ → State → Option State
unfolding elected link_buffers
link_step deliver cycle (l, is) =
    if ltb l.utilization_cycle cycle
    then some (elected cycle (l, is) (elect l.arbiter_type l.arbiter cycle (link_buffers l is)))
    else if l.utilization_cycle == cycle
    then and_then (deliver l is) (λ is'. some (l, is'))
    else some (l, is)

unfoldable pub links_step :
    Deliver → ℕ → List Link → List MeshInterface → Option (List Link × List MeshInterface)
unfolding link_step
links_step deliver cycle [] is = some ([], is)
links_step deliver cycle (l ∷ ls) is =
    and_then (link_step deliver cycle (l, is)) (λ (l', is').
      and_then (links_step deliver cycle ls is') (λ (ls', is''). some (l' ∷ ls', is'')))

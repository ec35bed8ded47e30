-- ===== src/Mesh/Drained.antt =====
-- NoC::cycleProcess: the loop that empties the receive buffers of a switch and pushes what was in them.
use octopus_simulator.Common.{
  Outcome, ok, exits, no_fuel, and_run, Ends, ended, exited, Ends-and_run, Ends-weaken, and_then,
  if_keeps, ap, ◌∙◌, true, false, ℕ, zero, suc, ◌+◌, ◌≤◌, ◌≡◌, refl, sym, subst, ◌⊎◌, inl, inr,
  Bool, ◌&&◌, not, Option, none, some, List, [], ◌∷◌, length, ltb, is_some, arith,
}
use octopus_simulator.Message.{Message}
use octopus_simulator.Bus.{
  Selector, neither, requests, responses, choose, choose_again, choose_response,
}
use octopus_simulator.Mesh.{
  MeshInterface, received, mesh_peek, pop_received, mesh_pop, push_to, push_routed,
}
use octopus_simulator.Mesh.Noc.{Routes, route_in, noc_push, pass_on, switch_rounds}

-- The messages that wait to be received.
abbrev waiting : MeshInterface → ℕ
waiting i = length i.rx_request + length i.rx_data

abbrev pub IsDrained : MeshInterface → Type 0
IsDrained i = (i.rx_request ≡ []) × (i.rx_data ≡ [])

-- `Interleaves xs ys zs`: `zs` has the elements of `xs` and of `ys`, both in their order.
pub data Interleaves {ℓ} {A : Type ℓ} : List A → List A → List A → Type ℓ where
  both_end : Interleaves [] [] []
  from_left : {z : A} {xs ys zs : List A} → Interleaves xs ys zs → Interleaves (z ∷ xs) ys (z ∷ zs)
  from_right : {z : A} {xs ys zs : List A} → Interleaves xs ys zs → Interleaves xs (z ∷ ys) (z ∷ zs)

-- The interface with nothing to receive, as one that has only to send.
abbrev pub sending : MeshInterface → MeshInterface
sending i = record i { selector = neither; rx_request = []; rx_data = [] }

-- Each of the messages is pushed in turn; a refusal goes unnoticed, and `none` is the exit of a push.
abbrev pub push_each : Routes → MeshInterface → List Message → Option MeshInterface
push_each routes i [] = some i
push_each routes i (m ∷ ms) = and_then (noc_push routes i m) (λ (j, done). push_each routes j ms)

-- All that `i` had received is taken out, and has been pushed towards its destinations in some order that keeps
-- that of each receive buffer, once each, with nothing else sent.
abbrev pub PassedOn : Routes → MeshInterface → MeshInterface → Type 0
PassedOn routes i k =
    IsDrained k
    × (ms : List Message) × Interleaves i.rx_request i.rx_data ms
    × (push_each routes (sending i) ms ≡ some (sending k))

-- `j` is `i` without the first message of one receive buffer.
abbrev TakesFirst : MeshInterface → Message → MeshInterface → Type 0
TakesFirst i m j =
    (sending i ≡ sending j)
    × (((i.rx_request ≡ m ∷ j.rx_request) × (i.rx_data ≡ j.rx_data))
        ⊎ ((i.rx_request ≡ j.rx_request) × (i.rx_data ≡ m ∷ j.rx_data)))

-- A peek that finds nothing, or one after which the pop takes a message out.
abbrev Peeks : MeshInterface → Type 0
Peeks i =
    (((mesh_peek i).1 ≡ none)
      × IsDrained i
      × IsDrained (mesh_peek i).0
      × (sending i ≡ sending (mesh_peek i).0))
    ⊎ ((m : Message) × ((mesh_peek i).1 ≡ some m) × TakesFirst i m (mesh_pop (mesh_peek i).0))

Peeks-cases :
    (i : MeshInterface) (s : Selector) (ms rs : List Message)
    → i.selector ≡ s
    → i.rx_request ≡ ms
    → i.rx_data ≡ rs
    → Peeks i
unfolding mesh_peek mesh_pop pop_received received choose choose_again choose_response
Peeks-cases i s [] [] e f g = inl (ground arith, (f, g), (ground arith, ground arith), refl)
Peeks-cases i s (m ∷ ms) [] e f g =
    inr (m, ground arith, (ground arith, inl (ground arith, ground arith)))
Peeks-cases i s [] (r ∷ rs) e f g =
    inr (r, ground arith, (ground arith, inr (ground arith, ground arith)))
Peeks-cases i neither (m ∷ ms) (r ∷ rs) e f g =
    inr (m, ground arith, (ground arith, inl (ground arith, ground arith)))
Peeks-cases i responses (m ∷ ms) (r ∷ rs) e f g =
    inr (m, ground arith, (ground arith, inl (ground arith, ground arith)))
Peeks-cases i requests (m ∷ ms) (r ∷ rs) e f g =
    inr (r, ground arith, (ground arith, inr (ground arith, ground arith)))

abbrev unread : Option (MeshInterface × Bool) → Outcome MeshInterface
unread o = elim o [ none ↦ exits | some (i', done) ↦ ok i' ]

-- A push leaves the receive buffers alone, and what it sends does not depend on them.
abbrev Pushed : Option (MeshInterface × Bool) → MeshInterface → MeshInterface → Type 0
Pushed pushed i k =
    (k.rx_request ≡ i.rx_request)
    × (k.rx_data ≡ i.rx_data)
    × (done : Bool) × (pushed ≡ some (sending k, done))

push_to-Ends :
    (route : ℕ → ℕ) (i : MeshInterface) (m : Message) (to : List ℕ)
    → Ends (Pushed (push_to route (sending i) m to) i) (unread (push_to route i m to))
unfolding push_to
push_to-Ends route i m [] = exited
push_to-Ends route i m (t ∷ ts) =
    if_keeps Goal (not (is_some m.payload) && ltb (length i.tx_request) i.max_size)
      (λ c. ended (refl, refl, true, rw c refl))
      (λ c.
        if_keeps Goal (is_some m.payload && ltb (length i.tx_data) i.max_size)
          (λ g. ended (refl, refl, true, rw (c, g) refl))
          (λ g. ended (refl, refl, false, rw (c, g) refl)))
  where
    Goal : Option (MeshInterface × Bool) → Type 0
    Goal o = Ends (Pushed (push_to route (sending i) m (t ∷ ts)) i) (unread o)

pass_on-Ends :
    (routes : Routes) (i : MeshInterface) (m : Message)
    → Ends (Pushed (noc_push routes (sending (mesh_pop i)) m) (mesh_pop i)) (pass_on routes i m)
unfolding pass_on noc_push push_routed
pass_on-Ends routes i m = push_to-Ends (route_in routes) (mesh_pop i) m m.to

-- The message that leaves a receive buffer comes in front of the interleaving of what stays.
taken-Interleaves :
    (i j : MeshInterface) (m : Message) (ms : List Message)
    → ((i.rx_request ≡ m ∷ j.rx_request) × (i.rx_data ≡ j.rx_data))
      ⊎ ((i.rx_request ≡ j.rx_request) × (i.rx_data ≡ m ∷ j.rx_data))
    → Interleaves j.rx_request j.rx_data ms
    → Interleaves i.rx_request i.rx_data (m ∷ ms)
taken-Interleaves i j m ms (inl (e, f)) o = rw (e, f) (from_left o)
taken-Interleaves i j m ms (inr (e, f)) o = rw (e, f) (from_right o)

-- One message taken and pushed, and then the others.
taken-PassedOn :
    (routes : Routes) (i j i' k : MeshInterface) (m : Message)
    → TakesFirst i m j
    → Pushed (noc_push routes (sending j) m) j i'
    → PassedOn routes i' k
    → PassedOn routes i k
taken-PassedOn routes i j i' k m (s, t) (e, f, done, p) (d, ms, o, q) = (
  d,
  m ∷ ms,
  taken-Interleaves i j m ms t (
      subst (λ rs. Interleaves j.rx_request rs ms) f
        (subst (λ qs. Interleaves qs i'.rx_data ms) e o)),
  ap (λ x. and_then (noc_push routes x m) (λ (x', done). push_each routes x' ms)) s
      ∙ ap (λ x. and_then x (λ (x', done). push_each routes x' ms)) p
      ∙ q,
)

taken-waiting :
    (i j i' : MeshInterface) (m : Message)
    → ((i.rx_request ≡ m ∷ j.rx_request) × (i.rx_data ≡ j.rx_data))
      ⊎ ((i.rx_request ≡ j.rx_request) × (i.rx_data ≡ m ∷ j.rx_data))
    → i'.rx_request ≡ j.rx_request
    → i'.rx_data ≡ j.rx_data
    → suc (waiting i') ≡ waiting i
taken-waiting i j i' m (inl (e, f)) g h = rw (e, f, g, h) (omega arith)
taken-waiting i j i' m (inr (e, f)) g h = rw (e, f, g, h) (omega arith)

nothing-PassedOn :
    (routes : Routes) (i k : MeshInterface)
    → IsDrained i
    → IsDrained k
    → sending i ≡ sending k
    → PassedOn routes i k
nothing-PassedOn routes i k (e, f) d s = (d, [], rw (e, f) both_end, ap (λ x. some x) s)

-- With a round for each message that waits to be received, the loop of a switch never runs short: it exits, or
-- it ends with both receive buffers empty and every message of them pushed.
pub switch_rounds-Ends :
    (n : ℕ) (routes : Routes) (i : MeshInterface)
    → length i.rx_request + length i.rx_data ≤ n
    → Ends (PassedOn routes i) (switch_rounds n routes i)
unfolding switch_rounds
switch_rounds-Ends zero routes i h =
    elim (Peeks-cases i i.selector i.rx_request i.rx_data refl refl refl) [
      | inl (e, d, d', s) ↦
          subst Goal (sym e) (ended (nothing-PassedOn routes i (mesh_peek i).0 d d' s))
      | inr (m, e, (s, t)) ↦ absurd (
          omega (
            arith,
            taken-waiting i (mesh_pop (mesh_peek i).0) (mesh_pop (mesh_peek i).0) m t refl refl,
          ))
    ]
  where
    Goal : Option Message → Type 0
    Goal o = Ends (PassedOn routes i) (elim o [ none ↦ ok (mesh_peek i).0 | some m ↦ no_fuel ])
switch_rounds-Ends (suc n) routes i h =
    elim (Peeks-cases i i.selector i.rx_request i.rx_data refl refl refl) [
      | inl (e, d, d', s) ↦
          subst Goal (sym e) (ended (nothing-PassedOn routes i (mesh_peek i).0 d d' s))
      | inr (m, e, (s, t)) ↦ subst Goal (sym e) (
          Ends-and_run (pass_on-Ends routes (mesh_peek i).0 m) (λ i' p.
            Ends-weaken (λ k. taken-PassedOn routes i (mesh_pop (mesh_peek i).0) i' k m (s, t) p)
              (switch_rounds-Ends n routes i'
                (omega (arith, taken-waiting i (mesh_pop (mesh_peek i).0) i' m t (p.0) (p.1))))))
    ]
  where
    Goal : Option Message → Type 0
    Goal o = Ends (PassedOn routes i) (elim o [
      | none ↦ ok (mesh_peek i).0
      | some m ↦ and_run (pass_on routes (mesh_peek i).0 m) (switch_rounds n routes)
    ])

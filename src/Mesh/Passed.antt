-- ===== src/Mesh/Passed.antt =====
-- NoC::cycleProcess: the switches after a cycle of the network.
use octopus_simulator.Common.{
  Outcome, ok, exits, and_run, Ends, ended, exited, Ends-and_run, if_keeps, ℕ, suc, ◌+◌, ◌%◌, ◌≡◌,
  refl, sym, subst, ap, ◌∙◌, ◌⊎◌, inl, inr, Option, none, some, List, [], ◌∷◌, length, find, ◌==◌,
  Option-cases, arith,
}
use octopus_simulator.Mesh.{MeshInterface}
use octopus_simulator.Mesh.Link.{Link, links_step}
use octopus_simulator.Mesh.Noc.{Routes, noc_deliver, switch_rounds, switches_step}
use octopus_simulator.Mesh.Drained.{PassedOn, switch_rounds-Ends}
use octopus_simulator.Mesh.Cycle.{Mesh, edge_step, mesh_cycle, noc_cycle}

-- A round of the loop for each message that waits at a switch.
abbrev pub waiting_rounds : MeshInterface → ℕ
waiting_rounds i = length i.rx_request + length i.rx_data

-- The second list has, for each switch of the first, an interface that has passed on by its table all that the
-- switch had received, and the other interfaces as they were.
abbrev pub EachPassed : List (ℕ × Routes) → List MeshInterface → List MeshInterface → Type 0
EachPassed tables [] [] = Unit
EachPassed tables (i ∷ is) (k ∷ ks) =
    (((find tables i.id ≡ none) × (k ≡ i))
      ⊎ ((routes : Routes) × (find tables i.id ≡ some routes) × PassedOn routes i k))
    × EachPassed tables is ks
EachPassed tables _ _ = ⊥

switches_step-Ends :
    (tables : List (ℕ × Routes)) (is : List MeshInterface)
    → Ends (EachPassed tables is) (switches_step tables waiting_rounds is)
unfolding switches_step
switches_step-Ends tables [] = ended tt
switches_step-Ends tables (i ∷ is) =
    let later = switches_step-Ends tables is in
    elim (Option-cases (find tables i.id)) [
      | inl e ↦
          subst (λ o. Ends (EachPassed tables (i ∷ is)) (after o)) (sym e)
            (Ends-and_run later (λ ks p. ended (inl (e, refl), p)))
      | inr (routes, e) ↦
          subst (λ o. Ends (EachPassed tables (i ∷ is)) (after o)) (sym e)
            (Ends-and_run (switch_rounds-Ends (waiting_rounds i) routes i (omega arith))
              (λ k d. Ends-and_run later (λ ks p. ended (inr (routes, e, d), p))))
    ]
  where
    after : Option Routes → Outcome (List MeshInterface)
    after o = elim o [
      | none ↦ and_run (switches_step tables waiting_rounds is) (λ ks. ok (i ∷ ks))
      | some routes ↦
          and_run (switch_rounds (waiting_rounds i) routes i)
            (λ k. and_run (switches_step tables waiting_rounds is) (λ ks. ok (k ∷ ks)))
    ]

-- A mesh after a cycle of the network in which its links have made a step.
abbrev pub Passed : List (ℕ × Routes) → Mesh → Mesh → Type 0
Passed tables m n =
    (is : List MeshInterface) × (links_step noc_deliver m.cycle m.links m.interfaces
      ≡ some (n.links, is))
    × (n.cycle ≡ suc m.cycle)
    × (n.cycle_edges ≡ suc m.cycle_edges)
    × EachPassed tables is n.interfaces

abbrev Stepped : Mesh → ℕ → Mesh → Type 0
Stepped m edges n =
    (links_step noc_deliver m.cycle m.links m.interfaces ≡ some (n.links, n.interfaces))
    × (n.cycle ≡ suc m.cycle)
    × (n.cycle_edges ≡ edges)

edge_step-Ends : (m : Mesh) → Ends (Stepped m m.cycle_edges) (edge_step noc_deliver m)
unfolding edge_step
edge_step-Ends m = elim (Option-cases (links_step noc_deliver m.cycle m.links m.interfaces)) [
  | inl e ↦ subst (λ o. Ends (Stepped m m.cycle_edges) (moved o)) (sym e) exited
  | inr ((links, interfaces), e) ↦
      subst (λ o. Ends (Stepped m m.cycle_edges) (moved o)) (sym e) (ended (e, refl, refl))
]
  where
    moved : Option (List Link × List MeshInterface) → Outcome Mesh
    moved o = elim o [
      | none ↦ exits
      | some (links, interfaces) ↦
          ok (record m { cycle = suc m.cycle; links = links; interfaces = interfaces })
    ]

next_edge-even : (n : ℕ) → n % 2 ≡ 1 → suc n % 2 ≡ 0
next_edge-even n h = omega arith

mesh_cycle-Ends :
    (m : Mesh)
    → m.cycle_edges % 2 ≡ 1
    → Ends (Stepped m (suc m.cycle_edges)) (mesh_cycle noc_deliver m)
unfolding mesh_cycle
mesh_cycle-Ends m h =
    Ends-and_run
      (if_keeps (Ends (Stepped m m.cycle_edges)) (m.cycle_edges % 2 == 1) (λ _. edge_step-Ends m)
        (λ e. absurd (ground arith)))
      (λ n p. ended (p.0, p.1, ap suc (p.2)))

-- On an odd edge a cycle of the network, with a round for each message that waits at a switch, never runs
-- short: it exits, or the links have made their step of the cycle, and the count of cycles and that of
-- edges have moved on by one. After the step each switch has emptied its receive buffers and pushed
-- every message of them once, by its table, in an order that keeps that of each buffer, and has
-- sent nothing else; no other interface has changed. A push that the switch refuses goes unnoticed.
pub noc_cycle-Ends :
    (tables : List (ℕ × Routes)) (m : Mesh)
    → m.cycle_edges % 2 ≡ 1
    → Ends (Passed tables m) (noc_cycle tables waiting_rounds m)
unfolding noc_cycle
noc_cycle-Ends tables m h = Ends-and_run (mesh_cycle-Ends m h) (λ n p.
    let even = ap (λ e. e % 2) (p.2) ∙ next_edge-even m.cycle_edges h in
    if_keeps (Ends (Passed tables m)) (n.cycle_edges % 2 == 0)
      (λ _.
        Ends-and_run (switches_step-Ends tables n.interfaces)
          (λ is q. ended (n.interfaces, p.0, p.1, p.2, q)))
      (λ e. absurd (ground arith)))

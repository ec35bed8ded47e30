-- ===== src/Arbiter/Head.antt =====
-- FCFSArbiter::elect: the oldest head of the buffers wins.
use octopus_simulator.Common.{
  ℕ, suc, ◌+◌, ◌≤◌, ◌≡◌, refl, sym, ◌⊎◌, inl, inr, none, some, List, [], ◌∷◌, get_elem?, set, All,
  ltb, arith, Bool-cases, ltb→le, subst,
}
use octopus_simulator.Common.Relations.{TakesIn, here, TakesIn-set}
use octopus_simulator.Message.{Message}
use octopus_simulator.Arbiter.{
  Best, no_best, no_cycle, improve_head, scan_heads, take_at, fcfs_elect,
}
use octopus_simulator.Arbiter.Oldest.{InOrder}
use native.Mathlib.Nat.{zero-add, add-zero, add-suc, suc-add, le_trans}

-- The head of a buffer, if it has one, was sent at cycle `c` or later.
abbrev pub HeadFrom : ℕ → List Message → Type 0
HeadFrom c [] = Unit
HeadFrom c (m ∷ buffer) = c ≤ m.cycle

abbrev pub AllFrom : ℕ → List Message → Type 0
AllFrom c buffer = All (λ (n : Message). c ≤ n.cycle) buffer

abbrev Found : List (List Message) → Best → Type 0
Found full s =
    ((s.place ≡ none) × (s.best_cycle ≡ no_cycle))
    ⊎ ((b : ℕ) × (m : Message) × (tail : List Message) × (s.place ≡ some (b, 0))
        × (get_elem? full b ≡ some (m ∷ tail))
        × (m.cycle ≡ s.best_cycle))

HeadFrom-mono : (c d : ℕ) (buffer : List Message) → d ≤ c → HeadFrom c buffer → HeadFrom d buffer
HeadFrom-mono c d [] l h = tt
HeadFrom-mono c d (m ∷ buffer) l h = omega arith

improve_head_lem :
    (full : List (List Message)) (b : List Message) (i : ℕ) (s : Best)
    → get_elem? full i ≡ some b
    → Found full s
    → Found full (improve_head b i s)
      × ((improve_head b i s).best_cycle ≤ s.best_cycle)
      × HeadFrom (improve_head b i s).best_cycle b
unfolding improve_head
improve_head_lem full [] i s at_i found = (found, omega arith, tt)
improve_head_lem full (m ∷ b) i s at_i found = elim (Bool-cases (ltb m.cycle s.best_cycle)) [
  | inl l ↦ rw l (inr (i, m, b, refl, at_i, refl), ground arith, omega arith)
  | inr l ↦ rw l (found, omega arith, ltb→le m.cycle s.best_cycle l)
]

scan_heads_lem :
    (full rest : List (List Message)) (i : ℕ) (s : Best)
    → ((j : ℕ) → get_elem? full (i + j) ≡ get_elem? rest j)
    → Found full s
    → Found full (scan_heads rest i s)
      × ((scan_heads rest i s).best_cycle ≤ s.best_cycle)
      × All (HeadFrom (scan_heads rest i s).best_cycle) rest
unfolding scan_heads
scan_heads_lem full [] i s shift found = (found, omega arith, tt)
scan_heads_lem full (b ∷ rest) i s shift found =
    let (f, l, h) = improve_head_lem full b i s at_i found in
    let (f', l', h') = scan_heads_lem full rest (suc i) (improve_head b i s) next f in
    (f', omega arith, (HeadFrom-mono _ _ b l' h, h'))
  where
    at_i : get_elem? full i ≡ some b
    at_i = rw (← add-zero i) (shift 0)

    next : (j : ℕ) → get_elem? full (suc i + j) ≡ get_elem? rest j
    next j = rw (suc-add i j, ← add-suc i j) (shift (suc j))

AllFrom-mono : (c d : ℕ) (buffer : List Message) → d ≤ c → AllFrom c buffer → AllFrom d buffer
AllFrom-mono c d [] l h = tt
AllFrom-mono c d (m ∷ buffer) l h = (le_trans l h.0, AllFrom-mono c d buffer l h.1)

HeadFrom-AllFrom :
    (c : ℕ) (buffers : List (List Message))
    → All InOrder buffers
    → All (HeadFrom c) buffers
    → All (AllFrom c) buffers
HeadFrom-AllFrom c [] o h = tt
HeadFrom-AllFrom c ([] ∷ buffers) o h = (tt, HeadFrom-AllFrom c buffers o.1 h.1)
HeadFrom-AllFrom c ((m ∷ b) ∷ buffers) o h =
    ((h.0, AllFrom-mono m.cycle c b h.0 o.0.0), HeadFrom-AllFrom c buffers o.1 h.1)

-- With every buffer in the order of its cycles, the first-come arbiter either finds no message sent
-- before the last cycle that 64 bits can count, or takes out exactly one message, leaves the others
-- in their order, and no message in any buffer is older than the one it elects.
fcfs_elect-oldest :
    (buffers : List (List Message))
    → All InOrder buffers
    → ((fcfs_elect buffers ≡ none) × All (AllFrom no_cycle) buffers)
      ⊎ ((m : Message) × (rest : List (List Message)) × (fcfs_elect buffers ≡ some (m, rest))
          × TakesIn buffers m rest
          × All (AllFrom m.cycle) buffers)
unfolding fcfs_elect take_at
fcfs_elect-oldest buffers o =
    let (f, l, h) =
      scan_heads_lem buffers buffers 0 no_best (λ j. rw zero-add) (inl (refl, refl)) in
    elim f [
      | inl (e, c) ↦ inl (
        rw (e, fcfs_elect),
        HeadFrom-AllFrom no_cycle buffers o (subst (λ x. All (HeadFrom x) buffers) c h),
      )
      | inr (b, m, tail, e, g, c) ↦ inr (
        m,
        set buffers b tail,
        rw (e, fcfs_elect, take_at, g),
        TakesIn-set buffers b (m ∷ tail) tail m g here,
        HeadFrom-AllFrom m.cycle buffers o (subst (λ x. All (HeadFrom x) buffers) (sym c) h),
      )
    ]

-- ===== src/Arbiter/Oldest.antt =====
-- Arbiter::electOldestOwned: which message an owner's slot serves.
use octopus_simulator.Common.{
  ℕ, suc, ◌+◌, ◌≤◌, ◌≡◌, refl, sym, ◌⊎◌, inl, inr, Option, none, some, List, [], ◌∷◌, get_elem?,
  set, erase_at, All, ltb, ◌==◌, and_then, arith, false, Bool-cases, subst, ◌≢◌, Option-cases,
  ==→eq, ltb→le,
}
use octopus_simulator.Common.Relations.{TakesIn, Takes-erase_at, TakesIn-set}
use octopus_simulator.Message.{Message}
use octopus_simulator.Arbiter.{
  find_message, Best, no_best, no_cycle, improve, scan_oldest, take_at, elect_oldest_owned,
}
use native.Mathlib.Nat.{zero-add, add-zero, add-suc, suc-add}

-- The message at a place.
abbrev pub at2 : List (List Message) → ℕ → ℕ → Option Message
at2 buffers b k = and_then (get_elem? buffers b) (λ buffer. get_elem? buffer k)

-- The first message of `owner` in a buffer, if there is one, was sent at cycle `c` or later.
abbrev pub FirstsFrom : ℕ → ℕ → List Message → Type 0
FirstsFrom owner c [] = Unit
FirstsFrom owner c (m ∷ buffer) =
    ((m.owner ≡ owner) × (c ≤ m.cycle)) ⊎ ((m.owner ≡ owner → ⊥) × FirstsFrom owner c buffer)

-- What the search has found so far, of a vector of buffers: nothing, or a message of the owner.
abbrev Found : List (List Message) → ℕ → Best → Type 0
Found full owner s =
    ((s.place ≡ none) × (s.best_cycle ≡ no_cycle))
    ⊎ ((b : ℕ) × (k : ℕ) × (m : Message) × (s.place ≡ some (b, k))
        × (at2 full b k ≡ some m)
        × (m.owner ≡ owner)
        × (m.cycle ≡ s.best_cycle))

FirstsFrom-mono :
    (owner c d : ℕ) (buffer : List Message)
    → d ≤ c
    → FirstsFrom owner c buffer
    → FirstsFrom owner d buffer
FirstsFrom-mono owner c d [] h f = tt
FirstsFrom-mono owner c d (m ∷ buffer) h (inl (e, l)) = inl (e, omega arith)
FirstsFrom-mono owner c d (m ∷ buffer) h (inr (e, f)) =
    inr (e, FirstsFrom-mono owner c d buffer h f)

-- `findMessage` returns the first message of the owner, or there is none.
pub find_message_lem :
    (buffer : List Message) (owner : ℕ)
    → ((find_message buffer owner ≡ none) × ((c : ℕ) → FirstsFrom owner c buffer))
      ⊎ ((k : ℕ) × (m : Message) × (find_message buffer owner ≡ some k)
          × (get_elem? buffer k ≡ some m)
          × (m.owner ≡ owner)
          × ((c : ℕ) → c ≤ m.cycle → FirstsFrom owner c buffer))
unfolding find_message
find_message_lem [] owner = inl (refl, λ c. tt)
find_message_lem (x ∷ buffer) owner = elim (Bool-cases (x.owner == owner)) [
  | inl e ↦
      rw e (inr (0, x, refl, refl, ==→eq x.owner owner e, λ c h. inl (==→eq x.owner owner e, h)))
  | inr n ↦ rw n (elim (find_message_lem buffer owner) [
    | inl (e, f) ↦ inl (rw e, λ c. inr (ne n, f c))
    | inr (k, m, e, g, o, f) ↦ inr (suc k, m, rw e, g, o, λ c h. inr (ne n, f c h))
  ])
]
  where
    ne : (x.owner == owner) ≡ false → x.owner ≡ owner → ⊥
    ne n e = ground arith

-- One round keeps what was found, never raises the best cycle, and takes the buffer into account.
improve_lem :
    (full : List (List Message)) (b : List Message) (i owner : ℕ) (s : Best)
    → get_elem? full i ≡ some b
    → Found full owner s
    → Found full owner (improve b i owner s)
      × ((improve b i owner s).best_cycle ≤ s.best_cycle)
      × FirstsFrom owner (improve b i owner s).best_cycle b
unfolding improve
improve_lem full b i owner s at_i found = elim (find_message_lem b owner) [
  | inl (e, f) ↦ rw (e, improve) (found, omega arith, f s.best_cycle)
  | inr (k, m, e, g, o, f) ↦
      rw (e, improve, g)
        (elim (Bool-cases (ltb m.cycle s.best_cycle)) [
          | inl l ↦
              rw l
                (inr (i, k, m, refl, rw (at_i, g), o, refl), ground arith, f m.cycle (omega arith))
          | inr l ↦ rw l (found, omega arith, f s.best_cycle (ltb→le m.cycle s.best_cycle l))
        ])
]

-- The rest of the buffers, which stand in the whole vector from place `i` on.
scan_oldest_lem :
    (full rest : List (List Message)) (i owner : ℕ) (s : Best)
    → ((j : ℕ) → get_elem? full (i + j) ≡ get_elem? rest j)
    → Found full owner s
    → Found full owner (scan_oldest rest i owner s)
      × ((scan_oldest rest i owner s).best_cycle ≤ s.best_cycle)
      × All (FirstsFrom owner (scan_oldest rest i owner s).best_cycle) rest
unfolding scan_oldest
scan_oldest_lem full [] i owner s shift found = (found, omega arith, tt)
scan_oldest_lem full (b ∷ rest) i owner s shift found =
    let (f, l, h) = improve_lem full b i owner s here found in
    let (f', l', h') = scan_oldest_lem full rest (suc i) owner (improve b i owner s) next f in
    (f', omega arith, (FirstsFrom-mono owner _ _ b l' h, h'))
  where
    here : get_elem? full i ≡ some b
    here = rw (← add-zero i) (shift 0)

    next : (j : ℕ) → get_elem? full (suc i + j) ≡ get_elem? rest j
    next j = rw (suc-add i j, ← add-suc i j) (shift (suc j))

take_at_lem :
    (buffers : List (List Message)) (b k : ℕ) (m : Message)
    → at2 buffers b k ≡ some m
    → (rest : List (List Message)) × (take_at buffers b k ≡ some (m, rest)) × TakesIn buffers m rest
unfolding take_at
take_at_lem buffers b k m e = elim (Option-cases (get_elem? buffers b)) [
  | inl n ↦ absurd (none≢some (rw n at e))
  | inr (buffer, g) ↦
      let e' : get_elem? buffer k ≡ some m = rw g at e in
      (
        set buffers b (erase_at buffer k),
        rw (g, e'),
        TakesIn-set buffers b buffer (erase_at buffer k) m g (Takes-erase_at buffer k m e'),
      )
]
  where
    none≢some : none ≡ some m → ⊥
    none≢some h = cc

-- The two outcomes of an election for an owner. It fails only if no buffer holds a message of the
-- owner sent before the last cycle that 64 bits can count. Otherwise it takes out one message of the
-- owner, leaves all others in their order, and no buffer's first message of the owner is older.
pub data Outcome (buffers : List (List Message)) (owner : ℕ)
    : Option (Message × List (List Message)) → Type 0 where
  nothing : All (FirstsFrom owner no_cycle) buffers → Outcome buffers owner none
  served :
      (m : Message) (rest : List (List Message))
      → m.owner ≡ owner
      → TakesIn buffers m rest
      → All (FirstsFrom owner m.cycle) buffers
      → Outcome buffers owner (some (m, rest))

pub elect_oldest_owned-Outcome :
    (buffers : List (List Message)) (owner : ℕ)
    → Outcome buffers owner (elect_oldest_owned buffers owner)
unfolding elect_oldest_owned
elect_oldest_owned-Outcome buffers owner =
    let (f, l, h) =
      scan_oldest_lem buffers buffers 0 owner no_best (λ j. rw zero-add) (inl (refl, refl)) in
    elim f [
      | inl (e, c) ↦
          rw (e, elect_oldest_owned) (nothing (subst (λ x. All (FirstsFrom owner x) buffers) c h))
      | inr (b, k, m, e, g, o, c) ↦
          let (rest, t, r) = take_at_lem buffers b k m g in
          rw (e, elect_oldest_owned, t)
            (served m rest o r (subst (λ x. All (FirstsFrom owner x) buffers) (sym c) h))
    ]

-- Each sender queues its messages in the order of their cycles.
abbrev pub InOrder : List Message → Type 0
InOrder [] = Unit
InOrder (m ∷ buffer) = All (λ n. m.cycle ≤ n.cycle) buffer × InOrder buffer

-- Every message of the owner was sent at cycle `c` or later.
abbrev pub OwnedFrom : ℕ → ℕ → List Message → Type 0
OwnedFrom owner c buffer = All (λ (n : Message). n.owner ≡ owner → c ≤ n.cycle) buffer

buffer-OwnedFrom :
    (owner c d : ℕ) (buffer : List Message)
    → c ≤ d
    → All (λ n. d ≤ n.cycle) buffer
    → OwnedFrom owner c buffer
buffer-OwnedFrom owner c d [] l h = tt
buffer-OwnedFrom owner c d (m ∷ buffer) l h =
    (λ e. omega arith, buffer-OwnedFrom owner c d buffer l h.1)

FirstsFrom-OwnedFrom :
    (owner c : ℕ) (buffer : List Message)
    → InOrder buffer
    → FirstsFrom owner c buffer
    → OwnedFrom owner c buffer
FirstsFrom-OwnedFrom owner c [] o f = tt
FirstsFrom-OwnedFrom owner c (m ∷ buffer) o (inl (e, l)) =
    (λ e'. l, buffer-OwnedFrom owner c m.cycle buffer l o.0)
FirstsFrom-OwnedFrom owner c (m ∷ buffer) o (inr (n, f)) =
    (λ e. absurd (n e), FirstsFrom-OwnedFrom owner c buffer o.1 f)

All-OwnedFrom :
    (owner c : ℕ) (buffers : List (List Message))
    → All InOrder buffers
    → All (FirstsFrom owner c) buffers
    → All (OwnedFrom owner c) buffers
All-OwnedFrom owner c [] o f = tt
All-OwnedFrom owner c (b ∷ buffers) o f =
    (FirstsFrom-OwnedFrom owner c b o.0 f.0, All-OwnedFrom owner c buffers o.1 f.1)

-- If every buffer is in the order of its cycles, the message elected for an owner is the owner's,
-- leaves the buffers as the only one, and no message of the owner in any buffer is older.
pub elect_oldest_owned-oldest :
    (buffers : List (List Message)) (owner : ℕ) (m : Message) (rest : List (List Message))
    → All InOrder buffers
    → elect_oldest_owned buffers owner ≡ some (m, rest)
    → (m.owner ≡ owner) × TakesIn buffers m rest × All (OwnedFrom owner m.cycle) buffers
elect_oldest_owned-oldest buffers owner m rest o e =
    from (elect_oldest_owned buffers owner) e (elect_oldest_owned-Outcome buffers owner)
  where
    from :
        (r : Option (Message × List (List Message)))
        → r ≡ some (m, rest)
        → Outcome buffers owner r
        → (m.owner ≡ owner) × TakesIn buffers m rest × All (OwnedFrom owner m.cycle) buffers
    from none e' (nothing f) = cc
    from (some (x, y)) e' (served m' rest' w t f) =
        subst
          (λ ((x, y) : Message × List (List Message)).
            (x.owner ≡ owner) × TakesIn buffers x y × All (OwnedFrom owner x.cycle) buffers)
          (cc) (w, t, All-OwnedFrom owner m'.cycle buffers o f)

-- If some buffer in order holds a message of the owner that was sent before the last cycle, the
-- owner's election succeeds.
elect_oldest_owned-some :
    (buffers : List (List Message)) (owner : ℕ)
    → All InOrder buffers
    → (All (OwnedFrom owner no_cycle) buffers → ⊥)
    → elect_oldest_owned buffers owner ≢ none
elect_oldest_owned-some buffers owner o p e =
    from (elect_oldest_owned buffers owner) e (elect_oldest_owned-Outcome buffers owner)
  where
    from : (r : Option (Message × List (List Message))) → r ≡ none → Outcome buffers owner r → ⊥
    from none e' (nothing f) = p (All-OwnedFrom owner no_cycle buffers o f)
    from (some (x, y)) e' (served m rest w t f) = cc

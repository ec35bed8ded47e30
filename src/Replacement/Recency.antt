-- ===== src/Replacement/Recency.antt =====
-- LeastRecentlyUsed over a history of accesses: `update` for each access, then a victim.
use octopus_simulator.Common.{
  ℕ, ◌≤◌, ◌<◌, ◌≡◌, refl, ap, sym, ◌∙◌, subst, inl, inr, true, false, ◌&&◌, some, List, [], ◌∷◌,
  length, ltb, ==→eq, ◌==◌, if◌then◌else◌, arith, Bool-cases,
}
use mathlib.Core.Path.{fun_ext}
use octopus_simulator.Replacement.{Lru, has_bit, stamp_at, stamps_of, lru_update, lru_candidate}
use octopus_simulator.Replacement.Oldest.{IsOldest, lru_candidate-IsOldest}
use octopus_simulator.Replacement.Stamps.{place_of, Recorded, lru_update-Recorded}

-- An access to a way of a set in a cycle.
pub record Access : Type 0 where
  pub set : ℕ
  pub way : ℕ
  pub cycle : ℕ

-- The policy after a history whose latest access stands first.
abbrev pub replay : List Access → Lru
replay [] = []
replay (x ∷ history) = lru_update (replay history) x.set (some x.way) x.cycle

-- The cycle of the latest access to a way, 0 for a way with none.
abbrev pub last_access : List Access → ℕ → ℕ → ℕ
last_access [] s way = 0
last_access (x ∷ history) s way =
    let earlier = last_access history s way in
    if x.set == s && (x.way == way) then x.cycle else earlier

-- No access goes to a way of a set before every way below it has been accessed.
abbrev pub FillsInTurn : List Access → Type 0
FillsInTurn [] = Unit
FillsInTurn (x ∷ history) =
    (x.way ≤ length (stamps_of (replay history) x.set)) × FillsInTurn history

place_of-le : (stamps : List ℕ) (way : ℕ) → way ≤ length stamps → place_of stamps way ≡ way
place_of-le stamps way h = elim (Bool-cases (ltb way (length stamps))) [
  | inl e ↦ rw e refl
  | inr e ↦ rw e (ground arith)
]

-- With the ways filled in turn, the stamp of each way is the cycle of its latest access.
stamp_at-last_access :
    (history : List Access) (s i : ℕ)
    → FillsInTurn history
    → stamp_at (stamps_of (replay history) s) i ≡ last_access history s i
unfolding stamps_of
stamp_at-last_access [] s i f = refl
stamp_at-last_access (x ∷ history) s i (l, f) = elim (Bool-cases (x.set == s)) [
  | inr e ↦
      ap (λ stamps. stamp_at stamps i) (recorded.1 s e)
      ∙ stamp_at-last_access history s i f
      ∙ rw e refl
  | inl e ↦ elim (Bool-cases (x.way == i)) [
    | inl g ↦
        subst (λ t. stamp_at (stamps_of (replay (x ∷ history)) t) i ≡ x.cycle) (==→eq _ _ e)
          (subst (λ w. stamp_at (stamps_of (replay (x ∷ history)) x.set) w ≡ x.cycle)
            (place ∙ ==→eq _ _ g) (recorded.0.0))
        ∙ rw (e, g) refl
    | inr g ↦
        subst
          (λ t.
            stamp_at (stamps_of (replay (x ∷ history)) t) i
            ≡ stamp_at (stamps_of (replay history) t) i)
          (==→eq _ _ e) (recorded.0.1 i (λ q. absurd (differs g (sym (q ∙ place)))))
        ∙ stamp_at-last_access history s i f
        ∙ rw (e, g) refl
  ]
]
  where
    recorded :
        Recorded
          (stamps_of (replay history) x.set)
          (place_of (stamps_of (replay history) x.set) x.way)
          x.cycle
          (stamps_of (replay (x ∷ history)) x.set)
        × ((t : ℕ)
            → (x.set == t) ≡ false
            → stamps_of (replay (x ∷ history)) t ≡ stamps_of (replay history) t)
    recorded = lru_update-Recorded (replay history) x.set x.way x.cycle

    place : place_of (stamps_of (replay history) x.set) x.way ≡ x.way
    place = place_of-le (stamps_of (replay history) x.set) x.way l

    differs : (x.way == i) ≡ false → x.way ≡ i → ⊥
    differs g q = ground arith

-- After any history of accesses in which no access goes to a way of a set before every way below it has been
-- accessed: if some way is allowed, the LRU victim is an allowed way, no allowed way's latest access is
-- in an earlier cycle than the victim's, and the victim is the first such way; a way without an access
-- counts as accessed at cycle 0.
pub lru_candidate-least_recent :
    (history : List Access) (ways s allowed i : ℕ)
    → FillsInTurn history
    → i < ways
    → has_bit allowed i ≡ true
    → IsOldest
        (has_bit allowed)
        (last_access history s)
        ways
        (lru_candidate (replay history) ways s allowed)
lru_candidate-least_recent history ways s allowed i f h k =
    subst
      (λ age. IsOldest (has_bit allowed) age ways (lru_candidate (replay history) ways s allowed))
      (fun_ext (λ way. stamp_at-last_access history s way f))
      (lru_candidate-IsOldest (replay history) ways s allowed i h k)

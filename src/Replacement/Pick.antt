-- ===== src/Replacement/Pick.antt =====
-- Random: the victim is the allowed way whose number among the allowed ways is the one drawn.
use octopus_simulator.Common.{
  ℕ, zero, suc, ◌+◌, ◌-◌, ◌≤◌, ◌<◌, ◌%◌, ◌≡◌, refl, ap, ◌∙◌, inl, inr, Bool, true, false, ◌&&◌,
  some, arith, Bool-cases, ◌==◌, if◌then◌else◌,
}
use octopus_simulator.Replacement.{has_bit, count_from, pick_from, random_candidate}

-- `w` is the allowed way with `k` allowed ways before it, among the `left` ways from `i` on.
abbrev pub IsNumber : ℕ → ℕ → ℕ → ℕ → ℕ → Type 0
IsNumber allowed k i left w =
    (i ≤ w) × (w < i + left) × (has_bit allowed w ≡ true) × (count_from allowed i (w - i) ≡ k)

Picked : ℕ → ℕ → ℕ → ℕ → Type 0
Picked allowed k i left =
    (w : ℕ) × (pick_from allowed k i left ≡ some w) × IsNumber allowed k i left w

count_from-step :
    (allowed i left : ℕ) (b : Bool)
    → has_bit allowed i ≡ b
    → count_from allowed i (suc left) ≡ (if b then 1 else 0) + count_from allowed (suc i) left
unfolding count_from
count_from-step allowed i left b h = rw h refl

count_from-back :
    (allowed i w : ℕ) (b : Bool)
    → has_bit allowed i ≡ b
    → suc i ≤ w
    → count_from allowed i (w - i) ≡ (if b then 1 else 0) + count_from allowed (suc i) (w - suc i)
count_from-back allowed i w b h l =
    ap (count_from allowed i) place ∙ count_from-step allowed i (w - suc i) b h
  where
    place : w - i ≡ suc (w - suc i)
    place = omega arith

pick_from-step :
    (allowed k i left : ℕ) (b : Bool)
    → has_bit allowed i ≡ b
    → pick_from allowed k i (suc left)
      ≡ (if b && (k == 0) then some i else pick_from allowed (if b then k - 1 else k) (suc i) left)
unfolding pick_from
pick_from-step allowed k i left b h = rw h refl

otherwise-ap :
    (allowed i left k m : ℕ) (c : Bool)
    → c ≡ false
    → m ≡ k
    → (if c then some i else pick_from allowed m (suc i) left) ≡ pick_from allowed k (suc i) left
otherwise-ap allowed i left k m c e f = rw (e, f) refl

pick_from-passed :
    (allowed k i left : ℕ)
    → has_bit allowed i ≡ true
    → pick_from allowed (suc k) i (suc left) ≡ pick_from allowed k (suc i) left
pick_from-passed allowed k i left b =
    pick_from-step allowed (suc k) i left true b
    ∙ otherwise-ap allowed i left k (suc k - 1) (suc k == 0) (ground arith) (omega arith)

module _ (allowed i left : ℕ) where
  skipped-Picked :
      (k : ℕ)
      → has_bit allowed i ≡ false
      → Picked allowed k (suc i) left
      → Picked allowed k i (suc left)
  unfolding Picked
  skipped-Picked k b (w, e, (l, m, h, c)) = (
    w,
    pick_from-step allowed k i left false b ∙ e,
    (omega arith, omega arith, h, omega (arith, c, count_from-back allowed i w false b l)),
  )

  found-Picked : has_bit allowed i ≡ true → Picked allowed 0 i (suc left)
  unfolding Picked count_from
  found-Picked b = (
    i,
    pick_from-step allowed 0 i left true b,
    (omega arith, omega arith, b, ap (count_from allowed i) nothing),
  )
    where
      nothing : i - i ≡ 0
      nothing = omega arith

  passed-Picked :
      (k : ℕ)
      → has_bit allowed i ≡ true
      → Picked allowed k (suc i) left
      → Picked allowed (suc k) i (suc left)
  unfolding Picked
  passed-Picked k b (w, e, (l, m, h, c)) = (
    w,
    pick_from-passed allowed k i left b ∙ e,
    (omega arith, omega arith, h, omega (arith, c, count_from-back allowed i w true b l)),
  )

pick_from-Picked : (allowed k i left : ℕ) → k < count_from allowed i left → Picked allowed k i left
unfolding count_from
pick_from-Picked allowed k i zero h = absurd (none_left h)
  where
    none_left : k < count_from allowed i zero → ⊥
    none_left g = elim g [ ]
pick_from-Picked allowed zero i (suc left) h = elim (Bool-cases (has_bit allowed i)) [
  | inl b ↦ found-Picked allowed i left b
  | inr b ↦ skipped-Picked allowed i left 0 b (
      pick_from-Picked allowed 0 (suc i) left
        (omega (arith, h, count_from-step allowed i left false b)))
]
pick_from-Picked allowed (suc k) i (suc left) h = elim (Bool-cases (has_bit allowed i)) [
  | inl b ↦ passed-Picked allowed i left k b (
      pick_from-Picked allowed k (suc i) left
        (omega (arith, h, count_from-step allowed i left true b)))
  | inr b ↦ skipped-Picked allowed i left (suc k) b (
      pick_from-Picked allowed (suc k) (suc i) left
        (omega (arith, h, count_from-step allowed i left false b)))
]

-- If some way below `ways` is allowed, the random policy returns a way, and it is the allowed way
-- with `rand() % n` allowed ways before it, where `n` is the number of allowed ways.
random_candidate-IsNumber :
    (rand ways allowed : ℕ)
    → 0 < count_from allowed 0 ways
    → (w : ℕ) × (random_candidate rand ways allowed ≡ some w)
      × IsNumber allowed (rand % count_from allowed 0 ways) 0 ways w
unfolding random_candidate Picked
random_candidate-IsNumber rand ways allowed h =
    draw (pick_from-Picked allowed (rand % count_from allowed 0 ways) 0 ways (omega arith))
  where
    some_allowed : (count_from allowed 0 ways == 0) ≡ false
    some_allowed = ground arith

    draw :
        Picked allowed (rand % count_from allowed 0 ways) 0 ways
        → (w : ℕ) × (random_candidate rand ways allowed ≡ some w)
          × IsNumber allowed (rand % count_from allowed 0 ways) 0 ways w
    draw (w, e, n) = (w, rw some_allowed e, n)

-- ===== src/Cache/Loops.antt =====
-- The loops over the ways of a set: what the way they return says about the others.
use octopus_simulator.Common.{
  ℕ, zero, suc, ◌+◌, ◌≤◌, ◌<◌, ◌≡◌, ◌≢◌, refl, ap, sym, ◌∙◌, subst, inl, inr, Bool, true, false,
  none, some, ==→eq, ◌==◌, if◌then◌else◌, arith, Bool-cases,
}
use octopus_simulator.Cache.Array.{first_way}

-- `w` is the first of the `left` ways from `i` on with `ok`.
abbrev pub IsFirst : (ℕ → Bool) → ℕ → ℕ → ℕ → Type 0
IsFirst ok i left w =
    (i ≤ w) × (w < i + left) × (ok w ≡ true) × ((j : ℕ) → i ≤ j → j < w → ok j ≡ false)

first_way-step :
    (ok : ℕ → Bool) (i left : ℕ) (b : Bool)
    → ok i ≡ b
    → first_way ok i (suc left) ≡ (if b then some i else first_way ok (suc i) left)
unfolding first_way
first_way-step ok i left b e = rw e refl

pub first_way-IsFirst :
    (ok : ℕ → Bool) (i left w : ℕ) → first_way ok i left ≡ some w → IsFirst ok i left w
unfolding first_way
first_way-IsFirst ok i zero w e = cc
first_way-IsFirst ok i (suc left) w e = elim (Bool-cases (ok i)) [
  | inl b ↦ here b (sym (first_way-step ok i left true b) ∙ e)
  | inr b ↦
      there b (first_way-IsFirst ok (suc i) left w (sym (first_way-step ok i left false b) ∙ e))
]
  where
    here : ok i ≡ true → some i ≡ some w → IsFirst ok i (suc left) w
    here b f = (
      omega (arith, same),
      omega (arith, same),
      subst (λ x. ok x ≡ true) same b,
      λ j l m. absurd (omega (arith, same)),
    )
      where
        same : i ≡ w
        same = cc

    there : ok i ≡ false → IsFirst ok (suc i) left w → IsFirst ok i (suc left) w
    there b (l, m, o, f) = (
      omega arith,
      omega arith,
      o,
      λ j g k. elim (Bool-cases (i == j)) [
        | inl q ↦ subst (λ x. ok x ≡ false) (==→eq i j q) b
        | inr q ↦ f j (ground arith) k
      ],
    )

-- Two tests that agree on the ways of the loop find the same way.
pub first_way-congruent :
    (p q : ℕ → Bool) (i left : ℕ)
    → ((w : ℕ) → i ≤ w → w < i + left → p w ≡ q w)
    → first_way p i left ≡ first_way q i left
unfolding first_way
first_way-congruent p q i zero h = refl
first_way-congruent p q i (suc left) h =
    first_way-step p i left (p i) refl
    ∙ ap (λ b. if b then some i else first_way p (suc i) left) (h i (omega arith) (omega arith))
    ∙ ap (λ o. if q i then some i else o)
        (first_way-congruent p q (suc i) left (λ w l m. h w (omega arith) (omega arith)))
    ∙ sym (first_way-step q i left (q i) refl)

pub first_way-none :
    (ok : ℕ → Bool) (i left w : ℕ)
    → first_way ok i left ≡ none
    → i ≤ w
    → w < i + left
    → ok w ≡ false
first_way-none ok i zero w e l m = absurd (omega arith)
first_way-none ok i (suc left) w e l m = elim (Bool-cases (ok i)) [
  | inl b ↦ absurd (clash (sym (first_way-step ok i left true b) ∙ e))
  | inr b ↦ elim (Bool-cases (i == w)) [
    | inl q ↦ subst (λ x. ok x ≡ false) (==→eq i w q) b
    | inr q ↦
        first_way-none ok (suc i) left w (sym (first_way-step ok i left false b) ∙ e) (ground arith)
          (omega arith)
  ]
]
  where
    clash : some i ≡ none → ⊥
    clash f = cc

-- A loop whose test holds for one way only finds that way.
pub first_way-only :
    (ok : ℕ → Bool) (i left w : ℕ)
    → i ≤ w
    → w < i + left
    → ok w ≡ true
    → ((j : ℕ) → j < i + left → j ≢ w → ok j ≡ false)
    → first_way ok i left ≡ some w
first_way-only ok i zero w l m o f = absurd (omega arith)
first_way-only ok i (suc left) w l m o f = elim (Bool-cases (i == w)) [
  | inl q ↦
      first_way-step ok i left true (subst (λ x. ok x ≡ true) (sym (==→eq i w q)) o)
      ∙ ap some (==→eq i w q)
  | inr q ↦
      first_way-step ok i left false (f i (omega arith) (ground arith))
      ∙ first_way-only ok (suc i) left w (ground arith) (omega arith) o (λ j k. f j (omega arith))
]

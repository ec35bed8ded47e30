-- ===== src/Replacement/Oldest.antt =====
-- LeastRecentlyUsed: the victim is allowed and has the smallest stamp.
use octopus_simulator.Common.{
  ℕ, zero, suc, ◌≤◌, ◌<◌, ◌≡◌, refl, ap, sym, ◌∙◌, ◌⊎◌, inl, inr, Bool, true, false, ◌&&◌, Option,
  none, some, List, ltb, arith, Bool-cases, ltb→lt, ltb→le, lt_suc_cases, if◌then◌else◌, subst,
}
use octopus_simulator.Replacement.{
  Lru, has_bit, stamp_at, stamps_of, Victim, beats, consider_below, lru_candidate,
}

-- `w` is the first of the ways below `n` with the smallest stamp among those that `ok` admits.
abbrev pub IsOldest : (ℕ → Bool) → (ℕ → ℕ) → ℕ → ℕ → Type 0
IsOldest ok stamp n w =
    (w < n)
    × (ok w ≡ true)
    × ((i : ℕ) → i < n → ok i ≡ true → stamp w ≤ stamp i)
    × ((i : ℕ) → i < w → ok i ≡ true → stamp w < stamp i)

abbrev Considered : List ℕ → ℕ → ℕ → Victim → Type 0
Considered stamps allowed n v =
    ((v.way ≡ none) × ((i : ℕ) → i < n → has_bit allowed i ≡ false))
    ⊎ ((w : ℕ) × (v.way ≡ some w)
        × (v.best ≡ stamp_at stamps w)
        × IsOldest (has_bit allowed) (stamp_at stamps) n w)

module _ (stamps : List ℕ) (allowed n : ℕ) where
  skip-Considered :
      (v : Victim)
      → has_bit allowed n ≡ false
      → Considered stamps allowed n v
      → Considered stamps allowed (suc n) v
  skip-Considered v b (inl (e, f)) = inl (
    e,
    λ i h. elim (lt_suc_cases i n h) [
      | inl l ↦ f i l
      | inr q ↦ subst (λ x. has_bit allowed x ≡ false) (sym q) b
    ],
  )
  skip-Considered v b (inr (w, e, s, (l, o, le, lt))) = inr (
    w,
    e,
    s,
    (
      omega arith,
      o,
      (λ i h k. elim (lt_suc_cases i n h) [
        | inl m ↦ le i m k
        | inr q ↦ absurd (false≢ (subst (λ x. has_bit allowed x ≡ true) q k))
      ]),
      lt,
    ),
  )
    where
      false≢ : has_bit allowed n ≡ true → ⊥
      false≢ t = cc

  first-Considered :
      has_bit allowed n ≡ true
      → ((i : ℕ) → i < n → has_bit allowed i ≡ false)
      → Considered stamps allowed (suc n) (record { way = some n; best = stamp_at stamps n })
  first-Considered b f = inr (
    n,
    refl,
    refl,
    (
      omega arith,
      b,
      λ i h k. elim (lt_suc_cases i n h) [
        | inl m ↦ absurd (clash i k (f i m))
        | inr q ↦ subst (λ x. stamp_at stamps n ≤ stamp_at stamps x) (sym q) (omega arith)
      ],
      λ i h k. absurd (clash i k (f i h)),
    ),
  )
    where
      clash : (i : ℕ) → has_bit allowed i ≡ true → has_bit allowed i ≡ false → ⊥
      clash i t u = cc

  newer-Considered :
      (w : ℕ)
      → has_bit allowed n ≡ true
      → stamp_at stamps n < stamp_at stamps w
      → IsOldest (has_bit allowed) (stamp_at stamps) n w
      → Considered stamps allowed (suc n) (record { way = some n; best = stamp_at stamps n })
  newer-Considered w b s (l, o, le, lt) = inr (
    n,
    refl,
    refl,
    (
      omega arith,
      b,
      λ i h k. elim (lt_suc_cases i n h) [
        | inl m ↦ omega (arith, le i m k)
        | inr q ↦ subst (λ x. stamp_at stamps n ≤ stamp_at stamps x) (sym q) (omega arith)
      ],
      λ i h k. omega (arith, le i h k),
    ),
  )

  older-Considered :
      (v : Victim) (w : ℕ)
      → v.way ≡ some w
      → v.best ≡ stamp_at stamps w
      → stamp_at stamps w ≤ stamp_at stamps n
      → IsOldest (has_bit allowed) (stamp_at stamps) n w
      → Considered stamps allowed (suc n) v
  older-Considered v w e f s (l, o, le, lt) = inr (
    w,
    e,
    f,
    (
      omega arith,
      o,
      λ i h k. elim (lt_suc_cases i n h) [
        | inl m ↦ le i m k
        | inr q ↦ subst (λ x. stamp_at stamps w ≤ stamp_at stamps x) (sym q) s
      ],
      lt,
    ),
  )

  beats-way :
      (v : Victim) (way : Option ℕ) (b : Bool)
      → v.way ≡ way
      → elim way [ none ↦ true | some w ↦ ltb (stamp_at stamps n) v.best ] ≡ b
      → beats (stamp_at stamps n) v ≡ b
  beats-way v way b e f =
      ap (λ o. elim o [ none ↦ true | some w ↦ ltb (stamp_at stamps n) v.best ]) e ∙ f

  chosen : (v : Victim) → Bool → Victim
  chosen v b = if b then record { way = some n; best = stamp_at stamps n } else v

  consider-Considered :
      (v : Victim) (b : Bool)
      → has_bit allowed n ≡ b
      → Considered stamps allowed n v
      → Considered stamps allowed (suc n) (
          if b && beats (stamp_at stamps n) v
          then record { way = some n; best = stamp_at stamps n }
          else v)
  unfolding chosen
  consider-Considered v false b c = skip-Considered v b c
  consider-Considered v true b (inl (e, f)) =
      subst (λ c. Considered stamps allowed (suc n) (chosen v c))
        (sym (beats-way v none true e refl)) (first-Considered b f)
  consider-Considered v true b (inr (w, e, s, o)) =
      elim (Bool-cases (ltb (stamp_at stamps n) v.best)) [
        | inl l ↦
            subst (λ c. Considered stamps allowed (suc n) (chosen v c))
              (sym (beats-way v (some w) true e l))
              (newer-Considered w b (omega (arith, s, ltb→lt _ _ l)) o)
        | inr l ↦
            subst (λ c. Considered stamps allowed (suc n) (chosen v c))
              (sym (beats-way v (some w) false e l))
              (older-Considered v w e s (omega (arith, s, ltb→le _ _ l)) o)
      ]

consider_below-Considered :
    (stamps : List ℕ) (allowed n : ℕ)
    → Considered stamps allowed n (consider_below stamps allowed n)
unfolding consider_below
consider_below-Considered stamps allowed zero = inl (refl, λ i h. elim h [ ])
consider_below-Considered stamps allowed (suc n) =
    consider-Considered stamps allowed n (consider_below stamps allowed n) (has_bit allowed n) refl
      (consider_below-Considered stamps allowed n)

-- If some way is allowed, the LRU victim is the first allowed way with the smallest stamp; a place
-- without a stamp counts as 0.
pub lru_candidate-IsOldest :
    (lru : Lru) (ways s allowed i : ℕ)
    → i < ways
    → has_bit allowed i ≡ true
    → IsOldest
        (has_bit allowed)
        (stamp_at (stamps_of lru s))
        ways
        (lru_candidate lru ways s allowed)
unfolding lru_candidate
lru_candidate-IsOldest lru ways s allowed i h k =
    elim (consider_below-Considered (stamps_of lru s) allowed ways) [
      | inl (e, f) ↦ absurd (clash (f i h))
      | inr (w, e, _, o) ↦ rw (e, lru_candidate) o
    ]
  where
    clash : has_bit allowed i ≡ false → ⊥
    clash u = cc

-- ===== src/Bus/Triple/Merge.antt =====
-- Numbered entries of two channels, each in the order of its numbers, as one queue.
use octopus_simulator.Common.{
  ℕ, suc, ◌≡◌, ◌≤◌, ◌<◌, refl, ap, ◌∙◌, List, [], ◌∷◌, ◌++◌, length, All, if_keeps, ltb,
  if◌then◌else◌, arith,
}

module _ {A : Type 0} where
  -- Every entry is numbered by `now` at most, and the numbers go up.
  abbrev pub Rising : ℕ → List (ℕ × A) → Type 0
  Rising now [] = Unit
  Rising now (e ∷ es) = (e.0 ≤ now) × All (λ (x : ℕ × A). e.0 < x.0) es × Rising now es

  -- An entry goes in front of the first one with a later number.
  unfoldable pub place : ℕ × A → List (ℕ × A) → List (ℕ × A)
  place e [] = e ∷ []
  place e (x ∷ xs) = let rest = place e xs in if ltb e.0 x.0 then e ∷ x ∷ xs else x ∷ rest

  unfoldable pub merge : List (ℕ × A) → List (ℕ × A) → List (ℕ × A)
  unfolding place
  merge rs [] = rs
  merge rs (s ∷ ss) = place s (merge rs ss)

  place-first :
      (e : ℕ × A) (xs : List (ℕ × A)) → All (λ (x : ℕ × A). e.0 < x.0) xs → place e xs ≡ e ∷ xs
  unfolding place
  place-first e [] h = refl
  place-first e (x ∷ xs) h = ground (arith, h.0)

  place-last :
      (e : ℕ × A) (xs : List (ℕ × A))
      → All (λ (x : ℕ × A). x.0 < e.0) xs
      → place e xs ≡ xs ++ e ∷ []
  unfolding place
  place-last e [] h = refl
  place-last e (x ∷ xs) h = ground (arith, h.0, place-last e xs h.1)

  place-append :
      (s e : ℕ × A) (xs : List (ℕ × A)) → s.0 < e.0 → place s (xs ++ e ∷ []) ≡ place s xs ++ e ∷ []
  unfolding place
  place-append s e [] h = ground arith
  place-append s e (x ∷ xs) h = ground (arith, place-append s e xs h)

  place-All :
      (P : ℕ × A → Type 0) (e : ℕ × A) (xs : List (ℕ × A)) → P e → All P xs → All P (place e xs)
  unfolding place
  place-All P e [] p h = (p, h)
  place-All P e (x ∷ xs) p h =
      if_keeps (All P) (ltb e.0 x.0) (λ _. (p, h)) (λ _. (h.0, place-All P e xs p h.1))

  pub merge-All :
      (P : ℕ × A → Type 0) (rs ss : List (ℕ × A)) → All P rs → All P ss → All P (merge rs ss)
  unfolding merge
  merge-All P rs [] h k = h
  merge-All P rs (s ∷ ss) h k = place-All P s (merge rs ss) k.0 (merge-All P rs ss h k.1)

  -- A service entry that is earlier than everything else is first.
  pub merge-service :
      (s : ℕ × A) (rs ss : List (ℕ × A))
      → All (λ (x : ℕ × A). s.0 < x.0) rs
      → All (λ (x : ℕ × A). s.0 < x.0) ss
      → merge rs (s ∷ ss) ≡ s ∷ merge rs ss
  unfolding merge
  merge-service s rs ss h k =
      place-first s (merge rs ss) (merge-All (λ (x : ℕ × A). s.0 < x.0) rs ss h k)

  -- A request that no service entry comes before is first.
  pub merge-request :
      (r : ℕ × A) (rs ss : List (ℕ × A))
      → All (λ (x : ℕ × A). r.0 ≤ x.0) ss
      → merge (r ∷ rs) ss ≡ r ∷ merge rs ss
  unfolding merge place
  merge-request r rs [] h = refl
  merge-request r rs (s ∷ ss) h = ap (place s) (merge-request r rs ss h.1) ∙ ground (arith, h.0)

  -- A last entry of either channel is the last of the queue.
  pub merge-last_service :
      (e : ℕ × A) (rs ss : List (ℕ × A))
      → All (λ (x : ℕ × A). x.0 < e.0) rs
      → All (λ (x : ℕ × A). x.0 < e.0) ss
      → merge rs (ss ++ e ∷ []) ≡ merge rs ss ++ e ∷ []
  unfolding merge
  merge-last_service e rs [] h k = place-last e rs h
  merge-last_service e rs (s ∷ ss) h k =
      ap (place s) (merge-last_service e rs ss h k.1) ∙ place-append s e (merge rs ss) k.0

  pub merge-last_request :
      (e : ℕ × A) (rs ss : List (ℕ × A))
      → All (λ (x : ℕ × A). x.0 < e.0) ss
      → merge (rs ++ e ∷ []) ss ≡ merge rs ss ++ e ∷ []
  unfolding merge
  merge-last_request e rs [] k = refl
  merge-last_request e rs (s ∷ ss) k =
      ap (place s) (merge-last_request e rs ss k.1) ∙ place-append s e (merge rs ss) k.0

  pub Rising-later : (n : ℕ) (es : List (ℕ × A)) → Rising n es → Rising (suc n) es
  Rising-later n [] h = h
  Rising-later n (e ∷ es) h = (omega (arith, h.0), h.1, Rising-later n es h.2)

  pub Rising-below : (n : ℕ) (es : List (ℕ × A)) → Rising n es → All (λ (x : ℕ × A). x.0 < suc n) es
  Rising-below n [] h = h
  Rising-below n (e ∷ es) h = (omega (arith, h.0), Rising-below n es h.2)

  pub All-last :
      (P : ℕ × A → Type 0) (es : List (ℕ × A)) (e : ℕ × A) → All P es → P e → All P (es ++ e ∷ [])
  All-last P [] e h p = (p, h)
  All-last P (x ∷ es) e h p = (h.0, All-last P es e h.1 p)

  pub All-weaken :
      (P Q : ℕ × A → Type 0) (es : List (ℕ × A)) → ((e : ℕ × A) → P e → Q e) → All P es → All Q es
  All-weaken P Q [] f h = h
  All-weaken P Q (x ∷ es) f h = (f x h.0, All-weaken P Q es f h.1)

  pub Rising-last :
      (n : ℕ) (es : List (ℕ × A)) (m : A) → Rising n es → Rising (suc n) (es ++ (suc n, m) ∷ [])
  Rising-last n [] m h = (omega arith, h, h)
  Rising-last n (e ∷ es) m h = (
    omega (arith, h.0),
    All-last (λ (x : ℕ × A). e.0 < x.0) es (suc n, m) h.1 (omega (arith, h.0)),
    Rising-last n es m h.2,
  )

  pub length-place : (e : ℕ × A) (es : List (ℕ × A)) → length (place e es) ≡ suc (length es)
  unfolding place
  length-place e [] = refl
  length-place e (x ∷ es) = ground (arith, length-place e es)

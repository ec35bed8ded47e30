-- ===== src/Common/Relations.antt =====
-- How a list of buffers loses one message: the element that leaves and what stays, in order.
use mathlib.Core.Path.{◌≡◌, refl, subst}
use mathlib.Core.List.{List, [], ◌∷◌}
use mathlib.Core.Option.{some}
use Prim.Native.Nat.{ℕ, zero, suc, ◌+◌}
use native.Mathlib.Omega.{arith}
use octopus_simulator.Common.Lists.{length, get_elem?, set, erase_at}

-- `Takes xs a ys`: `ys` is `xs` without one occurrence of `a`, the others in their order.
pub data Takes {ℓ} {A : Type ℓ} : List A → A → List A → Type ℓ where
  here : {x : A} {xs : List A} → Takes (x ∷ xs) x xs
  there : {x y : A} {xs ys : List A} → Takes xs y ys → Takes (x ∷ xs) y (x ∷ ys)

-- The same of one list among several.
pub data TakesIn {ℓ} {A : Type ℓ} : List (List A) → A → List (List A) → Type ℓ where
  this : {y : A} {xs ys : List A} {l : List (List A)} → Takes xs y ys → TakesIn (xs ∷ l) y (ys ∷ l)
  later : {y : A} {xs : List A} {l k : List (List A)} → TakesIn l y k → TakesIn (xs ∷ l) y (xs ∷ k)

pub Takes-erase_at {ℓ} :
    {A : Type ℓ} (xs : List A) (i : ℕ) (a : A)
    → get_elem? xs i ≡ some a
    → Takes xs a (erase_at xs i)
Takes-erase_at [] i a e = cc
Takes-erase_at (x ∷ xs) zero a e = subst (λ y. Takes (x ∷ xs) y xs) (cc) here
Takes-erase_at (x ∷ xs) (suc i) a e = there (Takes-erase_at xs i a e)

pub TakesIn-set {ℓ} :
    {A : Type ℓ} (l : List (List A)) (b : ℕ) (xs ys : List A) (a : A)
    → get_elem? l b ≡ some xs
    → Takes xs a ys
    → TakesIn l a (set l b ys)
TakesIn-set [] b xs ys a e t = cc
TakesIn-set (z ∷ l) zero xs ys a e t = this (subst (λ w. Takes w a ys) (cc) t)
TakesIn-set (z ∷ l) (suc b) xs ys a e t = later (TakesIn-set l b xs ys a e t)

pub length-Takes {ℓ} :
    {A : Type ℓ} {xs ys : List A} {a : A} → Takes xs a ys → length xs ≡ suc (length ys)
length-Takes here = refl
length-Takes (there t) = omega (arith, length-Takes t)

abbrev pub total {ℓ} : {A : Type ℓ} → List (List A) → ℕ
total [] = 0
total (xs ∷ l) = length xs + total l

pub total-TakesIn {ℓ} :
    {A : Type ℓ} {l k : List (List A)} {a : A} → TakesIn l a k → total l ≡ suc (total k)
total-TakesIn (this t) = omega (arith, length-Takes t)
total-TakesIn (later t) = omega (arith, total-TakesIn t)

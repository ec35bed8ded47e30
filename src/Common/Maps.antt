-- ===== src/Common/Maps.antt =====
-- A `std::map` from numbers as an association list, where only the entries matter and not their order.
use mathlib.Core.Option.{Option, none, some}
use mathlib.Core.List.{List, [], ◌∷◌, ◌++◌}
use Prim.Native.Nat.{ℕ}
use mathlib.Core.Path.{◌≡◌, refl}
use native.Mathlib.Omega.{arith}
use octopus_simulator.Common.Tests.{◌==◌, if◌then◌else◌}

abbrev pub find {ℓ} : {A : Type ℓ} → List (ℕ × A) → ℕ → Option A
find [] k = none
find ((j, a) ∷ m) k = if j == k then some a else find m k

abbrev pub put {ℓ} : {A : Type ℓ} → List (ℕ × A) → ℕ → A → List (ℕ × A)
put [] k a = (k, a) ∷ []
put ((j, b) ∷ m) k a = if j == k then (k, a) ∷ m else (j, b) ∷ put m k a

abbrev pub drop_key {ℓ} : {A : Type ℓ} → List (ℕ × A) → ℕ → List (ℕ × A)
drop_key [] k = []
drop_key ((j, b) ∷ m) k = if j == k then m else (j, b) ∷ drop_key m k

-- `m[k]` of a vector: a key that is missing has an empty one.
abbrev pub find_all {ℓ} : {A : Type ℓ} → List (ℕ × List A) → ℕ → List A
find_all m k = elim (find m k) [ none ↦ [] | some xs ↦ xs ]

-- `m[k].push_back(a)`.
abbrev pub push_under {ℓ} : {A : Type ℓ} → List (ℕ × List A) → ℕ → A → List (ℕ × List A)
push_under m k a = put m k (find_all m k ++ a ∷ [])

pub find-put {ℓ} : {A : Type ℓ} (m : List (ℕ × A)) (k : ℕ) (a : A) → find (put m k a) k ≡ some a
find-put [] k a = ground arith
find-put ((j, b) ∷ m) k a = ground (arith, find-put m k a)

pub drop_key-put {ℓ} :
    {A : Type ℓ} (m : List (ℕ × A)) (k : ℕ) (a : A)
    → find (drop_key (put m k a) k) k ≡ find (drop_key m k) k
drop_key-put [] k a = ground arith
drop_key-put ((j, b) ∷ m) k a = ground (arith, drop_key-put m k a)

pub drop_key-absent {ℓ} :
    {A : Type ℓ} (m : List (ℕ × A)) (k : ℕ) → find m k ≡ none → drop_key m k ≡ m
drop_key-absent [] k h = refl
drop_key-absent ((j, b) ∷ m) k h = ground (arith, drop_key-absent m k)

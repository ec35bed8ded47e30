-- ===== src/Common/Runs.antt =====
-- What a run ends with, and that it is not short of fuel.
use mathlib.Core.Path.{◌≡◌, refl}
use mathlib.Core.Bool.{Bool, true, false}
use mathlib.Core.Option.{Option, none, some}
use octopus_simulator.Common.Tests.{if◌then◌else◌}

-- What a run ends with: a result, `exit(0)`, or rounds of a loop left when its fuel is used up.
pub data Outcome {ℓ} (A : Type ℓ) : Type ℓ where
  ok : A → Outcome A
  exits no_fuel : Outcome A

abbrev pub and_run {ℓ m} : {A : Type ℓ} → {B : Type m} → Outcome A → (A → Outcome B) → Outcome B
and_run (ok a) k = k a
and_run exits k = exits
and_run no_fuel k = no_fuel

-- A run that is not short of fuel: it exits, or its result has `P`.
pub data Ends {ℓ} {A : Type ℓ} (P : A → Type 0) : Outcome A → Type ℓ where
  ended : {a : A} → P a → Ends P (ok a)
  exited : Ends P exits

pub Ends-and_run {ℓ m} :
    {A : Type ℓ} {B : Type m} {P : A → Type 0} {Q : B → Type 0} {o : Outcome A} {k : A → Outcome B}
    → Ends P o
    → ((a : A) → P a → Ends Q (k a))
    → Ends Q (and_run o k)
Ends-and_run (ended p) f = f _ p
Ends-and_run exited f = exited

pub if_keeps {ℓ} :
    {A : Type ℓ} (P : A → Type 0) (b : Bool) {x y : A}
    → (b ≡ true → P x)
    → (b ≡ false → P y)
    → P (if b then x else y)
if_keeps P true p q = p refl
if_keeps P false p q = q refl

pub Ends-if {ℓ} :
    {A : Type ℓ} {P : A → Type 0} (b : Bool) {x y : Outcome A}
    → Ends P x
    → Ends P y
    → Ends P (if b then x else y)
Ends-if true p q = p
Ends-if false p q = q

pub Ends-weaken {ℓ} :
    {A : Type ℓ} {P Q : A → Type 0} {o : Outcome A} → ((a : A) → P a → Q a) → Ends P o → Ends Q o
Ends-weaken f (ended p) = ended (f _ p)
Ends-weaken f exited = exited

-- What holds of both branches holds of the match.
pub option_keeps {ℓ m} :
    {A : Type ℓ} {B : Type m} (P : A → Type 0) (o : Option B) {x : A} {f : B → A}
    → P x
    → ((b : B) → P (f b))
    → P (elim o [ none ↦ x | some b ↦ f b ])
option_keeps P none p q = p
option_keeps P (some b) p q = q b

pub Ends-elim {ℓ m} :
    {A : Type ℓ} {B : Type m} {P : A → Type 0} (o : Option B) {x : Outcome A} {f : B → Outcome A}
    → Ends P x
    → ((b : B) → Ends P (f b))
    → Ends P (elim o [ none ↦ x | some b ↦ f b ])
Ends-elim none p q = p
Ends-elim (some b) p q = q b

-- ===== src/Replacement/Stamps.antt =====
-- LeastRecentlyUsed::update: where an access is recorded.
use octopus_simulator.Common.{
  ℕ, zero, suc, ◌<◌, ◌≡◌, ◌≢◌, refl, ap, sym, subst, inl, inr, true, false, some, List, [], ◌∷◌,
  ◌++◌, length, set, ltb, eq→==, ◌==◌, if◌then◌else◌, arith, Bool-cases, ltb→lt,
}
use octopus_simulator.Replacement.{Lru, stamp_at, stamps_of, put_stamps, touch, lru_update}

-- The place that an access to `way` writes: a way with no stamp yet gets the next free place.
abbrev pub place_of : List ℕ → ℕ → ℕ
place_of stamps way = if ltb way (length stamps) then way else length stamps

abbrev pub Recorded : List ℕ → ℕ → ℕ → List ℕ → Type 0
Recorded stamps place cycle stamps' =
    (stamp_at stamps' place ≡ cycle)
    × ((i : ℕ) → i ≢ place → stamp_at stamps' i ≡ stamp_at stamps i)

stamps_of-put_stamps_self :
    (lru : Lru) (s : ℕ) (stamps : List ℕ) → stamps_of (put_stamps lru s stamps) s ≡ stamps
unfolding stamps_of put_stamps
stamps_of-put_stamps_self [] s stamps = rw (eq→== s s refl) refl
stamps_of-put_stamps_self ((k, old) ∷ lru) s stamps = elim (Bool-cases (k == s)) [
  | inl e ↦ rw (e, eq→== s s refl) refl
  | inr e ↦ rw (e, e) (stamps_of-put_stamps_self lru s stamps)
]

stamps_of-put_stamps_ne :
    (lru : Lru) (s t : ℕ) (stamps : List ℕ)
    → (s == t) ≡ false
    → stamps_of (put_stamps lru s stamps) t ≡ stamps_of lru t
unfolding stamps_of put_stamps
stamps_of-put_stamps_ne [] s t stamps h = rw h refl
stamps_of-put_stamps_ne ((k, old) ∷ lru) s t stamps h = elim (Bool-cases (k == s)) [
  | inl e ↦ rw (e, h, other e) refl
  | inr e ↦ rw e (ap (λ xs. if k == t then old else xs) (stamps_of-put_stamps_ne lru s t stamps h))
]
  where
    other : (k == s) ≡ true → (k == t) ≡ false
    other e = ground arith

cons-Recorded :
    (s place cycle : ℕ) (stamps stamps' : List ℕ)
    → Recorded stamps place cycle stamps'
    → Recorded (s ∷ stamps) (suc place) cycle (s ∷ stamps')
cons-Recorded s place cycle stamps stamps' (e, f) = (e, others)
  where
    others : (i : ℕ) → i ≢ suc place → stamp_at (s ∷ stamps') i ≡ stamp_at (s ∷ stamps) i
    others zero h = refl
    others (suc i) h = f i (λ e. h (ap suc e))

set-Recorded :
    (stamps : List ℕ) (way cycle : ℕ)
    → way < length stamps
    → Recorded stamps way cycle (set stamps way cycle)
set-Recorded [] way cycle h = elim h [ ]
set-Recorded (s ∷ stamps) zero cycle h = (refl, others)
  where
    others : (i : ℕ) → i ≢ 0 → stamp_at (cycle ∷ stamps) i ≡ stamp_at (s ∷ stamps) i
    others zero g = absurd (g refl)
    others (suc i) g = refl
set-Recorded (s ∷ stamps) (suc way) cycle h =
    cons-Recorded s way cycle stamps _ (set-Recorded stamps way cycle (omega arith))

append-Recorded :
    (stamps : List ℕ) (cycle : ℕ) → Recorded stamps (length stamps) cycle (stamps ++ cycle ∷ [])
append-Recorded [] cycle = (refl, others)
  where
    others : (i : ℕ) → i ≢ 0 → stamp_at (cycle ∷ []) i ≡ stamp_at [] i
    others zero g = absurd (g refl)
    others (suc i) g = refl
append-Recorded (s ∷ stamps) cycle =
    cons-Recorded s (length stamps) cycle stamps _ (append-Recorded stamps cycle)

touch-Recorded :
    (stamps : List ℕ) (way cycle : ℕ)
    → Recorded stamps (place_of stamps way) cycle (touch stamps way cycle)
unfolding touch
touch-Recorded stamps way cycle = elim (Bool-cases (ltb way (length stamps))) [
  | inl e ↦ rw e (set-Recorded stamps way cycle (ltb→lt _ _ e))
  | inr e ↦ rw e (append-Recorded stamps cycle)
]

-- An access is recorded with its cycle at the place of its way if the way has a stamp, and otherwise
-- at the first place without one, whichever the way; no other stamp, of this set or another, changes.
pub lru_update-Recorded :
    (lru : Lru) (s way cycle : ℕ)
    → Recorded
        (stamps_of lru s)
        (place_of (stamps_of lru s) way)
        cycle
        (stamps_of (lru_update lru s (some way) cycle) s)
      × ((t : ℕ)
          → (s == t) ≡ false
          → stamps_of (lru_update lru s (some way) cycle) t ≡ stamps_of lru t)
unfolding lru_update
lru_update-Recorded lru s way cycle = (
  subst (Recorded (stamps_of lru s) (place_of (stamps_of lru s) way) cycle)
      (sym (stamps_of-put_stamps_self lru s (touch (stamps_of lru s) way cycle)))
      (touch-Recorded (stamps_of lru s) way cycle),
  λ t h. stamps_of-put_stamps_ne lru s t (touch (stamps_of lru s) way cycle) h,
)

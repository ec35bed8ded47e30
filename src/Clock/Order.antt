-- ===== src/Clock/Order.antt =====
-- The order of the events of src/ClockManager.cpp.
use octopus_simulator.Common.{
  ℕ, suc, ◌≤◌, ◌<◌, ◌≡◌, refl, inl, inr, true, List, [], ◌∷◌, All, if_keeps, ap, sym, ◌++◌,
  lt_suc_cases, arith,
}
use octopus_simulator.Clock.{EventKey, is_earlier, insert_event}

-- An event at `t`, a later one, and one that is not earlier.
abbrev pub Now : ℕ → EventKey → Type 0
Now t e = e.time_stamp ≡ t

abbrev pub Later : ℕ → EventKey → Type 0
Later t e = t < e.time_stamp

abbrev pub NotPast : ℕ → EventKey → Type 0
NotPast t e = t ≤ e.time_stamp

abbrev pub Before : EventKey → EventKey → Type 0
Before a b = is_earlier a b ≡ true

abbrev pub Sorted : List EventKey → Type 0
Sorted [] = Unit
Sorted (e ∷ es) = All (Before e) es × Sorted es

Before-transitive : (a b c : EventKey) → Before a b → Before b c → Before a c
unfolding is_earlier
Before-transitive a b c h g = ground arith

Before-NotPast : (t : ℕ) (a b : EventKey) → t ≤ a.time_stamp → Before a b → t ≤ b.time_stamp
unfolding is_earlier
Before-NotPast t a b h g = ground arith

pub insert_event-All :
    (P : EventKey → Type 0) (es : List EventKey) (k : EventKey)
    → All P es
    → P k
    → All P (insert_event es k)
unfolding insert_event
insert_event-All P [] k l h = (h, l)
insert_event-All P (e ∷ es) k (l, ls) h =
    if_keeps (All P) (is_earlier e k) (λ a. (l, insert_event-All P es k ls h))
      (λ a. if_keeps (All P) (is_earlier k e) (λ b. (h, (l, ls))) (λ b. (l, ls)))

All-implies :
    (P Q : EventKey → Type 0) (es : List EventKey)
    → ((e : EventKey) → P e → Q e)
    → All P es
    → All Q es
All-implies P Q [] f h = h
All-implies P Q (e ∷ es) f (h, hs) = (f e h, All-implies P Q es f hs)

pub insert_event-Sorted :
    (es : List EventKey) (k : EventKey) → Sorted es → Sorted (insert_event es k)
unfolding insert_event
insert_event-Sorted [] k s = (s, s)
insert_event-Sorted (e ∷ es) k (h, s) =
    if_keeps Sorted (is_earlier e k)
      (λ a. (insert_event-All (Before e) es k h a, insert_event-Sorted es k s))
      (λ a.
        if_keeps Sorted (is_earlier k e)
          (λ b. (
            (b, All-implies (Before e) (Before k) es (λ x g. Before-transitive k e x b g) h),
            (h, s),
          ))
          (λ b. (h, s)))

-- The events behind an event are not earlier than it.
pub Sorted-NotPast :
    (t : ℕ) (e : EventKey) (es : List EventKey)
    → Sorted (e ∷ es)
    → t ≤ e.time_stamp
    → All (NotPast t) (e ∷ es)
Sorted-NotPast t e es (h, s) l =
    (l, All-implies (Before e) (NotPast t) es (λ x g. Before-NotPast t e x l g) h)

-- The events at `t` and the later ones.
pub record Split (t : ℕ) (es : List EventKey) : Type 0 where
  pub due : List EventKey
  pub later : List EventKey
  pub whole : es ≡ due ++ later
  pub all_now : All (Now t) due
  pub all_later : All (Later t) later
  pub later_Sorted : Sorted later

pub split : (t : ℕ) (es : List EventKey) → Sorted es → All (NotPast t) es → Split t es
split t [] s h = record {
  due = [];
  later = [];
  whole = refl;
  all_now = h;
  all_later = h;
  later_Sorted = s;
}
split t (e ∷ es) (b, s) (h, hs) = elim (lt_suc_cases t e.time_stamp (omega (arith, h))) [
  | inl g ↦ record {
    due = [];
    later = e ∷ es;
    whole = refl;
    all_now = tt;
    all_later = Sorted-NotPast (suc t) e es (b, s) g;
    later_Sorted = (b, s);
  }
  | inr g ↦
      let rest = split t es s hs in
      record {
        due = e ∷ rest.due;
        later = rest.later;
        whole = ap (λ xs. e ∷ xs) rest.whole;
        all_now = (sym g, rest.all_now);
        all_later = rest.all_later;
        later_Sorted = rest.later_Sorted;
      }
]

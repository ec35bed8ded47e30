-- ===== src/Queue/Intake.antt =====
-- FRFCFS_Buffer: what the three ways in admit, and where they put a message.
use octopus_simulator.Common.{
  ℕ, zero, suc, ◌≤◌, ◌<◌, ◌≡◌, refl, sym, ◌⊎◌, inl, inr, Bool, true, false, none, some, List, [],
  ◌∷◌, ◌++◌, length, insert_at, keep, arith, leb, leb→le, ==→eq, subst, Option-cases, if◌then◌else◌,
  Bool-cases, ◌==◌,
}
use octopus_simulator.Message.{Message, Source, same_source}
use octopus_simulator.Queue.{
  State, ready, non_ready, needs_action, waiting, Element, Buffer, is_ready, push_back,
  place_after_source, push_front_ordered,
}

-- The two outcomes of a push.
abbrev pub Admission : Buffer → Message → State → Bool → Type 0
Admission b item state force =
    ((push_back b item state force ≡ (b, false))
      × (force ≡ false)
      × (is_ready state ≡ false)
      × ((max : ℕ) × (b.max_size ≡ some max) × (max ≤ length b.elements)))
    ⊎ (((force ≡ true)
          ⊎ ((is_ready state ≡ true)
              ⊎ ((b.max_size ≡ none)
                  ⊎ ((max : ℕ) × (b.max_size ≡ some max) × (length b.elements < max)))))
        × (push_back b item state force ≡ (
          record b {
            elements = b.elements ++ record { item = item; state = state } ∷ [];
            dirty = true;
          },
          true,
        )))

limited :
    (b : Buffer) (item : Message) (state : State)
    → is_ready state ≡ false
    → Admission b item state false
unfolding push_back
limited b item state n = elim (Option-cases b.max_size) [
  | inl e ↦ inr (inr (inr (inl e)), rw (n, e))
  | inr (max, e) ↦ elim (Bool-cases (leb max (length b.elements))) [
    | inl l ↦ inl (rw (n, e, l), refl, n, (max, e, leb→le _ _ l))
    | inr l ↦ inr (inr (inr (inr (max, e, ground arith))), rw (n, e, l))
  ]
]

-- A push is refused only if it is neither forced nor ready and the bounded buffer is full, and then
-- changes nothing; any other push appends its element and asks for a new scan.
pub push_back-admits :
    (b : Buffer) (item : Message) (state : State) (force : Bool) → Admission b item state force
unfolding push_back
push_back-admits b item state true = inr (inl refl, refl)
push_back-admits b item ready false = inr (inr (inl refl), refl)
push_back-admits b item non_ready false = limited b item non_ready refl
push_back-admits b item needs_action false = limited b item needs_action refl
push_back-admits b item waiting false = limited b item waiting refl

-- The elements that came from one side, in their order.
abbrev pub from_source : Source → List Element → List Element
from_source s es = keep (λ (e : Element). same_source e.item.source s) es

place_zero :
    (es : List Element) (item : Message)
    → place_after_source es item ≡ 0
    → from_source item.source es ≡ []
unfolding place_after_source
place_zero [] item e = refl
place_zero (x ∷ es) item e = ground (arith, place_zero es item)

from_source-insert :
    (es : List Element) (item : Message) (x : Element)
    → same_source x.item.source item.source ≡ true
    → from_source item.source (insert_at es (place_after_source es item) x)
      ≡ from_source item.source es ++ x ∷ []
unfolding place_after_source
from_source-insert [] item x s = rw s
from_source-insert (e ∷ es) item x s = elim (Bool-cases (0 == place_after_source es item)) [
  | inl z ↦
      rw (z, place_zero es item (sym (==→eq _ _ z)))
        (elim (Bool-cases (same_source e.item.source item.source)) [
          | inl t ↦ rw (t, s, place_zero es item (sym (==→eq _ _ z))) (rw t)
          | inr t ↦ rw (t, s, place_zero es item (sym (==→eq _ _ z))) (rw t)
        ])
  | inr z ↦ rw (z, from_source-insert es item x s) (ground arith)
]

keep-insert_at :
    (p : Element → Bool) (es : List Element) (i : ℕ) (x : Element)
    → p x ≡ false
    → keep p (insert_at es i x) ≡ keep p es
keep-insert_at p es zero x n = rw n
keep-insert_at p [] (suc i) x n = rw n
keep-insert_at p (e ∷ es) (suc i) x n = rw (keep-insert_at p es i x n)

same_source-eq : (s t : Source) → same_source s t ≡ true → s ≡ t
same_source-eq s t e = ground arith

-- A message from the interconnect goes behind every older message of its own side, and leaves the
-- order of each other side as it was.
push_front_ordered-order :
    (b : Buffer) (item : Message) (s : Source)
    → from_source s (push_front_ordered b item).elements ≡ (
        if same_source item.source s
        then from_source s b.elements ++ record { item = item; state = ready } ∷ []
        else from_source s b.elements)
unfolding push_front_ordered
push_front_ordered-order b item s = elim (Bool-cases (same_source item.source s)) [
  | inl e ↦ rw e (
      subst
        (λ t.
          from_source t (
            insert_at b.elements (place_after_source b.elements item)
              (record { item = item; state = ready }))
          ≡ from_source t b.elements ++ record { item = item; state = ready } ∷ [])
        (same_source-eq item.source s e)
        (from_source-insert b.elements item (record { item = item; state = ready })
          (reflexive item.source)))
  | inr e ↦ rw e (keep-insert_at _ b.elements _ _ e)
]
  where
    reflexive : (t : Source) → same_source t t ≡ true
    reflexive t = ground arith

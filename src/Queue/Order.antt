-- ===== src/Queue/Order.antt =====
-- FRFCFS_Buffer::getFirstReady: no message overtakes an older one of its line, and none is lost.
use octopus_simulator.Common.{
  ℕ, ◌≡◌, refl, ap, sym, ◌⊎◌, inl, inr, Bool, true, false, ◌&&◌, not, Option, none, some, List, [],
  ◌∷◌, ◌++◌, map, All, arith, if◌then◌else◌, Bool-cases, subst, ◌≢◌,
}
use octopus_simulator.Message.{Message}
use octopus_simulator.Queue.{
  State, ready, non_ready, needs_action, waiting, Element, Buffer, is_ordered, same_line, has_older,
  is_gated, put_back, verdict, settle, scan, get_first_ready,
}
use mathlib.Core.List.{append_assoc, append-nil}

abbrev pub items : List Element → List Message
items = map (λ (e : Element). e.item)

-- No element is bound by the order and on the line of `m`.
abbrev pub NoOlder : ℕ → Message → List Element → Type 0
NoOlder mask m older =
    All (λ (e : Element). (is_ordered e.item ≡ true) × (same_line mask e.item m ≡ true) → ⊥) older

has_older-NoOlder :
    (mask : ℕ) (m : Message) (older : List Element)
    → has_older mask m older ≡ false
    → NoOlder mask m older
unfolding has_older
has_older-NoOlder mask m [] e = tt
has_older-NoOlder mask m (x ∷ older) e =
    (λ h. ground (arith, h), has_older-NoOlder mask m older (ground arith))

-- The message handed out stands in the queue behind `before`; the order binds no message before it
-- on its line, it is not held, and afterwards the queue has the same messages in the same order,
-- without it if it was ready, and with it, waiting, if it needs an action.
abbrev pub Handed :
    (Message → State → State)
    → (Message → Bool)
    → ℕ
    → List Element
    → List Element
    → Message
    → List Element
    → Type 0
Handed check hold mask older es m es' =
    (before : List Element) × (e : Element) × (after : List Element) × (es ≡ before ++ e ∷ after)
    × (e.item ≡ m)
    × (hold m ≡ false)
    × (mask ≢ 0 → is_ordered m ≡ true → NoOlder mask m (older ++ before))
    × (((verdict check e ≡ ready) × (items es' ≡ items before ++ items after))
        ⊎ ((verdict check e ≡ needs_action) × (items es' ≡ items es)))

-- One round of the scan: the element stays and the younger ones decide, or it is handed out.
abbrev pub Round :
    (Message → State → State)
    → (Message → Bool)
    → ℕ
    → List Element
    → Element
    → List Element
    → Option Message × List Element
    → Option Message × List Element
    → Type 0
Round check hold mask older e es rest r =
    ((e' : Element) × (e'.item ≡ e.item) × (r ≡ put_back e' rest))
    ⊎ ((hold e.item ≡ false)
        × (is_gated mask e.item older ≡ false)
        × (((verdict check e ≡ ready) × (r ≡ (some e.item, es)))
            ⊎ ((verdict check e ≡ needs_action)
                × (r ≡ (some e.item, record e { state = waiting } ∷ es)))))

settle-Round :
    (check : Message → State → State) (hold : Message → Bool) (mask : ℕ) (older : List Element)
    (e : Element) (es : List Element) (rest : Option Message × List Element) (v : State)
    → verdict check e ≡ v
    → hold e.item ≡ false
    → is_gated mask e.item older ≡ false
    → Round check hold mask older e es rest (settle v e es rest)
unfolding settle
settle-Round check hold mask older e es rest ready v h g = inr (h, g, inl (v, refl))
settle-Round check hold mask older e es rest needs_action v h g = inr (h, g, inr (v, refl))
settle-Round check hold mask older e es rest non_ready v h g =
    inl (record e { state = non_ready }, refl, refl)
settle-Round check hold mask older e es rest waiting v h g =
    inl (record e { state = waiting }, refl, refl)

is_gated-NoOlder :
    (mask : ℕ) (m : Message) (older : List Element)
    → is_gated mask m older ≡ false
    → mask ≢ 0
    → is_ordered m ≡ true
    → NoOlder mask m older
unfolding is_gated
is_gated-NoOlder mask m older g n o = has_older-NoOlder mask m older (ground arith)

pick-Round :
    (check : Message → State → State) (hold : Message → Bool) (mask : ℕ) (older : List Element)
    (e : Element) (es : List Element) (rest : Option Message × List Element) (h g : Bool)
    → hold e.item ≡ h
    → is_gated mask e.item older ≡ g
    → Round check hold mask older e es rest (
        if h
        then put_back e rest
        else if g
        then put_back e rest
        else settle (verdict check e) e es rest)
pick-Round check hold mask older e es rest true g p q = inl (e, refl, refl)
pick-Round check hold mask older e es rest false true p q = inl (e, refl, refl)
pick-Round check hold mask older e es rest false false p q =
    settle-Round check hold mask older e es rest (verdict check e) refl p q

line :
    (x : Element) (m : Message) {mask : ℕ}
    → x.item ≡ m
    → (older : List Element) → is_gated mask x.item older ≡ false
    → mask ≢ 0
    → is_ordered m ≡ true
    → NoOlder mask m (older ++ [])
line x m {mask} same older g n o =
    subst (λ y. NoOlder mask y (older ++ [])) same
      (subst (NoOlder mask x.item) (sym (append-nil older))
        (is_gated-NoOlder mask x.item older g n (subst (λ y. is_ordered y ≡ true) (sym same) o)))

module _ (check : Message → State → State) (hold : Message → Bool) where
  pub scan-Round :
      (mask : ℕ) (older : List Element) (e : Element) (es : List Element)
      → Round check hold mask older e es
          (scan check hold mask (older ++ e ∷ []) es)
          (scan check hold mask older (e ∷ es))
  unfolding scan
  scan-Round mask older e es =
      pick-Round check hold mask older e es (scan check hold mask (older ++ e ∷ []) es)
        (hold e.item) (is_gated mask e.item older) refl refl

  -- If nothing is handed out, the queue keeps the same messages in the same order.
  pub scan-items :
      (mask : ℕ) (older es : List Element)
      → (scan check hold mask older es).0 ≡ none
      → items (scan check hold mask older es).1 ≡ items es
  scan-items mask older [] n = unfold scan in refl
  scan-items mask older (e ∷ es) n = elim (scan-Round mask older e es) [
    | inl (e', i, r) ↦ ground (arith, i, r, scan-items mask (older ++ e ∷ []) es (rw r at n))
    | inr (h, g, inl (v, r)) ↦ cc
    | inr (h, g, inr (v, r)) ↦ cc
  ]

  pub scan-Handed :
      (mask : ℕ) (older es : List Element) (m : Message)
      → (scan check hold mask older es).0 ≡ some m
      → Handed check hold mask older es m (scan check hold mask older es).1
  scan-Handed mask older [] m e = absurd (unfold scan in cc)
  scan-Handed mask older (x ∷ es) m e = elim (scan-Round mask older x es) [
    | inl (x', i, r) ↦
        let (before, y, after, split, item, held, order, kept) =
          scan-Handed mask (older ++ x ∷ []) es m (rw r at e) in
        (
          x ∷ before,
          y,
          after,
          ap (◌∷◌ x) split,
          item,
          held,
          λ n o. subst (NoOlder mask m) (append_assoc older (x ∷ []) before) (order n o),
          (elim kept [
            | inl (v, k) ↦ inl (v, ground (arith, r, i, k))
            | inr (v, k) ↦ inr (v, ground (arith, r, i, k))
          ]),
        )
    | inr (h, g, inl (v, r)) ↦
        let same : x.item ≡ m = cc in
        (
          [],
          x,
          es,
          refl,
          same,
          subst (λ y. hold y ≡ false) same h,
          line x m same older g,
          inl (v, ap (λ p. items p.1) r),
        )
    | inr (h, g, inr (v, r)) ↦
        let same : x.item ≡ m = cc in
        (
          [],
          x,
          es,
          refl,
          same,
          subst (λ y. hold y ≡ false) same h,
          line x m same older g,
          inr (v, ap (λ p. items p.1) r),
        )
  ]

  pub get_first_ready-Handed :
      (b : Buffer) (m : Message)
      → (get_first_ready check hold b).1 ≡ some m
      → Handed check hold b.line_mask [] b.elements m (get_first_ready check hold b).0.elements
  unfolding get_first_ready
  get_first_ready-Handed b m e = elim (Bool-cases (b.readiness_state_only && not b.dirty)) [
    | inl s ↦ absurd (none≢some (rw s at e))
    | inr s ↦ rw s (scan-Handed b.line_mask [] b.elements m (rw s at e))
  ]
    where
      none≢some : none ≡ some m → ⊥
      none≢some h = cc

-- ===== src/Controller/Weight.antt =====
-- header/FRFCFS_Buffer.h: how far a queue is from empty. A message that the queue holds as ready may
-- stall once and come back as not ready, so it counts for two rounds.
use octopus_simulator.Common.{
  if_keeps, ℕ, suc, ◌+◌, ◌≤◌, ◌≡◌, ◌⊎◌, refl, subst, inl, inr, Bool, true, false, ◌&&◌, not, Option,
  none, some, List, [], ◌∷◌, ◌++◌, length, if◌then◌else◌, arith,
}
use octopus_simulator.Message.{Message}
use octopus_simulator.Queue.{
  State, ready, non_ready, Element, Buffer, is_ready, verdict, settle, is_gated, scan, full_scan,
  get_first_ready, push_back, at_limit,
}

-- The rounds that a queue can cause.
unfoldable pub weight : List Element → ℕ
weight [] = 0
weight (e ∷ es) = weight es + (if is_ready e.state then 2 else 1)

weight-append :
    (es : List Element) (e : Element) → weight (es ++ e ∷ []) ≡ weight es + weight (e ∷ [])
unfolding weight
weight-append [] e = omega arith
weight-append (x ∷ es) e = omega (arith, weight-append es e)

pub weight-push_back :
    (b : Buffer) (m : Message)
    → weight (push_back b m non_ready false).0.elements ≤ suc (weight b.elements)
unfolding push_back weight
weight-push_back b m =
    if_keeps (λ (r : Buffer × Bool). weight r.0.elements ≤ suc (weight b.elements))
      (not (is_ready non_ready) && at_limit b.max_size (length b.elements)) {x = (b, false)}
      (λ e. omega arith)
      (λ e. omega (arith, weight-append b.elements (record { item = m; state = non_ready })))

module _ (is_ready_now : Message → Bool) where
  abbrev state_now : Message → State → State
  state_now m s = if is_ready_now m then ready else non_ready

  -- What is left is lighter than `w` by two, or by one, and then the message is ready now.
  abbrev pub Popped : ℕ → Option Message → List Element → Type 0
  Popped w none rest = weight rest ≤ w
  Popped w (some m) rest = (weight rest + 2 ≤ w) ⊎ ((is_ready_now m ≡ true) × (weight rest + 1 ≤ w))

  Popped-put_back :
      (e : Element) (es : List Element) (found : Option Message) (rest : List Element)
      → Popped (weight es) found rest
      → Popped (weight (e ∷ es)) found (e ∷ rest)
  unfolding weight
  Popped-put_back e es none rest h = omega (arith, h)
  Popped-put_back e es (some m) rest (inl h) = inl (omega (arith, h))
  Popped-put_back e es (some m) rest (inr (f, h)) = inr (f, omega (arith, h))

  abbrev PoppedBy : ℕ → Option Message × List Element → Type 0
  PoppedBy w r = Popped w r.0 r.1

  Popped-settle :
      (e : Element) (es : List Element) (r : Option Message × List Element)
      → PoppedBy (weight es) r
      → PoppedBy (weight (e ∷ es)) (settle (verdict state_now e) e es r)
  unfolding settle weight
  Popped-settle e es r h =
      if_keeps (λ v. PoppedBy (weight (e ∷ es)) (settle v e es r)) (is_ready e.state)
        (λ f. inl (rw f (omega arith)))
        (λ f.
          if_keeps (λ v. PoppedBy (weight (e ∷ es)) (settle v e es r)) (is_ready_now e.item)
            (λ g. inr (g, rw f (omega arith)))
            (λ g.
              subst (λ w. Popped w r.0 (record e { state = non_ready } ∷ r.1)) (rw f refl)
                (Popped-put_back (record e { state = non_ready }) es r.0 r.1 h)))

  module _ (hold : Message → Bool) where
    scan-Popped :
        (mask : ℕ) (older es : List Element)
        → PoppedBy (weight es) (scan state_now hold mask older es)
    unfolding scan weight
    scan-Popped mask older [] = omega arith
    scan-Popped mask older (e ∷ es) =
        if_keeps (PoppedBy (weight (e ∷ es))) (hold e.item)
          (λ f. Popped-put_back e es rest.0 rest.1 (scan-Popped mask (older ++ e ∷ []) es))
          (λ f.
            if_keeps (PoppedBy (weight (e ∷ es))) (is_gated mask e.item older)
              (λ g. Popped-put_back e es rest.0 rest.1 (scan-Popped mask (older ++ e ∷ []) es))
              (λ g. Popped-settle e es rest (scan-Popped mask (older ++ e ∷ []) es)))
      where
        rest : Option Message × List Element
        rest = scan state_now hold mask (older ++ e ∷ []) es

    pub get_first_ready-Popped :
        (b : Buffer)
        → Popped
            (weight b.elements)
            (get_first_ready state_now hold b).1
            (get_first_ready state_now hold b).0.elements
    unfolding get_first_ready full_scan
    get_first_ready-Popped b =
        if_keeps (λ (r : Buffer × Option Message). Popped (weight b.elements) r.1 r.0.elements)
          (b.readiness_state_only && not b.dirty) {x = (b, none)} (λ e. omega arith)
          (λ e. scan-Popped b.line_mask [] b.elements)

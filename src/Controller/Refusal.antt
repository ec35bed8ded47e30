-- ===== src/Controller/Refusal.antt =====
-- CacheController::processLogic with a request that canAdmitRequest refuses: what FRFCFS_Buffer::pushBack
-- does with it, after getFirstReady has taken it out.
use octopus_simulator.Common.{
  ok, ℕ, suc, ◌≤◌, ◌≡◌, refl, ap, sym, ◌∙◌, subst, ◌⊎◌, inl, inr, Bool, true, false, ◌&&◌, not,
  Option, none, some, List, [], ◌∷◌, ◌++◌, length, length-append, if◌then◌else◌, if_keeps, arith,
}
use mathlib.Core.List.{map-append}
use octopus_simulator.Message.{Message}
use octopus_simulator.Queue.{
  Buffer, Element, State, at_limit, get_first_ready, is_ready, ready, needs_action, non_ready,
}
use octopus_simulator.Queue.Order.{items, get_first_ready-Handed}
use octopus_simulator.Controller.{Controller, Parts}
use octopus_simulator.Controller.Access.{can_admit_request, is_held}
use octopus_simulator.Controller.Cycle.{request_state, next_ready, process_rounds}
use octopus_simulator.Controller.Admission.{refused, process_rounds-refused}

-- A number of messages within the bound of a queue.
abbrev pub FitsIn : Option ℕ → ℕ → Type 0
FitsIn none n = Unit
FitsIn (some k) n = n ≤ k

at_limit-FitsIn : (max : Option ℕ) (n : ℕ) → at_limit max n ≡ false → FitsIn max (suc n)
at_limit-FitsIn none n h = tt
at_limit-FitsIn (some k) n h = ground arith

at_limit-over : (max : Option ℕ) (n : ℕ) → at_limit max n ≡ true → FitsIn max (suc n) → ⊥
at_limit-over none n h f = cc
at_limit-over (some k) n h f = ground arith

length-items : (es : List Element) → length (items es) ≡ length es
length-items [] = refl
length-items (e ∷ es) = ap suc (length-items es)

max_size-get_first_ready :
    (check : Message → State → State) (hold : Message → Bool) (b : Buffer)
    → (get_first_ready check hold b).0.max_size ≡ b.max_size
unfolding get_first_ready
max_size-get_first_ready check hold b =
    if_keeps (λ (r : Buffer × Option Message). r.0.max_size ≡ b.max_size)
      (b.readiness_state_only && not b.dirty) (λ _. refl) (λ _. refl)

-- A list with one element taken out of its middle.
length-taken :
    (xs ys zs : List Message) (m : Message)
    → xs ≡ ys ++ m ∷ zs
    → length xs ≡ suc (length (ys ++ zs))
length-taken xs ys zs m e =
    omega (arith, ap length e, length-append {0} ys (m ∷ zs), length-append {0} ys zs)

no_action : (a b : Bool) → (if a then ready else if b then ready else non_ready) ≡ needs_action → ⊥
no_action true b e = cc
no_action false true e = cc
no_action false false e = cc

module _ {U L : Type 0} (parts : Parts U L) where
  -- The message is put back behind the others if the queue was within its bound with it, and lost if not.
  abbrev pub TurnedBack : Controller U L → Message → Controller U L → Type 0
  TurnedBack c m d =
      (before : List Message) × (after : List Message) × (items c.processing_queue.elements
        ≡ before ++ m ∷ after)
      × (d ≡ record c { processing_queue = d.processing_queue })
      × ((FitsIn c.processing_queue.max_size (length c.processing_queue.elements)
            × (items d.processing_queue.elements ≡ (before ++ after) ++ m ∷ []))
          ⊎ ((FitsIn c.processing_queue.max_size (length c.processing_queue.elements) → ⊥)
              × (items d.processing_queue.elements ≡ before ++ after)))

  module _ (c : Controller U L) (m : Message) (handed : (next_ready parts c).1 ≡ some m) where
    -- The controller's callback asks for no action, so that a message that is handed out leaves the queue.
    taken :
        (before : List Message) × (after : List Message) × (items c.processing_queue.elements
          ≡ before ++ m ∷ after)
        × (items (next_ready parts c).0.processing_queue.elements ≡ before ++ after)
    unfolding next_ready request_state
    taken =
        let (before, e, after, split, item, held, order, kept) =
          get_first_ready-Handed (request_state parts c) (is_held c) c.processing_queue m handed in
        (
          items before,
          items after,
          ap items split
              ∙ map-append (λ (x : Element). x.item) before (e ∷ after)
              ∙ ap (λ x. items before ++ x ∷ items after) item,
          elim kept [
            | inl (v, k) ↦ k
            | inr (v, k) ↦ absurd (
                no_action (is_ready e.state) (parts.rules.is_request_ready c.data_handler e.item) v)
          ],
        )

    length-taken_queue :
        length c.processing_queue.elements
        ≡ suc (length (next_ready parts c).0.processing_queue.elements)
    length-taken_queue =
        let (before, after, split, left) = taken in
        sym (length-items c.processing_queue.elements)
        ∙ length-taken (items c.processing_queue.elements) before after m split
        ∙ ap (λ k. suc (length k)) (sym left)
        ∙ ap suc (length-items (next_ready parts c).0.processing_queue.elements)

    max_size-next_ready :
        (next_ready parts c).0.processing_queue.max_size ≡ c.processing_queue.max_size
    unfolding next_ready
    max_size-next_ready =
        max_size-get_first_ready (request_state parts c) (is_held c) c.processing_queue

    refused-TurnedBack : TurnedBack c m (refused parts (next_ready parts c).0 m)
    unfolding next_ready
    refused-TurnedBack =
        let (before, after, split, left) = taken in
        if_keeps (TurnedBack c m) (at_limit q.max_size (length q.elements))
          (λ full. (
            before,
            after,
            split,
            refl,
            inr (
              (λ f. at_limit-over q.max_size (length q.elements) full (
                  subst (FitsIn q.max_size) length-taken_queue (
                    subst (λ k. FitsIn k (length c.processing_queue.elements))
                      (sym max_size-next_ready) f))),
              left,
            ),
          ))
          (λ room. (
            before,
            after,
            split,
            refl,
            inl (
              subst (λ k. FitsIn k (length c.processing_queue.elements)) max_size-next_ready
                  (subst (FitsIn q.max_size) (sym length-taken_queue)
                    (at_limit-FitsIn q.max_size (length q.elements) room)),
              map-append (λ (x : Element). x.item) q.elements
                    (record { item = m; state = non_ready } ∷ [])
                  ∙ ap (λ l. l ++ m ∷ []) left,
            ),
          ))
      where
        q : Buffer
        q = (next_ready parts c).0.processing_queue

  -- When the queue hands out a message that is not admitted, the loop of `processLogic` ends, and nothing but the
  -- queue has changed. If the queue was within its bound with the message, it is last in the queue now,
  -- behind the others in their order; if forced pushes had taken the queue past its bound, the message is
  -- lost and the others are as they were.
  pub process_rounds-TurnedBack :
      (n : ℕ) (c : Controller U L) (m : Message)
      → (next_ready parts c).1 ≡ some m
      → can_admit_request (next_ready parts c).0 m ≡ false
      → (d : Controller U L) × (process_rounds parts (suc n) c ≡ ok d) × TurnedBack c m d
  process_rounds-TurnedBack n c m handed a = (
    refused parts (next_ready parts c).0 m,
    process_rounds-refused parts n c (next_ready parts c).0 m
        (ap (λ x. ((next_ready parts c).0, x)) handed) a,
    refused-TurnedBack c m handed,
  )

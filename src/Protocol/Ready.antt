-- ===== src/Protocol/Ready.antt =====
-- MSIProtocol: what a message that the queue takes for ready does to its line.
use octopus_simulator.Common.{
  ℕ, ◌≡◌, refl, ap, sym, ◌∙◌, subst, inl, inr, Bool, true, false, ◌||◌, Option, some, List, [], ◌∷◌,
  ◌++◌, get_elem?, All, ◌==◌, if◌then◌else◌, and_then, Bool-cases,
}
use octopus_simulator.Message.{Message, is_lower}
use octopus_simulator.Queue.{ready, non_ready}
use octopus_simulator.Cache.Registers.{Handler}
use octopus_simulator.Protocol.Table.{
  Table, FsmState, stall_name, contains, row_actions, is_stall, is_valid_state, get_transition,
  get_next_state, get_actions,
}
use octopus_simulator.Protocol.Actions.{
  ControllerAction, write_back, update_cache_line, hit_action, remove_pending,
}
use octopus_simulator.Protocol.Msi.{
  EventId, event_number, ActionId, stall, hit, get_s, get_m, put_m, data2_req, data2_both, save_req,
  fault, unknown_action, action_id, read_event, handle_one, handle_each, stalls_first,
  handle_action, bits_of, process_request, get_request_state,
}
use mathlib.Core.List.{append_assoc}

abbrev pub is_write_back : ControllerAction → Bool
is_write_back (write_back m) = true
is_write_back _ = false

-- Neither a write-back nor an update of the line.
abbrev pub is_plain : ControllerAction → Bool
is_plain (write_back m) = false
is_plain (update_cache_line m line) = false
is_plain _ = true

abbrev pub is_fault : ActionId → Bool
is_fault fault = true
is_fault _ = false

-- The actions are write-backs, then `update`, then neither of the two.
abbrev pub Ordered : ControllerAction → List ControllerAction → Type 0
Ordered update actions =
    (front : List ControllerAction) × (back : List ControllerAction) × (actions
      ≡ front ++ update ∷ back)
    × All (λ a. is_write_back a ≡ true) front
    × All (λ a. is_plain a ≡ true) back

All-append :
    (P : ControllerAction → Type 0) (xs ys : List ControllerAction)
    → All P xs
    → All P ys
    → All P (xs ++ ys)
All-append P [] ys h k = k
All-append P (x ∷ xs) ys h k = (h.0, All-append P xs ys h.1 k)

module _ (update : ControllerAction) where
  append-Ordered :
      (done more : List ControllerAction)
      → All (λ a. is_plain a ≡ true) more
      → Ordered update done
      → Ordered update (done ++ more)
  append-Ordered done more h (front, back, e, f, b) = (
    front,
    back ++ more,
    ap (λ xs. xs ++ more) e ∙ append_assoc front (update ∷ back) more,
    f,
    All-append (λ a. is_plain a ≡ true) back more b h,
  )

  first-Ordered :
      (m : Message) (done : List ControllerAction)
      → Ordered update done
      → Ordered update (write_back m ∷ done)
  first-Ordered m done (front, back, e, f, b) =
      (write_back m ∷ front, back, ap (λ xs. write_back m ∷ xs) e, (refl, f), b)

  -- The loop goes on with ordered actions.
  GoesOn : Option (List ControllerAction) → Type 0
  GoesOn r = (done : List ControllerAction) × (r ≡ some done) × Ordered update done

  hit_lem :
      (b : Bool) (m : Message) → is_plain (if b then hit_action m else remove_pending m) ≡ true
  hit_lem true m = refl
  hit_lem false m = refl

  handle_one-GoesOn :
      (id memory : ℕ) (m : Message) (done : List ControllerAction) (a : ActionId)
      → is_fault a ≡ false
      → Ordered update done
      → GoesOn (handle_one id memory m done a)
  unfolding handle_one GoesOn
  handle_one-GoesOn id memory m done stall n o = (_, refl, append-Ordered done _ (refl, tt) o)
  handle_one-GoesOn id memory m done hit n o =
      (_, refl, append-Ordered done _ (hit_lem (is_lower m.source) m, (refl, tt)) o)
  handle_one-GoesOn id memory m done get_s n o =
      (_, refl, append-Ordered done _ (refl, (refl, tt)) o)
  handle_one-GoesOn id memory m done get_m n o =
      (_, refl, append-Ordered done _ (refl, (refl, tt)) o)
  handle_one-GoesOn id memory m done put_m n o = (_, refl, append-Ordered done _ (refl, tt) o)
  handle_one-GoesOn id memory m done data2_req n o = (_, refl, first-Ordered _ done o)
  handle_one-GoesOn id memory m done data2_both n o = (_, refl, first-Ordered _ done o)
  handle_one-GoesOn id memory m done save_req n o = (_, refl, append-Ordered done _ (refl, tt) o)
  handle_one-GoesOn id memory m done fault n o = cc
  handle_one-GoesOn id memory m done unknown_action n o =
      (_, refl, append-Ordered done _ (refl, tt) o)

  and_then-GoesOn :
      (r : Option (List ControllerAction))
      (k : List ControllerAction → Option (List ControllerAction))
      → GoesOn r
      → ((done : List ControllerAction) → Ordered update done → GoesOn (k done))
      → GoesOn (and_then r k)
  unfolding GoesOn
  and_then-GoesOn r k (done, e, o) f = subst (λ x. GoesOn (and_then x k)) (sym e) (f done o)

  handle_each-GoesOn :
      (id memory : ℕ) (m : Message) (done : List ControllerAction) (ids : List ℕ)
      → All (λ a. is_fault (action_id a) ≡ false) ids
      → Ordered update done
      → GoesOn (handle_each id memory m done ids)
  unfolding handle_each GoesOn
  handle_each-GoesOn id memory m done [] n o = (done, refl, o)
  handle_each-GoesOn id memory m done (a ∷ ids) (f, n) o =
      and_then-GoesOn (handle_one id memory m done (action_id a)) _
        (handle_one-GoesOn id memory m done (action_id a) f o)
        (λ done' o'. handle_each-GoesOn id memory m done' ids n o')

-- A row that contains no stall does not start with one.
stalls_first-contains : (ids : List ℕ) → contains ids 0 ≡ false → stalls_first ids ≡ false
stalls_first-contains [] h = refl
stalls_first-contains (a ∷ ids) h = elim (Bool-cases (a == 0)) [
  | inl e ↦ absurd (clash (sym (ap (λ b. b || contains ids 0) e) ∙ h))
  | inr e ↦ e
]
  where
    clash : true ≡ false → ⊥
    clash t = cc

if_lem : (b : Bool) → some (if b then non_ready else ready) ≡ some ready → b ≡ false
if_lem true h = cc
if_lem false h = refl

get_transition-row :
    (t : Table) (state event : ℕ) (row : FsmState)
    → get_elem? t.states state ≡ some row
    → get_transition t state event ≡ some (get_next_state row event, get_actions row event)
unfolding get_transition
get_transition-row t state event row s = rw (s, get_transition) refl

is_stall-contains :
    (t : Table) (state event : ℕ) (row : FsmState)
    → t.action_ids stall_name ≡ some 0
    → get_elem? t.states state ≡ some row
    → is_stall t state event ≡ contains (get_actions row event) 0
unfolding is_stall row_actions
is_stall-contains t state event row z s = rw (s, z, is_stall, row_actions) refl

ready-contains :
    (t : Table) (id : ℕ) (h : Handler) (m : Message) (e : EventId) (row : FsmState)
    → t.action_ids stall_name ≡ some 0
    → read_event id m ≡ some e
    → get_elem? t.states (bits_of h m).state ≡ some row
    → get_request_state t id h m ≡ some ready
    → contains (get_actions row (event_number e)) 0 ≡ false
unfolding get_request_state
ready-contains t id h m e row z r s q =
    sym (is_stall-contains t (bits_of h m).state (event_number e) row z s) ∙ if_lem _ (rw r at q)

-- What `process_request` returns for a message that moves its line to `next`.
abbrev pub Moved : Table → Handler → Message → ℕ → Option (List ControllerAction) → Type 0
Moved t h m next r =
    (actions : List ControllerAction) × (r ≡ some actions)
    × Ordered
        (update_cache_line m (record (bits_of h m) { valid = is_valid_state t next; state = next }))
        actions

-- Let the table number the stall as 0. If the queue takes a message for ready and its row has no fault
-- for the message's event, then the protocol does not exit: it updates the line exactly once, to the
-- row's next state, and every write-back comes before that update.
pub process_request-Moved :
    (t : Table) (id memory : ℕ) (h : Handler) (m : Message) (e : EventId) (row : FsmState)
    → t.action_ids stall_name ≡ some 0
    → read_event id m ≡ some e
    → get_elem? t.states (bits_of h m).state ≡ some row
    → get_request_state t id h m ≡ some ready
    → All (λ a. is_fault (action_id a) ≡ false) (get_actions row (event_number e))
    → Moved t h m (get_next_state row (event_number e)) (process_request t id memory h m)
unfolding process_request handle_action GoesOn
process_request-Moved t id memory h m e row z r s q f =
    subst (Moved t h m (get_next_state row (event_number e))) (sym opened) (
      handle_each-GoesOn _ id memory m _ (get_actions row (event_number e)) f
        ([], [], refl, tt, tt))
  where
    event : ℕ
    event = event_number e

    next : ℕ
    next = get_next_state row event

    updates : List ControllerAction
    updates =
        update_cache_line m (record (bits_of h m) { valid = is_valid_state t next; state = next })
        ∷ []

    opened :
        process_request t id memory h m ≡ handle_each id memory m updates (get_actions row event)
    opened =
        ap
          (λ o. and_then o (λ ev.
            and_then (get_transition t (bits_of h m).state (event_number ev))
              (λ (n, actions). handle_action t id memory actions m (bits_of h m) n)))
          r
        ∙ ap (λ o. and_then o (λ (n, actions). handle_action t id memory actions m (bits_of h m) n))
            (get_transition-row t (bits_of h m).state event row s)
        ∙ ap (λ b. handle_each id memory m (if b then [] else updates) (get_actions row event))
            (stalls_first-contains (get_actions row event) (ready-contains t id h m e row z r s q))

-- ===== src/Protocol/Owner.antt =====
-- LLCMSIProtocol::handleAction: when it answers, and the owner that it leaves in the line.
use octopus_simulator.Common.{
  ℕ, ◌≡◌, refl, sym, ap, ◌∙◌, inl, inr, Bool, true, false, ◌||◌, Option, none, some, List, [], ◌∷◌,
  ◌++◌, and_then, Bool-cases,
}
use octopus_simulator.Message.{Message}
use octopus_simulator.Cache.Line.{Line}
use octopus_simulator.Protocol.Table.{Table, is_valid_state}
use octopus_simulator.Protocol.Actions.{ControllerAction, update_cache_line}
use octopus_simulator.Protocol.Llc.{
  ActionId, stall, get_data, send_data, save_data, set_owner, clear_owner, issue_inv, back, fault,
  unknown_action, action_id, Progress, handle_one, handle_each, finish, handle_action,
}
use mathlib.Core.List.{append_assoc, append-nil}

abbrev pub is_fatal : ActionId → Bool
is_fatal stall = true
is_fatal fault = true
is_fatal _ = false

abbrev pub any_fatal : List ℕ → Bool
unfolding action_id
any_fatal [] = false
any_fatal (a ∷ ids) = is_fatal (action_id a) || any_fatal ids

abbrev pub owner_by : ℕ → Option ℕ → ActionId → Option ℕ
owner_by who owner set_owner = some who
owner_by who owner clear_owner = none
owner_by who owner _ = owner

-- The owner after the actions: the last one that sets or clears it decides.
unfoldable pub owner_after : ℕ → Option ℕ → List ℕ → Option ℕ
unfolding action_id
owner_after who owner [] = owner
owner_after who owner (a ∷ ids) = owner_after who (owner_by who owner (action_id a)) ids

-- A round that goes on: some more actions, and the owner of the action.
abbrev GoesOn : Message → Progress → ActionId → Option Progress → Type 0
GoesOn m (line, done) a r =
    (more : List ControllerAction) × (r
      ≡ some (record line { owner_id = owner_by m.owner line.owner_id a }, done ++ more))

handle_one-fatal :
    (id memory : ℕ) (m : Message) (p : Progress) (a : ActionId)
    → is_fatal a ≡ true
    → handle_one id memory m p a ≡ none
unfolding handle_one
handle_one-fatal id memory m (line, done) stall h = refl
handle_one-fatal id memory m (line, done) fault h = refl
handle_one-fatal id memory m (line, done) get_data h = cc
handle_one-fatal id memory m (line, done) send_data h = cc
handle_one-fatal id memory m (line, done) save_data h = cc
handle_one-fatal id memory m (line, done) set_owner h = cc
handle_one-fatal id memory m (line, done) clear_owner h = cc
handle_one-fatal id memory m (line, done) issue_inv h = cc
handle_one-fatal id memory m (line, done) back h = cc
handle_one-fatal id memory m (line, done) unknown_action h = cc

handle_one-GoesOn :
    (id memory : ℕ) (m : Message) (p : Progress) (a : ActionId)
    → is_fatal a ≡ false
    → GoesOn m p a (handle_one id memory m p a)
unfolding handle_one
handle_one-GoesOn id memory m (line, done) stall h = cc
handle_one-GoesOn id memory m (line, done) fault h = cc
handle_one-GoesOn id memory m (line, done) get_data h = (_, refl)
handle_one-GoesOn id memory m (line, done) send_data h = (_, refl)
handle_one-GoesOn id memory m (line, done) save_data h = (_, refl)
handle_one-GoesOn id memory m (line, done) set_owner h = (_, refl)
handle_one-GoesOn id memory m (line, done) clear_owner h = (_, refl)
handle_one-GoesOn id memory m (line, done) issue_inv h = (_, refl)
handle_one-GoesOn id memory m (line, done) back h = (_, refl)
handle_one-GoesOn id memory m (line, done) unknown_action h = (_, refl)

-- What the loop comes to: nothing if it meets a fatal action, otherwise some more actions and the owner.
abbrev Served : Message → Progress → List ℕ → Bool → Option Progress → Type 0
unfolding owner_after
Served m p ids true r = r ≡ none
Served m (line, done) ids false r =
    (more : List ControllerAction) × (r
      ≡ some (record line { owner_id = owner_after m.owner line.owner_id ids }, done ++ more))

Served-step :
    (m : Message) (p : Progress) (a : ℕ) (ids : List ℕ) (b : Bool) (r : Option Progress)
    (k : Progress → Option Progress)
    → GoesOn m p (action_id a) r
    → ((q : Progress) → Served m q ids b (k q))
    → Served m p (a ∷ ids) b (and_then r k)
unfolding owner_after
Served-step m (line, done) a ids true r k (more, e) f = rw e (f _)
Served-step m (line, done) a ids false r k (more, e) f = (
  more ++ (f q).0,
  ap (λ o. and_then o k) e
      ∙ (f q).1
      ∙ ap (λ xs. some (record line { owner_id = owner_after m.owner q.0.owner_id ids }, xs))
          (append_assoc done more (f q).0),
)
  where
    q : Progress
    q = (record line { owner_id = owner_by m.owner line.owner_id (action_id a) }, done ++ more)

handle_each-Served :
    (id memory : ℕ) (m : Message) (p : Progress) (ids : List ℕ)
    → Served m p ids (any_fatal ids) (handle_each id memory m p ids)
unfolding handle_each any_fatal owner_after
handle_each-Served id memory m (line, done) [] =
    ([], ap (λ xs. some (line, xs)) (sym (append-nil done)))
handle_each-Served id memory m p (a ∷ ids) = elim (Bool-cases (is_fatal (action_id a))) [
  | inl e ↦ rw (e, handle_one-fatal id memory m p (action_id a) e) refl
  | inr e ↦ rw e (
      Served-step m p a ids (any_fatal ids) (handle_one id memory m p (action_id a))
        (λ q. handle_each id memory m q ids) (handle_one-GoesOn id memory m p (action_id a) e)
        (λ q. handle_each-Served id memory m q ids))
]

-- The answer: none, or actions of which the last one updates the line.
abbrev pub Answered :
    Table → Message → Line → ℕ → List ℕ → Bool → Option (List ControllerAction) → Type 0
unfolding owner_after is_valid_state
Answered t m line next ids true r = r ≡ none
Answered t m line next ids false r =
    (front : List ControllerAction) × (r
      ≡ some (
          front
          ++ update_cache_line m (record line {
            valid = is_valid_state t next;
            state = next;
            owner_id = owner_after m.owner line.owner_id ids;
          })
            ∷ []))

Answered-finish :
    (t : Table) (m : Message) (line : Line) (next : ℕ) (ids : List ℕ) (b : Bool)
    (r : Option Progress)
    → Served m (line, []) ids b r
    → Answered t m line next ids b (and_then r (λ p. some (finish t next m p)))
unfolding finish Served Answered
Answered-finish t m line next ids true r h = rw h refl
Answered-finish t m line next ids false r (more, e) = (more, rw e refl)

-- A shared cache's MSI protocol exits at a row that has Stall or Fault among its actions. On every other
-- row it answers, and the last action writes the line back with the row's next state, with that
-- state's validity, and with the owner that the last SetOwner or ClearOwner of the row decides.
pub handle_action-Answered :
    (t : Table) (id memory : ℕ) (ids : List ℕ) (m : Message) (line : Line) (next : ℕ)
    → Answered t m line next ids (any_fatal ids) (handle_action t id memory ids m line next)
unfolding handle_action
handle_action-Answered t id memory ids m line next =
    Answered-finish t m line next ids (any_fatal ids) (handle_each id memory m (line, []) ids)
      (handle_each-Served id memory m (line, []) ids)

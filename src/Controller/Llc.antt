-- ===== src/Controller/Llc.antt =====
-- A shared cache: the controller of src/CacheControllers/CacheController.cpp with the protocols of
-- src/Protocols/LLCMSIProtocol.cpp and LLCMESIProtocol.cpp.
use octopus_simulator.Common.{
  ℕ, zero, ◌≤◌, ◌≡◌, ◌⊎◌, refl, sym, ap, ◌∙◌, subst, Bool, false, Option, none, some, List, [], ◌∷◌,
  ◌++◌, if_keeps, and_then, arith, Ends,
}
use octopus_simulator.Message.{Message, is_lower}
use octopus_simulator.Cache.Line.{Line}
use octopus_simulator.Cache.Registers.{Handler}
use octopus_simulator.Protocol.Table.{Table, get_transition}
use octopus_simulator.Protocol.Actions.{ControllerAction}
use octopus_simulator.Protocol.Msi.{bits_of}
use octopus_simulator.Protocol.Llc.{
  ActionId, stall, get_data, send_data, save_data, set_owner, clear_owner, issue_inv, back, fault,
  unknown_action, action_id, event_number, read_event, data_answer, exclusive_answer, Progress,
  handle_one, handle_each, finish, handle_action, handle_mesi_action, is_exclusive,
  without_exclusive, process_request, is_request_ready, needs_data_array,
}
use octopus_simulator.Controller.{Controller, Rules, Parts}
use octopus_simulator.Controller.Keeps.{after_action, after_actions}
use octopus_simulator.Controller.Cycle.{process_rounds}
use octopus_simulator.Controller.Weight.{weight}
use octopus_simulator.Controller.Rounds.{IsFirm, Drained, TurnedAway, process_rounds-Ends}

abbrev pub holds : Option Bool → Bool
holds none = false
holds (some b) = b

-- The protocol of a shared cache as a controller sees it. A message with no event is not ready; the code
-- exits at it, or goes on with an event that is not initialised.
abbrev pub llc_rules : Bool → Table → ℕ → ℕ → Rules
llc_rules mesi t id memory = record {
  is_request_ready = λ h m. holds (is_request_ready t id h m);
  process = process_request mesi t id memory;
  needs_array = λ h m. holds (needs_data_array t id h m);
}

after_actions-append :
    (xs ys : List ControllerAction) (n : ℕ)
    → after_actions (xs ++ ys) n ≡ after_actions ys (after_actions xs n)
after_actions-append [] ys n = refl
after_actions-append (x ∷ xs) ys n = after_actions-append xs ys (after_action x n)

-- Actions without a stall.
abbrev NoStall : List ControllerAction → Type 0
NoStall actions = after_actions actions 0 ≡ 0

NoStall-append : (xs ys : List ControllerAction) → NoStall xs → NoStall ys → NoStall (xs ++ ys)
NoStall-append xs ys h g = after_actions-append xs ys 0 ∙ ap (after_actions ys) h ∙ g

-- What holds of the result, if there is one.
abbrev Given {ℓ} : {A : Type ℓ} → (A → Type 0) → Option A → Type 0
Given P none = zero ≡ zero
Given P (some a) = P a

Given-and_then {ℓ m} :
    {A : Type ℓ} {B : Type m} (P : A → Type 0) (Q : B → Type 0) (o : Option A) (k : A → Option B)
    → Given P o
    → ((a : A) → P a → Given Q (k a))
    → Given Q (and_then o k)
Given-and_then P Q none k h f = refl
Given-and_then P Q (some a) k h f = f a h

Given-always {ℓ m} :
    {A : Type ℓ} {B : Type m} (Q : B → Type 0) (o : Option A) (k : A → Option B)
    → ((a : A) → Given Q (k a))
    → Given Q (and_then o k)
Given-always Q none k f = refl
Given-always Q (some a) k f = f a

data_answer-NoStall : (m : Message) → NoStall (data_answer m ∷ [])
unfolding data_answer
data_answer-NoStall m = if_keeps (λ a. NoStall (a ∷ [])) (is_lower m.source) (λ e. refl) (λ e. refl)

exclusive_answer-NoStall : (m : Message) → NoStall (exclusive_answer m ∷ [])
unfolding exclusive_answer
exclusive_answer-NoStall m =
    if_keeps (λ a. NoStall (a ∷ [])) (is_lower m.source) (λ e. refl) (λ e. refl)

Quiet : Progress → Type 0
Quiet p = NoStall p.1

handle_one-Quiet :
    (id memory : ℕ) (m : Message) (p : Progress) (a : ActionId)
    → Quiet p
    → Given Quiet (handle_one id memory m p a)
unfolding handle_one Quiet
handle_one-Quiet id memory m (line, done) stall h = refl
handle_one-Quiet id memory m (line, done) get_data h = NoStall-append done _ h refl
handle_one-Quiet id memory m (line, done) send_data h =
    NoStall-append done _ h (data_answer-NoStall m)
handle_one-Quiet id memory m (line, done) save_data h = NoStall-append done _ h refl
handle_one-Quiet id memory m (line, done) set_owner h = NoStall-append done _ h refl
handle_one-Quiet id memory m (line, done) clear_owner h = NoStall-append done _ h refl
handle_one-Quiet id memory m (line, done) issue_inv h = NoStall-append done _ h refl
handle_one-Quiet id memory m (line, done) back h = NoStall-append done _ h refl
handle_one-Quiet id memory m (line, done) fault h = refl
handle_one-Quiet id memory m (line, done) unknown_action h = NoStall-append done _ h refl

handle_each-Quiet :
    (id memory : ℕ) (m : Message) (p : Progress) (ids : List ℕ)
    → Quiet p
    → Given Quiet (handle_each id memory m p ids)
unfolding handle_each
handle_each-Quiet id memory m p [] h = h
handle_each-Quiet id memory m p (a ∷ ids) h =
    Given-and_then Quiet Quiet (handle_one id memory m p (action_id a)) _
      (handle_one-Quiet id memory m p (action_id a) h)
      (λ q g. handle_each-Quiet id memory m q ids g)

handle_action-NoStall :
    (t : Table) (id memory : ℕ) (actions : List ℕ) (m : Message) (line : Line) (next : ℕ)
    → Given NoStall (handle_action t id memory actions m line next)
unfolding handle_action finish Quiet
handle_action-NoStall t id memory actions m line next =
    Given-and_then Quiet NoStall (handle_each id memory m (line, []) actions) _
      (handle_each-Quiet id memory m (line, []) actions refl) (λ p h. NoStall-append p.1 _ h refl)

handle_mesi_action-NoStall :
    (t : Table) (id memory : ℕ) (actions : List ℕ) (m : Message) (line : Line) (next : ℕ)
    → Given NoStall (handle_mesi_action t id memory actions m line next)
unfolding handle_mesi_action
handle_mesi_action-NoStall t id memory actions m line next =
    Given-and_then NoStall NoStall
      (handle_action t id memory (without_exclusive actions) m line next) _
      (handle_action-NoStall t id memory (without_exclusive actions) m line next)
      (λ done h.
        if_keeps NoStall (is_exclusive actions)
          (λ e. NoStall-append done _ h (exclusive_answer-NoStall m)) (λ e. h))

process_request-NoStall :
    (mesi : Bool) (t : Table) (id memory : ℕ) (h : Handler) (m : Message)
    → Given NoStall (process_request mesi t id memory h m)
unfolding process_request
process_request-NoStall mesi t id memory h m =
    Given-always NoStall (read_event id m (bits_of h m)) _ (λ e.
      Given-always NoStall (get_transition t (bits_of h m).state (event_number e)) _
        (λ (next, actions).
          if_keeps (Given NoStall) mesi
            (λ f. handle_mesi_action-NoStall t id memory actions m (bits_of h m) next)
            (λ f. handle_action-NoStall t id memory actions m (bits_of h m) next)))

-- A shared cache's protocol never answers with a stall.
pub llc_rules-IsFirm :
    (mesi : Bool) (t : Table) (id memory : ℕ) → IsFirm (llc_rules mesi t id memory)
llc_rules-IsFirm mesi t id memory h m actions e = (omega (arith, quiet), λ r. quiet)
  where
    quiet : NoStall actions
    quiet = subst (Given NoStall) e (process_request-NoStall mesi t id memory h m)

module _ {U L : Type 0} (parts : Parts U L) (mesi : Bool) (t : Table) (id memory : ℕ)
    (of_llc : parts.rules ≡ llc_rules mesi t id memory) where
  -- In a shared cache, whatever the table of its MSI or MESI protocol, the loop of `processLogic` never
  -- runs out of rounds when it has two for each message that the queue holds as ready and one for
  -- each other: it exits, or it ends with a queue that is no heavier, because the queue hands nothing
  -- out or because a message that it handed out is not admitted.
  pub process_rounds-shared :
      (n : ℕ) (c : Controller U L)
      → weight c.processing_queue.elements ≤ n
      → Ends
          (λ d. (weight d.processing_queue.elements ≤ n) × (Drained parts d ⊎ TurnedAway parts d))
          (process_rounds parts n c)
  process_rounds-shared n c h =
      process_rounds-Ends parts (subst IsFirm (sym of_llc) (llc_rules-IsFirm mesi t id memory)) n c
        h

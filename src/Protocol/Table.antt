-- ===== src/Protocol/Table.antt =====
-- src/FSMReader.cpp: a state machine as its table. The text of a cell is taken as split and trimmed,
-- and the names in it as resolved to their numbers; a row outside of the table is `none`.
use octopus_simulator.Common.{
  ℕ, suc, Bool, false, ◌||◌, Option, none, some, List, [], ◌∷◌, get_elem?, ◌==◌, if◌then◌else◌,
}

-- The names that the protocols look up in `m_actionIds`.
pub data ActionName : Type 0 where
  stall_name hit_name data2_req_name data2_both_name : ActionName
  send_data_name send_exclusive_data_name save_data_name : ActionName

-- One event's field of a row: empty, a next state alone, or actions and, behind the last `/`, possibly a
-- next state.
pub data Cell : Type 0 where
  empty : Cell
  next_only : ℕ → Cell
  actions_then : List ℕ → Option ℕ → Cell

-- FSMReader::FSMState.
pub record FsmState : Type 0 where
  pub is_data_valid : Bool
  pub stable : Bool
  pub transitions : List (ℕ × ℕ)
  pub actions : List (ℕ × List ℕ)
  pub own_state : ℕ

pub record Table : Type 0 where
  pub states : List FsmState
  pub action_ids : ActionName → Option ℕ

-- What the constructor puts into `transitions` for a cell.
unfoldable pub next_in : ℕ → Cell → ℕ
next_in own empty = own
next_in own (next_only s) = s
next_in own (actions_then ids none) = own
next_in own (actions_then ids (some s)) = s

-- The loops of the constructor over the fields from event `e` on.
unfoldable pub read_transitions : ℕ → ℕ → List Cell → List (ℕ × ℕ)
unfolding next_in
read_transitions own e [] = []
read_transitions own e (c ∷ cells) = (e, next_in own c) ∷ read_transitions own (suc e) cells

unfoldable pub read_actions : ℕ → List Cell → List (ℕ × List ℕ)
read_actions e [] = []
read_actions e (actions_then ids s ∷ cells) = (e, ids) ∷ read_actions (suc e) cells
read_actions e (empty ∷ cells) = read_actions (suc e) cells
read_actions e (next_only s ∷ cells) = read_actions (suc e) cells

unfoldable pub read_state : ℕ → Bool → Bool → List Cell → FsmState
unfolding read_transitions read_actions
read_state own stable is_data_valid cells = record {
  is_data_valid = is_data_valid;
  stable = stable;
  transitions = read_transitions own 0 cells;
  actions = read_actions 0 cells;
  own_state = own;
}

abbrev pub next_from : ℕ → List (ℕ × ℕ) → ℕ → ℕ
next_from own [] event = own
next_from own ((e, s) ∷ ts) event = if e == event then s else next_from own ts event

unfoldable pub get_next_state : FsmState → ℕ → ℕ
get_next_state s event = next_from s.own_state s.transitions event

-- A missing key is an empty vector.
abbrev pub actions_from : List (ℕ × List ℕ) → ℕ → List ℕ
actions_from [] event = []
actions_from ((e, ids) ∷ rest) event = if e == event then ids else actions_from rest event

unfoldable pub get_actions : FsmState → ℕ → List ℕ
get_actions s event = actions_from s.actions event

abbrev pub contains : List ℕ → ℕ → Bool
contains [] id = false
contains (a ∷ ids) id = (a == id) || contains ids id

-- `m_actionIds[name]`, which is 0 for a new key.
abbrev pub id_or_zero : Option ℕ → ℕ
id_or_zero none = 0
id_or_zero (some id) = id

-- `getActions` of row `state`; `none` if there is no such row.
unfoldable pub row_actions : Table → ℕ → ℕ → Option (List ℕ)
unfolding get_actions
row_actions t state event = elim (get_elem? t.states state) [
  | none ↦ none
  | some s ↦ some (get_actions s event)
]

abbrev pub contains_in : Option (List ℕ) → ℕ → Bool
contains_in none id = false
contains_in (some ids) id = contains ids id

unfoldable pub is_hit : Table → ℕ → ℕ → Bool
unfolding row_actions
is_hit t state event = contains_in (row_actions t state event) (id_or_zero (t.action_ids hit_name))

unfoldable pub is_stall : Table → ℕ → ℕ → Bool
unfolding row_actions
is_stall t state event =
    contains_in (row_actions t state event) (id_or_zero (t.action_ids stall_name))

unfoldable pub has_action : Table → ℕ → ℕ → ActionName → Bool
unfolding row_actions
has_action t state event name = elim (t.action_ids name) [
  | none ↦ false
  | some id ↦ contains_in (row_actions t state event) id
]

unfoldable pub is_valid_state : Table → ℕ → Bool
is_valid_state t state = elim (get_elem? t.states state) [ none ↦ false | some s ↦ s.is_data_valid ]

unfoldable pub get_transition : Table → ℕ → ℕ → Option (ℕ × List ℕ)
unfolding get_next_state get_actions
get_transition t state event = elim (get_elem? t.states state) [
  | none ↦ none
  | some s ↦ some (get_next_state s event, get_actions s event)
]

-- ===== src/Protocol/Cells.antt =====
-- A row of a table against the cells that it was read from.
use octopus_simulator.Common.{
  ℕ, zero, suc, ◌+◌, ◌<◌, ◌≡◌, refl, ap, ◌∙◌, Bool, false, Option, none, some, List, [], ◌∷◌,
  get_elem?, eq→==, ◌==◌, arith,
}
use octopus_simulator.Protocol.Table.{
  Cell, empty, next_only, actions_then, next_in, read_transitions, read_actions, read_state,
  next_from, get_next_state, actions_from, get_actions,
}

-- The next state by the cell of an event, and its actions; an event past the last cell has none.
abbrev pub next_by : ℕ → Option Cell → ℕ
unfolding next_in
next_by own none = own
next_by own (some c) = next_in own c

abbrev pub actions_by : Option Cell → List ℕ
actions_by none = []
actions_by (some empty) = []
actions_by (some (next_only s)) = []
actions_by (some (actions_then ids s)) = ids

shift_lem : (e i : ℕ) → e + suc i ≡ suc e + i
shift_lem e i = omega arith

later_lem : (e i : ℕ) → (e == e + suc i) ≡ false
later_lem e i = ground arith

next_from-read_transitions :
    (own e i : ℕ) (cells : List Cell)
    → next_from own (read_transitions own e cells) (e + i) ≡ next_by own (get_elem? cells i)
unfolding read_transitions
next_from-read_transitions own e i [] = refl
next_from-read_transitions own e zero (c ∷ cells) = rw (eq→== e (e + 0) (omega arith)) refl
next_from-read_transitions own e (suc i) (c ∷ cells) = rw (later_lem e i) (
    ap (next_from own (read_transitions own (suc e) cells)) (shift_lem e i)
    ∙ next_from-read_transitions own (suc e) i cells)

-- No event before the first field has actions.
actions_from-earlier :
    (e event : ℕ) (cells : List Cell) → event < e → actions_from (read_actions e cells) event ≡ []
unfolding read_actions
actions_from-earlier e event [] h = refl
actions_from-earlier e event (empty ∷ cells) h =
    actions_from-earlier (suc e) event cells (omega arith)
actions_from-earlier e event (next_only s ∷ cells) h =
    actions_from-earlier (suc e) event cells (omega arith)
actions_from-earlier e event (actions_then ids s ∷ cells) h =
    rw different (actions_from-earlier (suc e) event cells (omega arith))
  where
    different : (e == event) ≡ false
    different = ground arith

actions_from-read_actions :
    (e i : ℕ) (cells : List Cell)
    → actions_from (read_actions e cells) (e + i) ≡ actions_by (get_elem? cells i)
unfolding read_actions
actions_from-read_actions e i [] = refl
actions_from-read_actions e zero (empty ∷ cells) =
    actions_from-earlier (suc e) (e + 0) cells (omega arith)
actions_from-read_actions e zero (next_only s ∷ cells) =
    actions_from-earlier (suc e) (e + 0) cells (omega arith)
actions_from-read_actions e zero (actions_then ids s ∷ cells) =
    rw (eq→== e (e + 0) (omega arith)) refl
actions_from-read_actions e (suc i) (empty ∷ cells) =
    ap (actions_from (read_actions (suc e) cells)) (shift_lem e i)
    ∙ actions_from-read_actions (suc e) i cells
actions_from-read_actions e (suc i) (next_only s ∷ cells) =
    ap (actions_from (read_actions (suc e) cells)) (shift_lem e i)
    ∙ actions_from-read_actions (suc e) i cells
actions_from-read_actions e (suc i) (actions_then ids s ∷ cells) = rw (later_lem e i) (
    ap (actions_from (read_actions (suc e) cells)) (shift_lem e i)
    ∙ actions_from-read_actions (suc e) i cells)

-- A row read from cells answers every event by that event's cell. An empty cell, a cell without a next
-- state and a missing cell keep the row's own state, and only a cell with actions has any.
read_state-answers :
    (own event : ℕ) (stable is_data_valid : Bool) (cells : List Cell)
    → (get_next_state (read_state own stable is_data_valid cells) event
        ≡ next_by own (get_elem? cells event))
      × (get_actions (read_state own stable is_data_valid cells) event
          ≡ actions_by (get_elem? cells event))
unfolding get_next_state get_actions read_state
read_state-answers own event stable is_data_valid cells = (
  ap (next_from own (read_transitions own 0 cells)) start
      ∙ next_from-read_transitions own 0 event cells,
  ap (actions_from (read_actions 0 cells)) start ∙ actions_from-read_actions 0 event cells,
)
  where
    start : event ≡ 0 + event
    start = omega arith

-- ===== src/Clock.antt =====
-- src/ClockManager.cpp and header/ClockManager.h: the clocked objects and the events that run them. An
-- object is the number that it registers under, which it does once; its period, its `init` and its
-- `cycleProcess` are arguments. The map of events is the list of its keys in their order.
pub mod Step
pub mod Order
pub mod Timely
mod Tests
use octopus_simulator.Common.{
  ℕ, zero, suc, ◌+◌, Bool, true, false, ◌&&◌, ◌||◌, not, Option, none, some, List, [], ◌∷◌, ◌++◌,
  Outcome, ok, exits, no_fuel, and_run, ltb, ◌==◌, if◌then◌else◌,
}

pub record EventKey : Type 0 where
  pub time_stamp : ℕ
  pub obj_id : ℕ

-- `operator <`.
unfoldable pub is_earlier : EventKey → EventKey → Bool
is_earlier a b =
    ltb a.time_stamp b.time_stamp || (a.time_stamp == b.time_stamp && ltb a.obj_id b.obj_id)

pub record Clock : Type 0 where
  pub clk_run : Bool
  pub current_time : ℕ
  pub clock_triggers : List ℕ
  pub events : List EventKey
  pub next_obj_id : ℕ

unfoldable pub new_clock : Clock
new_clock = record {
  clk_run = false;
  current_time = 0;
  clock_triggers = [];
  events = [];
  next_obj_id = 0;
}

-- `events.insert`: a key that is there stays as it is.
unfoldable pub insert_event : List EventKey → EventKey → List EventKey
unfolding is_earlier
insert_event [] k = k ∷ []
insert_event (e ∷ es) k =
    let later = insert_event es k in
    if is_earlier e k then e ∷ later else if is_earlier k e then k ∷ e ∷ es else e ∷ es

unfoldable pub register_clk_obj : Clock → ℕ → Clock
unfolding insert_event
register_clk_obj c clk_period = record c {
  events = insert_event c.events (record { time_stamp = clk_period; obj_id = c.next_obj_id });
  next_obj_id = suc c.next_obj_id;
}

unfoldable pub without_object : ℕ → List EventKey → List EventKey
without_object obj [] = []
without_object obj (e ∷ es) = if e.obj_id == obj then es else e ∷ without_object obj es

unfoldable pub deregister_clk_obj : Clock → ℕ → Clock
unfolding without_object
deregister_clk_obj c obj = record c { events = without_object obj c.events }

unfoldable pub register_clk_trigger : Clock → ℕ → Clock
register_clk_trigger c obj = record c { clock_triggers = c.clock_triggers ++ obj ∷ [] }

unfoldable pub without_trigger : ℕ → List ℕ → List ℕ
without_trigger obj [] = []
without_trigger obj (t ∷ ts) = if t == obj then ts else t ∷ without_trigger obj ts

unfoldable pub is_any_trigger : List ℕ → Bool
is_any_trigger [] = false
is_any_trigger (t ∷ ts) = true

unfoldable pub stop_clock : Clock → ℕ → Clock
unfolding without_trigger is_any_trigger
stop_clock c obj =
    let triggers = without_trigger obj c.clock_triggers in
    record c { clock_triggers = triggers; clk_run = is_any_trigger triggers && c.clk_run }

-- What a round of `clkStep` finds; `begin()` of an empty map reads no event.
pub data Turn : Type 0 where
  no_event missed : Turn
  advances : ℕ → Turn
  runs : EventKey → List EventKey → Turn

unfoldable pub turn : ℕ → List EventKey → Turn
turn t [] = no_event
turn t (e ∷ es) =
    if ltb t e.time_stamp
    then advances e.time_stamp
    else if ltb e.time_stamp t
    then missed
    else runs e es

module _ {W : Type 0} (period : ℕ → ℕ) (init_obj : ℕ → W → Outcome W)
    (cycle_process : ℕ → W → Outcome W) where
  unfoldable pub init_each : List EventKey → W → Outcome W
  init_each [] w = ok w
  init_each (e ∷ es) w = and_run (init_obj e.obj_id w) (init_each es)

  unfoldable pub has_period_zero : List EventKey → Bool
  has_period_zero [] = false
  has_period_zero (e ∷ es) = period e.obj_id == 0 || has_period_zero es

  unfoldable pub init : Clock → W → Outcome W
  unfolding init_each has_period_zero
  init c w =
      and_run (init_each c.events w) (λ w'. if has_period_zero c.events then exits else ok w')

  unfoldable pub min_from : List EventKey → ℕ → ℕ
  min_from [] m = m
  min_from (e ∷ es) m = min_from es (
      if not (period e.obj_id == 0) && (m == 0 || ltb (period e.obj_id) m)
      then period e.obj_id
      else m)

  unfoldable pub get_min_period : Clock → ℕ
  unfolding min_from
  get_min_period c = min_from c.events 0

  -- The clock after the event `e` has run.
  unfoldable pub rescheduled : Clock → EventKey → List EventKey → Clock
  unfolding insert_event
  rescheduled c e es = record c {
    events = insert_event es (record e { time_stamp = c.current_time + period e.obj_id });
  }

  -- A round by what it finds; `go_on` is the rest of the step behind an event that runs.
  abbrev pub take_turn :
      Turn → Clock → W → (EventKey → List EventKey → Outcome (Clock × W)) → Outcome (Clock × W)
  take_turn no_event c w go_on = exits
  take_turn missed c w go_on = exits
  take_turn (advances t) c w go_on = ok (record c { current_time = t }, w)
  take_turn (runs e es) c w go_on = go_on e es

  -- The loop of `clkStep`, with the rounds that are left.
  unfoldable pub clk_step : ℕ → Clock → W → Outcome (Clock × W)
  unfolding turn rescheduled
  clk_step zero c w = take_turn (turn c.current_time c.events) c w (λ e es. no_fuel)
  clk_step (suc n) c w =
      take_turn (turn c.current_time c.events) c w
        (λ e es. and_run (cycle_process e.obj_id w) (clk_step n (rescheduled c e es)))

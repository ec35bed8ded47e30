-- ===== src/Clock/Step.antt =====
-- ClockManager::clkStep against its description: the objects that are due run once each, in the order of
-- their events, and then the time moves to the next event.
use octopus_simulator.Common.{
  ℕ, zero, suc, ◌+◌, ◌≤◌, ◌<◌, ◌≡◌, refl, sym, ap, ◌∙◌, Bool, true, false, List, [], ◌∷◌, ◌++◌,
  length, All, Outcome, ok, exits, no_fuel, and_run, if_keeps, lt→ltb, arith,
}
use octopus_simulator.Clock.{
  EventKey, is_earlier, Clock, insert_event, advances, runs, turn, rescheduled, take_turn, clk_step,
}
use octopus_simulator.Clock.Order.{Now, Later, insert_event-All}

and_run_assoc {ℓ m n} :
    {A : Type ℓ} {B : Type m} {C : Type n} (o : Outcome A) (f : A → Outcome B) (g : B → Outcome C)
    → and_run (and_run o f) g ≡ and_run o (λ a. and_run (f a) g)
and_run_assoc (ok a) f g = refl
and_run_assoc exits f g = refl
and_run_assoc no_fuel f g = refl

and_run_congruent {ℓ m} :
    {A : Type ℓ} {B : Type m} (o : Outcome A) (f g : A → Outcome B)
    → ((a : A) → f a ≡ g a)
    → and_run o f ≡ and_run o g
and_run_congruent (ok a) f g h = h a
and_run_congruent exits f g h = refl
and_run_congruent no_fuel f g h = refl

-- A later event is inserted behind the events that are due.
insert_event-behind :
    (t : ℕ) (due later : List EventKey) (k : EventKey)
    → All (Now t) due
    → t < k.time_stamp
    → insert_event (due ++ later) k ≡ due ++ insert_event later k
unfolding insert_event is_earlier
insert_event-behind t [] later k d h = refl
insert_event-behind t (e ∷ due) later k (d, ds) h =
    rw (lt→ltb e.time_stamp k.time_stamp (omega (arith, d, h)))
      (ap (λ es. e ∷ es) (insert_event-behind t due later k ds h))

abbrev pub is_any : List EventKey → Bool
is_any [] = false
is_any (e ∷ es) = true

pub is_any-insert : (es : List EventKey) (k : EventKey) → is_any (insert_event es k) ≡ true
unfolding insert_event
is_any-insert [] k = refl
is_any-insert (e ∷ es) k =
    if_keeps (λ xs. is_any xs ≡ true) (is_earlier e k) (λ a. refl)
      (λ a. if_keeps (λ xs. is_any xs ≡ true) (is_earlier k e) (λ b. refl) (λ b. refl))

pub is_any-append : (es later : List EventKey) → is_any later ≡ true → is_any (es ++ later) ≡ true
is_any-append [] later h = h
is_any-append (e ∷ es) later h = refl

module _ {W : Type 0} (period : ℕ → ℕ) (init_obj : ℕ → W → Outcome W)
    (cycle_process : ℕ → W → Outcome W) where
  -- The objects of the events run in turn.
  unfoldable pub run_each : List EventKey → W → Outcome W
  run_each [] w = ok w
  run_each (e ∷ es) w = and_run (cycle_process e.obj_id w) (run_each es)

  -- The events `later`, with those that have run, each a period after `t`.
  unfoldable pub reschedule_each : ℕ → List EventKey → List EventKey → List EventKey
  unfolding insert_event
  reschedule_each t [] later = later
  reschedule_each t (e ∷ due) later =
      reschedule_each t due (insert_event later (record e { time_stamp = t + period e.obj_id }))

  abbrev pub next_time : List EventKey → ℕ
  next_time [] = 0
  next_time (e ∷ es) = e.time_stamp

  -- The clock with those events, and the clock after a step.
  abbrev pub with_events : Clock → List EventKey → Clock
  with_events c es = record c { events = es }

  abbrev pub moved : Clock → List EventKey → Clock
  moved c es = record c { events = es; current_time = next_time es }

  turn_advances :
      (t : ℕ) (e : EventKey) (es : List EventKey)
      → t < e.time_stamp
      → turn t (e ∷ es) ≡ advances e.time_stamp
  unfolding turn
  turn_advances t e es h = rw (lt→ltb t e.time_stamp h) refl

  turn_runs :
      (t : ℕ) (e : EventKey) (es : List EventKey) → e.time_stamp ≡ t → turn t (e ∷ es) ≡ runs e es
  unfolding turn
  turn_runs t e es h = ground (arith, h)

  finish :
      (n : ℕ) (c : Clock) (w : W) (later : List EventKey)
      → All (Later c.current_time) later
      → is_any later ≡ true
      → clk_step period init_obj cycle_process n (with_events c later) w ≡ ok (moved c later, w)
  unfolding clk_step
  finish n c w [] l a = cc
  finish zero c w (e ∷ es) (l, ls) a = rw (turn_advances c.current_time e es l) refl
  finish (suc n) c w (e ∷ es) (l, ls) a = rw (turn_advances c.current_time e es l) refl

  -- If the events are those that are due, then later ones, and every period is positive, then a step with a
  -- round for each due event runs the due objects in turn; if they do not exit, each has its next event a
  -- period later, and the time is that of the next event.
  pub clk_step-run_each :
      (n : ℕ) (c : Clock) (w : W) (due later : List EventKey)
      → All (Now c.current_time) due
      → All (Later c.current_time) later
      → is_any (due ++ later) ≡ true
      → ((obj : ℕ) → 0 < period obj)
      → length due ≤ n
      → clk_step period init_obj cycle_process n (with_events c (due ++ later)) w
        ≡ and_run
            (run_each due w)
            (λ w'. ok (moved c (reschedule_each c.current_time due later), w'))
  unfolding run_each reschedule_each clk_step rescheduled
  clk_step-run_each n c w [] later d l a p h = finish n c w later l a
  clk_step-run_each zero c w (e ∷ due) later d l a p h = absurd (omega (arith, h))
  clk_step-run_each (suc n) c w (e ∷ due) later (d, ds) l a p h =
      ap (λ t. take_turn period init_obj cycle_process t (with_events c (e ∷ due ++ later)) w go_on)
        (turn_runs c.current_time e (due ++ later) d)
      ∙ and_run_congruent (cycle_process e.obj_id w) _ _ (λ w'.
        ap (λ es. clk_step period init_obj cycle_process n (with_events c es) w')
          (insert_event-behind c.current_time due later next ds future)
        ∙ clk_step-run_each n c w' due (insert_event later next) ds
            (insert_event-All (Later c.current_time) later next l future)
            (is_any-append due (insert_event later next) (is_any-insert later next)) p
            (omega (arith, h)))
      ∙ sym (and_run_assoc (cycle_process e.obj_id w) (run_each due) after)
    where
      go_on : EventKey → List EventKey → Outcome (Clock × W)
      go_on k es = and_run (cycle_process k.obj_id w) (
          clk_step period init_obj cycle_process n
            (rescheduled period init_obj cycle_process (with_events c (e ∷ due ++ later)) k es))

      after : W → Outcome (Clock × W)
      after w' = ok (moved c (reschedule_each c.current_time (e ∷ due) later), w')

      next : EventKey
      next = record e { time_stamp = c.current_time + period e.obj_id }

      future : c.current_time < c.current_time + period e.obj_id
      future = omega (arith, p e.obj_id)

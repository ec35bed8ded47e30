-- ===== src/Clock/Timely.antt =====
-- ClockManager::clkStep keeps the events in order and none in the past, and it ends.
use octopus_simulator.Common.{
  ℕ, ◌+◌, ◌≤◌, ◌<◌, ◌≡◌, refl, sym, ap, ◌∙◌, subst, true, List, [], ◌∷◌, ◌++◌, length,
  length-append, All, Outcome, ok, and_run, Ends, ended, Ends-and_run, arith,
}
use octopus_simulator.Clock.{EventKey, Clock, insert_event, clk_step}
use octopus_simulator.Clock.Order.{
  Later, NotPast, Sorted, insert_event-All, insert_event-Sorted, Sorted-NotPast, Split, split,
}
use octopus_simulator.Clock.Step.{
  is_any, is_any-append, is_any-insert, moved, run_each, reschedule_each, clk_step-run_each,
}

-- The events are in order, there is one, and none is in the past.
abbrev pub IsTimely : Clock → Type 0
IsTimely c = Sorted c.events × All (NotPast c.current_time) c.events × (is_any c.events ≡ true)

module _ {W : Type 0} (period : ℕ → ℕ) (init_obj : ℕ → W → Outcome W)
    (cycle_process : ℕ → W → Outcome W) (positive : (obj : ℕ) → 0 < period obj) (Fine : W → Type 0)
    (ends : (obj : ℕ) (w : W) → Fine w → Ends Fine (cycle_process obj w)) where
  run_each-Ends :
      (es : List EventKey) (w : W)
      → Fine w
      → Ends Fine (run_each period init_obj cycle_process es w)
  unfolding run_each
  run_each-Ends [] w h = ended h
  run_each-Ends (e ∷ es) w h = Ends-and_run (ends e.obj_id w h) (λ v g. run_each-Ends es v g)

  -- Later events, in order, one of them at least.
  abbrev Future : ℕ → List EventKey → Type 0
  Future t es = Sorted es × All (Later t) es × (is_any es ≡ true)

  reschedule_each-Future :
      (t : ℕ) (due later : List EventKey)
      → Sorted later
      → All (Later t) later
      → is_any (due ++ later) ≡ true
      → Future t (reschedule_each period init_obj cycle_process t due later)
  unfolding reschedule_each
  reschedule_each-Future t [] later s l a = (s, l, a)
  reschedule_each-Future t (e ∷ due) later s l a =
      reschedule_each-Future t due
        (insert_event later (record e { time_stamp = t + period e.obj_id }))
        (insert_event-Sorted later (record e { time_stamp = t + period e.obj_id }) s)
        (insert_event-All (Later t) later (record e { time_stamp = t + period e.obj_id }) l
          (omega (arith, positive e.obj_id)))
        (is_any-append due _ (is_any-insert later _))

  Timely-moved :
      (c : Clock) (es : List EventKey)
      → Future c.current_time es
      → IsTimely (moved period init_obj cycle_process c es)
        × (c.current_time < (moved period init_obj cycle_process c es).current_time)
  Timely-moved c [] (s, l, a) = cc
  Timely-moved c (e ∷ es) (s, l, a) =
      ((s, Sorted-NotPast e.time_stamp e es s (omega arith), refl), l.0)

  -- If the events of a clock are in order, there is one and none is in the past, if every period is positive,
  -- and if the objects' cycles keep what they rely on and end, then a step with a round for each
  -- event ends; unless an object exits, the clock has moved on, and its events are again in order
  -- with none in the past.
  pub clk_step-IsTimely :
      (n : ℕ) (c : Clock) (w : W)
      → IsTimely c
      → Fine w
      → length c.events ≤ n
      → Ends
          (λ (r : Clock × W). IsTimely r.0 × (c.current_time < r.0.current_time) × Fine r.1)
          (clk_step period init_obj cycle_process n c w)
  clk_step-IsTimely n c w (s, l, a) f h =
      subst (λ o. Ends Moved o) (sym steps)
        (Ends-and_run (run_each-Ends parts.due w f) (λ v g. ended (later.0, later.1, g)))
    where
      Moved : Clock × W → Type 0
      Moved r = IsTimely r.0 × (c.current_time < r.0.current_time) × Fine r.1

      parts : Split c.current_time c.events
      parts = split c.current_time c.events s l

      any : is_any (parts.due ++ parts.later) ≡ true
      any = subst (λ es. is_any es ≡ true) parts.whole a

      short : length parts.due ≤ n
      short = omega (arith, h, ap length parts.whole, length-append parts.due parts.later)

      later :
          IsTimely (
            moved period init_obj cycle_process c
              (reschedule_each period init_obj cycle_process c.current_time parts.due parts.later))
          × (c.current_time
              < (moved period init_obj cycle_process c (
                  reschedule_each period init_obj cycle_process c.current_time parts.due
                    parts.later)).current_time)
      later = Timely-moved c _ (
          reschedule_each-Future c.current_time parts.due parts.later parts.later_Sorted
            parts.all_later any)

      steps :
          clk_step period init_obj cycle_process n c w
          ≡ and_run (run_each period init_obj cycle_process parts.due w) (λ w'. ok (
            moved period init_obj cycle_process c (
                reschedule_each period init_obj cycle_process c.current_time parts.due parts.later),
            w',
          ))
      steps =
          ap (λ es. clk_step period init_obj cycle_process n (record c { events = es }) w)
            parts.whole
          ∙ clk_step-run_each period init_obj cycle_process n c w parts.due parts.later
              parts.all_now parts.all_later any positive short

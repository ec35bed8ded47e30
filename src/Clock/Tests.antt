-- ===== src/Clock/Tests.antt =====
-- Three objects with periods: two are due at time 4, the third at 6.
use octopus_simulator.Common.{
  ℕ, ◌+◌, ◌≤◌, ◌<◌, ◌≡◌, refl, List, [], ◌∷◌, ◌++◌, Outcome, ok, and_run, Ends, ended, length,
  arith,
}
use octopus_simulator.Clock.{EventKey, is_earlier, Clock, new_clock, clk_step}
use octopus_simulator.Clock.Step.{moved, run_each, reschedule_each, clk_step-run_each}
use octopus_simulator.Clock.Timely.{IsTimely, clk_step-IsTimely}

abbrev period : ℕ → ℕ
period obj = obj + 1

-- The world is the list of the objects that have run.
abbrev log : ℕ → List ℕ → Outcome (List ℕ)
log obj w = ok (w ++ obj ∷ [])

abbrev first : EventKey
first = record { time_stamp = 4; obj_id = 0 }

abbrev second : EventKey
second = record { time_stamp = 4; obj_id = 1 }

abbrev third : EventKey
third = record { time_stamp = 6; obj_id = 2 }

abbrev clock : Clock
unfolding new_clock
clock = record new_clock { current_time = 4; events = first ∷ second ∷ third ∷ [] }

clk_step-run_each_example :
    clk_step period log log 3 clock []
    ≡ and_run (run_each period log log (first ∷ second ∷ []) []) (λ w. ok (
      moved period log log clock
          (reschedule_each period log log 4 (first ∷ second ∷ []) (third ∷ [])),
      w,
    ))
unfolding clock new_clock
clk_step-run_each_example =
    clk_step-run_each period log log 3 clock [] (first ∷ second ∷ []) (third ∷ [])
      (refl, (refl, tt)) (omega arith, tt) refl (λ obj. omega arith) (omega arith)

abbrev Fine : List ℕ → Type 0
Fine w = 0 ≤ length w

clk_step-IsTimely_example :
    Ends
      (λ (r : Clock × List ℕ). IsTimely r.0 × (clock.current_time < r.0.current_time) × Fine r.1)
      (clk_step period log log 3 clock [])
unfolding clock new_clock is_earlier
clk_step-IsTimely_example =
    clk_step-IsTimely period log log (λ obj. omega arith) Fine (λ obj w f. ended (omega arith)) 3
      clock []
      (
        ((refl, (refl, tt)), ((refl, tt), (tt, tt))),
        (omega arith, (omega arith, (omega arith, tt))),
        refl,
      )
      (omega arith) (omega arith)

-- ===== src/Replacement/Tests.antt =====
-- Runs of the replacement policies, and the theorems applied to them.
use octopus_simulator.Common.{ℕ, ◌≡◌, refl, false, some, ◌==◌, List, [], ◌∷◌, arith}
use octopus_simulator.Replacement.{
  Lru, has_bit, stamps_of, lru_update, lru_candidate, random_candidate, oldest_way, oldest_from,
  consider, consider_below, count_from, pick_from,
}
use octopus_simulator.Replacement.Oldest.{IsOldest}
use octopus_simulator.Replacement.Recency.{Access, replay, last_access, lru_candidate-least_recent}
use octopus_simulator.Replacement.Stamps.{place_of, Recorded, lru_update-Recorded}

abbrev lru : Lru
lru = (7, 5 ∷ 3 ∷ 9 ∷ 3 ∷ []) ∷ []

lru_restricted : lru_candidate lru 4 7 13 ≡ 3
unfolding lru_candidate stamps_of consider_below consider
lru_restricted = refl

lru_nothing_allowed : lru_candidate lru 4 7 0 ≡ 1
unfolding lru_candidate stamps_of consider_below consider oldest_way oldest_from
lru_nothing_allowed = refl

random_third : random_candidate 5 4 13 ≡ some 3
unfolding random_candidate count_from pick_from
random_third = refl

-- Ways 0, 1 and 2 of set 7 are filled in turn, and way 0 is used again before way 2.
abbrev history : List Access
history =
    record { set = 7; way = 2; cycle = 12 }
    ∷ record { set = 7; way = 0; cycle = 9 }
    ∷ record { set = 7; way = 1; cycle = 6 }
    ∷ record { set = 7; way = 0; cycle = 5 }
    ∷ []

-- Of the ways 0 and 1, way 1 has gone longest without an access.
lru_after_history : lru_candidate (replay history) 3 7 3 ≡ 1
unfolding lru_candidate stamps_of consider_below consider lru_update
lru_after_history = refl

lru_candidate-least_recent_example :
    IsOldest (has_bit 3) (last_access history 7) 3 (lru_candidate (replay history) 3 7 3)
unfolding stamps_of lru_update
lru_candidate-least_recent_example =
    lru_candidate-least_recent history 3 7 3 1
      (omega arith, (omega arith, (omega arith, (omega arith, tt)))) (omega arith) refl

lru_update-Recorded_example :
    Recorded
      (stamps_of lru 7)
      (place_of (stamps_of lru 7) 6)
      20
      (stamps_of (lru_update lru 7 (some 6) 20) 7)
    × ((t : ℕ) → (7 == t) ≡ false → stamps_of (lru_update lru 7 (some 6) 20) t ≡ stamps_of lru t)
lru_update-Recorded_example = lru_update-Recorded lru 7 6 20

-- ===== src/Arbiter.antt =====
-- src/Arbiters/: the elections among senders' buffers. An election that succeeds returns the elected
-- message and the buffers without it; `false` with untouched buffers is `none`. A vector of buffers
-- is a list, an index -1 is `none`, and ids are natural numbers.
pub mod Oldest
pub mod Head
pub mod Turns
mod Tests
use octopus_simulator.Common.{
  ℕ, zero, suc, ◌+◌, ◌%◌, Bool, true, false, ◌&&◌, Option, none, some, List, [], ◌∷◌, length,
  get_elem?, set, erase_at, ltb, ◌==◌, if◌then◌else◌, and_then,
}
use octopus_simulator.Message.{Message}
use mathlib.Core.Option

-- 0xFFFFFFFFFFFFFFFF, the cycle before which nothing has been found.
abbrev pub no_cycle : ℕ
no_cycle = 0xFFFFFFFFFFFFFFFF

unfoldable pub find_message : List Message → ℕ → Option ℕ
find_message [] id = none
find_message (m ∷ buffer) id =
    if m.owner == id then some 0 else Option.map suc (find_message buffer id)

-- The loop's variables `best_buf`, `best_idx` and `best_cycle`.
pub record Best : Type 0 where
  pub place : Option (ℕ × ℕ)
  pub best_cycle : ℕ

abbrev pub no_best : Best
no_best = record { place = none; best_cycle = no_cycle }

-- One round of the loop of `electOldestOwned`, at buffer `i`.
unfoldable pub improve : List Message → ℕ → ℕ → Best → Best
unfolding find_message
improve buffer i owner best = elim (find_message buffer owner) [
  | none ↦ best
  | some idx ↦ elim (get_elem? buffer idx) [
    | none ↦ best
    | some m ↦
        if ltb m.cycle best.best_cycle
        then record { place = some (i, idx); best_cycle = m.cycle }
        else best
  ]
]

unfoldable pub scan_oldest : List (List Message) → ℕ → ℕ → Best → Best
unfolding improve
scan_oldest [] i owner best = best
scan_oldest (b ∷ buffers) i owner best = scan_oldest buffers (suc i) owner (improve b i owner best)

-- `out_msg->copy(buffers[b]->at(k))`, then the erase.
unfoldable pub take_at : List (List Message) → ℕ → ℕ → Option (Message × List (List Message))
take_at buffers b k =
    and_then (get_elem? buffers b)
      (λ buffer. and_then (get_elem? buffer k) (λ m. some (m, set buffers b (erase_at buffer k))))

unfoldable pub elect_oldest_owned : List (List Message) → ℕ → Option (Message × List (List Message))
unfolding scan_oldest take_at
elect_oldest_owned buffers owner =
    and_then (scan_oldest buffers 0 owner no_best).place (λ (b, k). take_at buffers b k)

-- FCFSArbiter::elect: the loop over the heads of the buffers.
unfoldable pub improve_head : List Message → ℕ → Best → Best
improve_head [] i best = best
improve_head (m ∷ buffer) i best =
    if ltb m.cycle best.best_cycle
    then record { place = some (i, 0); best_cycle = m.cycle }
    else best

unfoldable pub scan_heads : List (List Message) → ℕ → Best → Best
unfolding improve_head
scan_heads [] i best = best
scan_heads (b ∷ buffers) i best = scan_heads buffers (suc i) (improve_head b i best)

unfoldable pub fcfs_elect : List (List Message) → Option (Message × List (List Message))
unfolding scan_heads take_at
fcfs_elect buffers = and_then (scan_heads buffers 0 no_best).place (λ (b, k). take_at buffers b k)

-- The state of an arbiter: `*m_candidates_ids`, `m_arbiter_period`, `candidate_index`, and the round
-- robin's `candidate_id`, which is `none` where `at` would have thrown.
pub record Arbiter : Type 0 where
  pub candidates_ids : List ℕ
  pub arbiter_period : ℕ
  pub candidate_index : ℕ
  pub candidate_id : Option ℕ

unfoldable pub new_arbiter : List ℕ → ℕ → Arbiter
new_arbiter candidates_ids arbiter_period = record {
  candidates_ids = candidates_ids;
  arbiter_period = arbiter_period;
  candidate_index = 0;
  candidate_id = some 0;
}

-- RRArbiter::selectCandidate, with the assignment of its result to `candidate_id`.
unfoldable pub rr_select_candidate : Arbiter → Arbiter
rr_select_candidate a =
    let next = (a.candidate_index + 1) % length a.candidates_ids in
    record a { candidate_index = next; candidate_id = get_elem? a.candidates_ids next }

unfoldable pub core_elect : Option ℕ → List (List Message) → Option (Message × List (List Message))
unfolding elect_oldest_owned
core_elect candidate buffers = and_then candidate (elect_oldest_owned buffers)

-- The loop of RRArbiter::elect, with the rounds that are left.
unfoldable pub rr_rounds :
    ℕ → Arbiter → List (List Message) → Arbiter × Option (Message × List (List Message))
unfolding rr_select_candidate core_elect
rr_rounds zero a buffers = (a, none)
rr_rounds (suc n) a buffers =
    let a' = rr_select_candidate a in
    elim (core_elect a'.candidate_id buffers) [
      | none ↦ rr_rounds n a' buffers
      | some won ↦ (a', some won)
    ]

unfoldable pub rr_elect :
    Arbiter → List (List Message) → Arbiter × Option (Message × List (List Message))
unfolding rr_rounds
rr_elect a buffers = rr_rounds (length a.candidates_ids) a buffers

unfoldable pub rr_force_elect :
    Arbiter → List (List Message) → Arbiter × Option (Message × List (List Message))
unfolding core_elect
rr_force_elect a buffers = (a, core_elect a.candidate_id buffers)

-- TDMArbiter::selectCandidate; the candidate is no member there, and `none` is the throw of `at`.
unfoldable pub tdm_select_candidate : Arbiter → ℕ → Arbiter × Option ℕ
tdm_select_candidate a cycle_number =
    let next =
      if cycle_number % a.arbiter_period == 0
      then (a.candidate_index + 1) % length a.candidates_ids
      else a.candidate_index in
    (record a { candidate_index = next }, get_elem? a.candidates_ids next)

unfoldable pub tdm_core_elect :
    Arbiter → ℕ → List (List Message) → Arbiter × Option (Message × List (List Message))
unfolding tdm_select_candidate core_elect
tdm_core_elect a cycle_number buffers =
    let (a', candidate) = tdm_select_candidate a cycle_number in (a', core_elect candidate buffers)

-- TDMArbiter::elect; `forceElect` is the core election alone.
unfoldable pub tdm_elect :
    Arbiter → ℕ → List (List Message) → Arbiter × Option (Message × List (List Message))
unfolding tdm_core_elect
tdm_elect a cycle_number buffers =
    if cycle_number % a.arbiter_period == 0
    then tdm_core_elect a cycle_number buffers
    else (a, none)

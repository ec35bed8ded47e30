-- ===== src/Arbiter/Turns.antt =====
-- RRArbiter and TDMArbiter: whose turn it is, and that nobody is passed over.
use octopus_simulator.Common.{
  ℕ, zero, suc, ◌+◌, ◌-◌, ◌*◌, ◌%◌, ◌≤◌, ◌<◌, ◌≡◌, refl, ap, sym, ◌∙◌, ◌⊎◌, inl, inr, Option, none,
  List, ◌≢◌, length, get_elem?, arith, subst, ==→eq, Bool-cases, Option-cases, ◌==◌,
}
use octopus_simulator.Message.{Message}
use octopus_simulator.Arbiter.{
  Arbiter, rr_select_candidate, core_elect, rr_rounds, rr_elect, tdm_elect,
}
use native.Mathlib.Nat.{
  mod-add-mod, mod-lt, mod-eq_of_lt, add-zero, add-mul-mod_self_right, mul-mod_left, suc-add,
}

-- The candidate `r` turns after the next one.
abbrev pub turn : Arbiter → ℕ → Option ℕ
turn a r = get_elem? a.candidates_ids ((a.candidate_index + 1 + r) % length a.candidates_ids)

turn-select : (a : Arbiter) (r : ℕ) → turn (rr_select_candidate a) r ≡ turn a (suc r)
unfolding rr_select_candidate
turn-select a r = ap (get_elem? a.candidates_ids) (shift (a.candidate_index + 1))
  where
    n : ℕ
    n = length a.candidates_ids

    shift : (i : ℕ) → (i % n + 1 + r) % n ≡ (i + suc r) % n
    shift i = (ap (λ x. x % n) (omega arith)) ∙ mod-add-mod i n (suc r)

select-turn : (a : Arbiter) → (rr_select_candidate a).candidate_id ≡ turn a 0
unfolding rr_select_candidate
select-turn a = ap (λ i. get_elem? a.candidates_ids (i % length a.candidates_ids)) (omega arith)

-- The first of the next `n` candidates whose election succeeds, in turn.
abbrev pub FirstInTurn :
    ℕ → Arbiter → List (List Message) → Option (Message × List (List Message)) → Type 0
FirstInTurn n a buffers won =
    ((won ≡ none) × ((r : ℕ) → r < n → core_elect (turn a r) buffers ≡ none))
    ⊎ ((r : ℕ) × (r < n)
        × (won ≢ none)
        × (core_elect (turn a r) buffers ≡ won)
        × ((s : ℕ) → s < r → core_elect (turn a s) buffers ≡ none))

rr_rounds-FirstInTurn :
    (n : ℕ) (a : Arbiter) (buffers : List (List Message))
    → FirstInTurn n a buffers (rr_rounds n a buffers).1
unfolding rr_rounds
rr_rounds-FirstInTurn zero a buffers = inl (refl, λ r h. elim h [ ])
rr_rounds-FirstInTurn (suc n) a buffers =
    elim (Option-cases (core_elect (rr_select_candidate a).candidate_id buffers)) [
      | inr (won, e) ↦ rw (e, rr_rounds) (inr (0, omega arith, λ h. cc, first e, λ s h. elim h [ ]))
      | inl e ↦
          rw (e, rr_rounds)
            (elim (rr_rounds-FirstInTurn n (rr_select_candidate a) buffers) [
              | inl (w, f) ↦ inl (w, before e n f)
              | inr (r, l, w, g, f) ↦
                  inr (suc r, omega arith, w, rw (← turn-select a r) g, before e r f)
            ])
    ]
  where
    first :
        {x : Option (Message × List (List Message))}
        → core_elect (rr_select_candidate a).candidate_id buffers ≡ x
        → core_elect (turn a 0) buffers ≡ x
    first e = rw (← select-turn a) e

    before :
        core_elect (rr_select_candidate a).candidate_id buffers ≡ none
        → (k : ℕ) → ((s : ℕ) → s < k → core_elect (turn (rr_select_candidate a) s) buffers ≡ none)
        → (s : ℕ) → s < suc k
        → core_elect (turn a s) buffers ≡ none
    before e k f zero h = first e
    before e k f (suc s) h = rw (← turn-select a s) (f s (omega arith))

-- A round-robin election serves the first of its candidates, in cyclic order after the one served
-- last, whose own election succeeds; it fails only if every candidate's election fails.
pub rr_elect-FirstInTurn :
    (a : Arbiter) (buffers : List (List Message))
    → FirstInTurn (length a.candidates_ids) a buffers (rr_elect a buffers).1
unfolding rr_elect
rr_elect-FirstInTurn a buffers = rr_rounds-FirstInTurn (length a.candidates_ids) a buffers

-- The election in `count` consecutive cycles from `cycle` on, with the buffers of each cycle.
abbrev pub tdm_run : ℕ → Arbiter → ℕ → (ℕ → List (List Message)) → Arbiter
tdm_run zero a cycle buffers = a
tdm_run (suc count) a cycle buffers =
    tdm_run count (tdm_elect a cycle (buffers cycle)).0 (suc cycle) buffers

-- The election in `count` consecutive slots from slot `slot` on; a slot is a period of cycles.
abbrev pub tdm_slots : ℕ → Arbiter → ℕ → (ℕ → List (List Message)) → Arbiter
tdm_slots zero a slot buffers = a
tdm_slots (suc count) a slot buffers =
    tdm_slots count (tdm_run a.arbiter_period a (slot * a.arbiter_period) buffers) (suc slot)
      buffers

off_slot :
    (a : Arbiter) (d s : ℕ) (bs : List (List Message))
    → 0 < d
    → d < a.arbiter_period
    → (tdm_elect a (d + s * a.arbiter_period) bs).0 ≡ a
unfolding tdm_elect
off_slot a d s bs h l = ground (arith, add-mul-mod_self_right d s a.arbiter_period, mod-eq_of_lt l)

tdm_run_off :
    (count : ℕ) (a : Arbiter) (d s : ℕ) (buffers : ℕ → List (List Message))
    → 0 < d
    → d + count ≤ a.arbiter_period
    → tdm_run count a (d + s * a.arbiter_period) buffers ≡ a
tdm_run_off zero a d s buffers h l = refl
tdm_run_off (suc count) a d s buffers h l =
    rw (off_slot a d s (buffers (d + s * a.arbiter_period)) h (omega arith)) (
      rw (← suc-add d (s * a.arbiter_period))
        (tdm_run_off count a (suc d) s buffers (omega arith) (omega arith)))

on_slot :
    (a : Arbiter) (s : ℕ) (bs : List (List Message))
    → (tdm_elect a (s * a.arbiter_period) bs).0
      ≡ record a { candidate_index = (a.candidate_index + 1) % length a.candidates_ids }
unfolding tdm_elect
on_slot a s bs = ground (arith, mul-mod_left s a.arbiter_period)

-- The arbiter with the turn passed on.
abbrev pub passed : Arbiter → Arbiter
passed a = record a { candidate_index = (a.candidate_index + 1) % length a.candidates_ids }

tdm_run_on :
    (a : Arbiter) (s k : ℕ) (buffers : ℕ → List (List Message))
    → suc k ≤ a.arbiter_period
    → tdm_run (suc k) a (s * a.arbiter_period) buffers ≡ passed a
tdm_run_on a s k buffers l = rw (on_slot a s (buffers (s * a.arbiter_period))) (
    ap (λ c. tdm_run k (passed a) c buffers) start
    ∙ tdm_run_off k (passed a) 1 s buffers (omega arith) (omega arith))
  where
    start : suc (s * a.arbiter_period) ≡ 1 + s * a.arbiter_period
    start = omega arith

tdm_run_slot :
    (a : Arbiter) (s : ℕ) (buffers : ℕ → List (List Message))
    → 0 < a.arbiter_period
    → tdm_run a.arbiter_period a (s * a.arbiter_period) buffers ≡ passed a
tdm_run_slot a s buffers h =
    subst (λ n. tdm_run n a (s * a.arbiter_period) buffers ≡ passed a) whole
      (tdm_run_on a s (a.arbiter_period - 1) buffers (omega arith))
  where
    whole : suc (a.arbiter_period - 1) ≡ a.arbiter_period
    whole = omega arith

-- Whatever the senders queue in the meantime, after `count` slots of a TDM arbiter the turn has moved
-- on by exactly `count` candidates in cyclic order: every candidate gets one slot in each round.
tdm_slots-index :
    (count : ℕ) (a : Arbiter) (s : ℕ) (buffers : ℕ → List (List Message))
    → 0 < a.arbiter_period
    → a.candidate_index < length a.candidates_ids
    → (tdm_slots count a s buffers).candidate_index
      ≡ (a.candidate_index + count) % length a.candidates_ids
tdm_slots-index zero a s buffers h l = sym (rw add-zero (mod-eq_of_lt l))
tdm_slots-index (suc count) a s buffers h l =
    rw (tdm_slots, tdm_run_slot a s buffers h)
      (tdm_slots-index count (passed a) (suc s) buffers h (mod-lt _ (omega arith))
        ∙ mod-add-mod (a.candidate_index + 1) (length a.candidates_ids) count
        ∙ ap (λ i. i % length a.candidates_ids) (omega arith))

-- A TDM election outside a slot boundary changes nothing. At a boundary the turn passes to the next
-- candidate, and the result is that candidate's own election.
tdm_elect-turn :
    (a : Arbiter) (cycle : ℕ) (buffers : List (List Message))
    → ((cycle % a.arbiter_period ≢ 0) × (tdm_elect a cycle buffers ≡ (a, none)))
      ⊎ ((cycle % a.arbiter_period ≡ 0)
          × (tdm_elect a cycle buffers ≡ (
            passed a,
            core_elect (get_elem? a.candidates_ids (passed a).candidate_index) buffers,
          )))
unfolding tdm_elect
tdm_elect-turn a cycle buffers = elim (Bool-cases (cycle % a.arbiter_period == 0)) [
  | inl e ↦ inr (==→eq _ _ e, rw e)
  | inr n ↦ inl (ground arith, rw n)
]

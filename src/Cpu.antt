-- ===== src/Cpu.antt =====
-- src/CPU.cpp and its header: a core that issues the accesses of a trace, or the jobs of a periodic task. `rnd()`
-- and its comparison with a ratio are parameters, and so is the port; the parsed lines of the trace
-- stand in the state.
pub mod Cycle
pub mod Jobs
pub mod Window
mod Tests
use octopus_simulator.Common.{
  Outcome, ok, exits, and_run, ℕ, zero, suc, ◌+◌, ◌-◌, ◌*◌, ◌/◌, ◌%◌, ◌^◌, Bool, true, false, ◌||◌,
  Option, none, some, List, [], ◌∷◌, ◌++◌, length, get_elem?, find, put, drop_key, ltb, leb, ◌==◌,
  if◌then◌else◌,
}
use octopus_simulator.Message.{Message, new_message, demand, request}
use octopus_simulator.Controller.{Port}

pub record Sample : Type 0 where
  pub compute_time : ℕ
  pub read_cycle : ℕ
  pub msg : Message

-- A parsed line of a trace.
pub record Entry : Type 0 where
  pub addr : ℕ
  pub is_read : Bool
  pub cycle : ℕ

-- The rows of a task; `R` is a ratio of reads.
pub data Phase (R : Type 0) : Type 0 where
  compute read_one write_one : ℕ → Phase R
  linear random : ℕ → ℕ → ℕ → R → Phase R

-- The n-th call of `rnd()`: whether it is at least a ratio, and the whole part of it times a number.
pub record Draws (R : Type 0) : Type 0 where
  pub is_at_least : ℕ → R → Bool
  pub times : ℕ → ℕ → ℕ

-- `jobs_total` is `none` for a negative number.
pub record Cpu (U R : Type 0) : Type 0 where
  pub id : ℕ
  pub clk_cycle : ℕ
  pub ooo_requests : ℕ
  pub last_received : ℕ
  pub sent_requests : ℕ
  pub simulation_done : Bool
  pub sample : Option Sample
  pub workload : List Entry
  pub upper_interface : U
  pub periodic : Bool
  pub idle : Bool
  pub period : ℕ
  pub deadline_rel : ℕ
  pub start : ℕ
  pub jobs_total : Option ℕ
  pub job_index : ℕ
  pub job_release : ℕ
  pub job_deadline : ℕ
  pub trailing_compute : ℕ
  pub missed_deadlines : ℕ
  pub job_accesses : ℕ
  pub job_lat_sum : ℕ
  pub job_lat_max : ℕ
  pub issue_cycle : List (ℕ × ℕ)
  pub first_access : Bool
  pub body : List (Phase R)
  pub job_samples : List Sample
  pub job_next : ℕ
  pub draws : ℕ
  pub finite_cores_running : ℕ
  pub next_req_id : ℕ

abbrev pub max : ℕ → ℕ → ℕ
max a b = if leb a b then b else a

-- The access of a core with the next id.
unfoldable pub access_message : ℕ → ℕ → ℕ → ℕ → Bool → Message
unfolding new_message
access_message id msg_id addr cycle is_read =
    record (new_message msg_id addr cycle (if is_read then 0 else 1) id) { to = id ∷ [] }

-- The job that is being expanded: its samples, the compute time so far, the calls of `rnd()`, the ids.
pub record Expansion : Type 0 where
  pub samples : List Sample
  pub compute_time : ℕ
  pub draws : ℕ
  pub next_req_id : ℕ

unfoldable pub add_access : ℕ → Expansion → ℕ → Bool → Expansion
unfolding access_message
add_access id x addr is_write = record x {
  samples =
      x.samples
      ++ record {
        compute_time = x.compute_time;
        read_cycle = 0;
        msg = access_message id x.next_req_id addr 0 (if is_write then false else true);
      }
        ∷ [];
  compute_time = 0;
  next_req_id = suc x.next_req_id;
}

module _ {R : Type 0} (rnd : Draws R) where
  -- The loops of LINEAR, from the access `i` on, and of RANDOM.
  unfoldable pub add_linear : ℕ → Expansion → ℕ → ℕ → ℕ → ℕ → R → Expansion
  unfolding add_access
  add_linear id x zero i base stride ratio = x
  add_linear id x (suc n) i base stride ratio =
      add_linear id
        (add_access id (record x { draws = suc x.draws }) (base + i * stride)
          (rnd.is_at_least x.draws ratio))
        n (suc i) base stride ratio

  -- The address and the test for a write each draw a number; the address is taken to come first.
  unfoldable pub add_random : ℕ → Expansion → ℕ → ℕ → ℕ → R → Expansion
  unfolding add_access
  add_random id x zero base lines ratio = x
  add_random id x (suc n) base lines ratio =
      add_random id
        (add_access id (record x { draws = suc (suc x.draws) })
          (base + rnd.times x.draws lines * 64) (rnd.is_at_least (suc x.draws) ratio))
        n base lines ratio

  unfoldable pub add_phase : ℕ → Expansion → Phase R → Expansion
  unfolding add_access add_linear add_random
  add_phase id x (compute a) = record x { compute_time = x.compute_time + a }
  add_phase id x (read_one a) = add_access id x a false
  add_phase id x (write_one a) = add_access id x a true
  add_phase id x (linear a b c d) = add_linear id x b 0 a c d
  add_phase id x (random a b c d) = add_random id x c a (max 1 (b / 64)) d

  unfoldable pub add_phases : ℕ → Expansion → List (Phase R) → Expansion
  unfolding add_phase
  add_phases id x [] = x
  add_phases id x (ph ∷ body) = add_phases id (add_phase id x ph) body

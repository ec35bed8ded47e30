-- ===== src/Cpu/Cycle.antt =====
-- CPU::cycleProcess: a cycle of a core, on a trace or on the jobs of a task. An exit is `exits`.
use octopus_simulator.Common.{
  Outcome, ok, exits, and_run, ℕ, zero, suc, ◌+◌, ◌-◌, ◌*◌, ◌%◌, ◌^◌, Bool, true, false, Option,
  none, some, List, [], ◌∷◌, length, get_elem?, find, put, drop_key, ltb, leb, ◌==◌, if◌then◌else◌,
  is_some,
}
use octopus_simulator.Message.{Message, new_message, demand, request}
use octopus_simulator.Controller.{Port}
use octopus_simulator.Cpu.{Sample, Entry, Draws, Cpu, max, access_message, add_phases}

-- The rounds of the loop over swallowed periods, from job `k` on; `n` jobs are left.
unfoldable pub skip_jobs : ℕ → ℕ → ℕ → ℕ → ℕ → ℕ
skip_jobs start period finish zero k = k
skip_jobs start period finish (suc n) k =
    let later = skip_jobs start period finish n (suc k) in
    if leb (start + k * period + period) finish then later else k

-- The message of a sample that may be issued from the cycle `issue` on.
unfoldable pub issued_message : Sample → ℕ → Message
issued_message s issue = record s.msg { cycle = max issue s.read_cycle; kind = demand }

module _ {U R : Type 0} where
  -- A sample whose message is the trace's next line, with the cycles since the line before it, modulo the
  -- width of the counter. The line stays the first for the next call.
  unfoldable pub read_sample : Cpu U R → List Entry → Option (Sample × List Entry)
  unfolding access_message
  read_sample c [] = none
  read_sample c (last ∷ []) = none
  read_sample c (first ∷ second ∷ rest) = some (
    record {
      compute_time = (second.cycle + 2 ^ 64 - first.cycle) % 2 ^ 64;
      read_cycle = c.clk_cycle;
      msg = access_message c.id c.next_req_id second.addr second.cycle second.is_read;
    },
    second ∷ rest,
  )

  unfoldable pub core_done : Cpu U R → Cpu U R
  core_done c = record c {
    simulation_done = true;
    finite_cores_running =
        if is_some c.jobs_total then c.finite_cores_running - 1 else c.finite_cores_running;
  }

  -- What `checkReceiveBuffer` adds to the latencies of the job.
  unfoldable pub note_latency : Cpu U R → Message → Cpu U R
  note_latency c m = elim (find c.issue_cycle m.msg_id) [
    | none ↦ c
    | some issued ↦ record c {
      job_lat_sum = c.job_lat_sum + (c.clk_cycle - issued);
      job_lat_max = max c.job_lat_max (c.clk_cycle - issued);
      issue_cycle = drop_key c.issue_cycle m.msg_id;
    }
  ]

  unfoldable pub count_response : Cpu U R → ℕ → Outcome (Cpu U R)
  count_response c zero = exits
  count_response c (suc sent) = ok (record c { sent_requests = sent; last_received = c.clk_cycle })

  -- `m_issue_cycle[m_job_samples[m_job_next - 1].msg.msg_id] = m_clk_cycle`.
  unfoldable pub note_issue : Cpu U R → Cpu U R
  note_issue c = elim (get_elem? c.job_samples (c.job_next - 1)) [
    | none ↦ record c { first_access = false }
    | some s ↦ record c {
      first_access = false;
      issue_cycle = put c.issue_cycle s.msg.msg_id c.clk_cycle;
    }
  ]

  -- What follows the push of the message of a sample; `pushed` is the rest of a successful one.
  unfoldable pub after_push : Cpu U R → Sample → Message → (Cpu U R → Cpu U R) → U × Bool → Cpu U R
  after_push c s m pushed (u, true) =
      pushed (record c { upper_interface = u; sample = none; sent_requests = suc c.sent_requests })
  after_push c s m pushed (u, false) = record c {
    upper_interface = u;
    sample = some (record s { msg = m });
  }

module _ {U R : Type 0} (rnd : Draws R) where
  unfoldable pub expand_job : Cpu U R → Cpu U R
  unfolding add_phases
  expand_job c =
      let x =
        add_phases rnd c.id
          (record { samples = []; compute_time = 0; draws = c.draws; next_req_id = c.next_req_id })
          c.body in
      record c {
        job_samples = x.samples;
        job_next = 0;
        first_access = true;
        job_accesses = length x.samples;
        job_lat_sum = 0;
        job_lat_max = 0;
        trailing_compute = x.compute_time;
        draws = x.draws;
        next_req_id = x.next_req_id;
      }

  -- The part of `finishJob` for a finite number of jobs, with the job `k` that comes next.
  unfoldable pub next_job : Cpu U R → ℕ → ℕ → ℕ → Cpu U R
  unfolding core_done expand_job
  next_job c finish jobs k =
      let c' = record c {
        missed_deadlines = c.missed_deadlines + (k - suc c.job_index);
        job_index = k;
      } in
      if leb jobs k
      then core_done c'
      else expand_job (record c' {
        job_release = max finish (c.start + k * c.period);
        job_deadline = c.start + k * c.period + c.deadline_rel;
      })

  -- `finishJob`, by the number of jobs.
  unfoldable pub finish_of : Cpu U R → ℕ → Option ℕ → Cpu U R
  unfolding skip_jobs next_job core_done expand_job
  finish_of c finish none =
      let c' = record c { job_index = suc c.job_index } in
      if c.finite_cores_running == 0
      then core_done c'
      else expand_job (record c' { job_release = finish })
  finish_of c finish (some jobs) =
      next_job c finish jobs
        (skip_jobs c.start c.period finish (jobs - suc c.job_index) (suc c.job_index))

  unfoldable pub finish_job : Cpu U R → ℕ → Cpu U R
  unfolding finish_of
  finish_job c finish = finish_of c finish c.jobs_total

  unfoldable pub init_core : Cpu U R → Cpu U R
  unfolding expand_job access_message new_message
  init_core c =
      if c.idle
      then record c { simulation_done = true }
      else if c.periodic
      then expand_job (record c {
        job_index = 0;
        job_release = c.start;
        job_deadline = c.start + c.deadline_rel;
        draws = 0;
      })
      else elim c.workload [
        | [] ↦ record c {
          sample = some (record { compute_time = 0; read_cycle = 0; msg = new_message 0 0 0 0 0 });
        }
        | e ∷ rest ↦ record c {
          sample = some (record {
            compute_time = e.cycle;
            read_cycle = 0;
            msg = access_message c.id c.next_req_id e.addr e.cycle e.is_read;
          });
          next_req_id = suc c.next_req_id;
        }
      ]

module _ {U R : Type 0} (port : Port U) where
  unfoldable pub check_receive_buffer : Cpu U R → Outcome (Cpu U R)
  unfolding note_latency count_response
  check_receive_buffer c =
      let (u, found) = port.peek c.upper_interface in
      elim found [
        | none ↦ ok (record c { upper_interface = u })
        | some m ↦
            let c' = record c { upper_interface = port.pop u } in
            count_response (if c.periodic then note_latency c' m else c') c.sent_requests
      ]

  unfoldable pub push_sample : Cpu U R → Sample → ℕ → (Cpu U R → Cpu U R) → Cpu U R
  unfolding issued_message after_push
  push_sample c s issue pushed =
      after_push c s (issued_message s issue) pushed
        (port.push c.upper_interface (issued_message s issue) 0 request)

  -- The window and the compute time, which counts from `base`.
  unfoldable pub issue_sample : Cpu U R → Sample → ℕ → (Cpu U R → Cpu U R) → Cpu U R
  unfolding push_sample
  issue_sample c s base pushed =
      if ltb c.sent_requests c.ooo_requests
      then (if leb (base + s.compute_time) c.clk_cycle
          then push_sample c s (base + s.compute_time) pushed
          else c)
      else c

  unfoldable pub issue_traced : Cpu U R → Sample → Cpu U R
  unfolding issue_sample
  issue_traced c s = issue_sample c s c.last_received (λ c'. c')

  unfoldable pub process_trace : Cpu U R → Cpu U R
  unfolding read_sample issue_traced core_done
  process_trace c = elim c.sample [
    | some s ↦ issue_traced c s
    | none ↦ elim (read_sample c c.workload) [
      | none ↦ if c.sent_requests == 0 then core_done c else c
      | some (s, rest) ↦
          issue_traced
            (record c { sample = some s; workload = rest; next_req_id = suc c.next_req_id }) s
    ]
  ]

  unfoldable pub issue_access : Cpu U R → Sample → Cpu U R
  unfolding issue_sample note_issue
  issue_access c s =
      issue_sample c s (if c.first_access then c.job_release else c.last_received) note_issue

  -- The end of a job whose accesses have all been issued.
  unfoldable pub end_of_job : Draws R → Cpu U R → Cpu U R
  unfolding finish_job
  end_of_job rnd c =
      let done_at =
        (if c.job_accesses == 0 then c.job_release else c.last_received) + c.trailing_compute in
      if c.sent_requests == 0
      then (if ltb c.clk_cycle done_at then c else finish_job rnd c done_at)
      else c

  unfoldable pub periodic_logic : Draws R → Cpu U R → Cpu U R
  unfolding issue_access end_of_job
  periodic_logic rnd c = if ltb c.clk_cycle c.job_release then c else elim c.sample [
    | some s ↦ issue_access c s
    | none ↦ elim (get_elem? c.job_samples c.job_next) [
      | some s ↦
          let s' = record s { read_cycle = c.clk_cycle } in
          issue_access (record c { sample = some s'; job_next = suc c.job_next }) s'
      | none ↦ end_of_job rnd c
    ]
  ]

  -- A core that is done stops its clock and changes no more.
  unfoldable pub core_cycle : Draws R → Cpu U R → Outcome (Cpu U R)
  unfolding check_receive_buffer periodic_logic process_trace
  core_cycle rnd c =
      if c.simulation_done
      then ok c
      else and_run (check_receive_buffer c) (λ c'.
        let c'' = if c'.periodic then periodic_logic rnd c' else process_trace c' in
        ok (record c'' { clk_cycle = suc c''.clk_cycle }))

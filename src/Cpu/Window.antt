-- ===== src/Cpu/Window.antt =====
-- CPU: the accesses that a core has sent and that have not come back.
use octopus_simulator.Common.{
  Ends, ended, exited, Ends-and_run, option_keeps, if_keeps, ℕ, zero, suc, ◌+◌, ◌-◌, ◌≤◌, ◌<◌, Bool,
  true, false, Option, none, some, get_elem?, find, leb, ltb, ◌==◌, if◌then◌else◌, arith,
}
use octopus_simulator.Message.{Message, request}
use octopus_simulator.Controller.{Port}
use octopus_simulator.Cpu.{Cpu, Draws, Sample}
use octopus_simulator.Cpu.Cycle.{
  read_sample, core_done, expand_job, next_job, skip_jobs, finish_of, finish_job, note_latency,
  count_response, check_receive_buffer, after_push, issued_message, push_sample, issue_sample,
  issue_traced, process_trace, note_issue, issue_access, end_of_job, periodic_logic, core_cycle,
}

module _ {U R : Type 0} where
  abbrev pub IsWithin : Cpu U R → Type 0
  IsWithin c = c.sent_requests ≤ c.ooo_requests

  note_issue-IsWithin : (c : Cpu U R) → IsWithin c → IsWithin (note_issue c)
  unfolding note_issue
  note_issue-IsWithin c h =
      option_keeps IsWithin (get_elem? c.job_samples (c.job_next - 1)) h (λ s. h)

  count_response-Ends :
      (c : Cpu U R) (sent : ℕ) → sent ≤ c.ooo_requests → Ends IsWithin (count_response c sent)
  unfolding count_response
  count_response-Ends c zero h = exited
  count_response-Ends c (suc sent) h = ended (omega arith)

  note_latency-window :
      (c : Cpu U R) (m : Message) → IsWithin c → c.sent_requests ≤ (note_latency c m).ooo_requests
  unfolding note_latency
  note_latency-window c m h =
      option_keeps (λ (d : Cpu U R). c.sent_requests ≤ d.ooo_requests) (find c.issue_cycle m.msg_id)
        h (λ issued. h)

  after_push-IsWithin :
      (c : Cpu U R) (s : Sample) (m : Message) (pushed : Cpu U R → Cpu U R)
      → ((d : Cpu U R) → IsWithin d → IsWithin (pushed d))
      → c.sent_requests < c.ooo_requests
      → (r : U × Bool) → IsWithin (after_push c s m pushed r)
  unfolding after_push
  after_push-IsWithin c s m pushed f h (u, true) = f _ h
  after_push-IsWithin c s m pushed f h (u, false) = omega (arith, h)

module _ {U R : Type 0} (rnd : Draws R) where
  finish_of-IsWithin :
      (c : Cpu U R) (finish : ℕ) (jobs : Option ℕ)
      → IsWithin c
      → IsWithin (finish_of rnd c finish jobs)
  unfolding finish_of next_job core_done expand_job
  finish_of-IsWithin c finish none h =
      if_keeps IsWithin (c.finite_cores_running == 0) (λ _. h) (λ _. h)
  finish_of-IsWithin c finish (some jobs) h =
      if_keeps IsWithin
        (leb jobs (skip_jobs c.start c.period finish (jobs - suc c.job_index) (suc c.job_index)))
        (λ _. h) (λ _. h)

  finish_job-IsWithin : (c : Cpu U R) (finish : ℕ) → IsWithin c → IsWithin (finish_job rnd c finish)
  unfolding finish_job
  finish_job-IsWithin c finish h = finish_of-IsWithin c finish c.jobs_total h

module _ {U R : Type 0} (port : Port U) where
  push_sample-IsWithin :
      (c : Cpu U R) (s : Sample) (issue : ℕ) (pushed : Cpu U R → Cpu U R)
      → ((d : Cpu U R) → IsWithin d → IsWithin (pushed d))
      → c.sent_requests < c.ooo_requests
      → IsWithin (push_sample port c s issue pushed)
  unfolding push_sample
  push_sample-IsWithin c s issue pushed f h =
      after_push-IsWithin c s (issued_message s issue) pushed f h
        (port.push c.upper_interface (issued_message s issue) 0 request)

  issue_sample-IsWithin :
      (c : Cpu U R) (s : Sample) (base : ℕ) (pushed : Cpu U R → Cpu U R)
      → ((d : Cpu U R) → IsWithin d → IsWithin (pushed d))
      → IsWithin c
      → IsWithin (issue_sample port c s base pushed)
  unfolding issue_sample
  issue_sample-IsWithin c s base pushed f h =
      if_keeps IsWithin (ltb c.sent_requests c.ooo_requests)
        (λ e.
          if_keeps IsWithin (leb (base + s.compute_time) c.clk_cycle)
            (λ _. push_sample-IsWithin c s (base + s.compute_time) pushed f (ground arith))
            (λ _. h))
        (λ _. h)

  process_trace-IsWithin : (c : Cpu U R) → IsWithin c → IsWithin (process_trace port c)
  unfolding process_trace issue_traced core_done
  process_trace-IsWithin c h =
      option_keeps IsWithin c.sample
        (option_keeps IsWithin (read_sample c c.workload)
          (if_keeps IsWithin (c.sent_requests == 0) (λ _. h) (λ _. h))
          (λ (s, rest).
            issue_sample-IsWithin
              (record c { sample = some s; workload = rest; next_req_id = suc c.next_req_id }) s
              c.last_received (λ d. d) (λ d k. k) h))
        (λ s. issue_sample-IsWithin c s c.last_received (λ d. d) (λ d k. k) h)

  issue_access-IsWithin : (c : Cpu U R) (s : Sample) → IsWithin c → IsWithin (issue_access port c s)
  unfolding issue_access
  issue_access-IsWithin c s h =
      issue_sample-IsWithin c s (if c.first_access then c.job_release else c.last_received)
        note_issue note_issue-IsWithin h

  end_of_job-IsWithin :
      (rnd : Draws R) (c : Cpu U R) → IsWithin c → IsWithin (end_of_job port rnd c)
  unfolding end_of_job
  end_of_job-IsWithin rnd c h =
      let done_at =
        (if c.job_accesses == 0 then c.job_release else c.last_received) + c.trailing_compute in
      if_keeps IsWithin (c.sent_requests == 0)
        (λ _.
          if_keeps IsWithin (ltb c.clk_cycle done_at) (λ _. h)
            (λ _. finish_job-IsWithin rnd c done_at h))
        (λ _. h)

  periodic_logic-IsWithin :
      (rnd : Draws R) (c : Cpu U R) → IsWithin c → IsWithin (periodic_logic port rnd c)
  unfolding periodic_logic
  periodic_logic-IsWithin rnd c h =
      if_keeps IsWithin (ltb c.clk_cycle c.job_release) (λ _. h)
        (λ _.
          option_keeps IsWithin c.sample
            (option_keeps IsWithin (get_elem? c.job_samples c.job_next)
              (end_of_job-IsWithin rnd c h)
              (λ s.
                issue_access-IsWithin
                  (record c {
                    sample = some (record s { read_cycle = c.clk_cycle });
                    job_next = suc c.job_next;
                  })
                  (record s { read_cycle = c.clk_cycle }) h))
            (λ s. issue_access-IsWithin c s h))

  check_receive_buffer-Ends :
      (c : Cpu U R) → IsWithin c → Ends IsWithin (check_receive_buffer port c)
  unfolding check_receive_buffer
  check_receive_buffer-Ends c h =
      option_keeps (Ends IsWithin) (port.peek c.upper_interface).1 (ended h) (λ m.
        let c' = record c { upper_interface = port.pop (port.peek c.upper_interface).0 } in
        if_keeps (λ (d : Cpu U R). Ends IsWithin (count_response d c.sent_requests)) c.periodic
          (λ _.
            count_response-Ends (note_latency c' m) c.sent_requests (note_latency-window c' m h))
          (λ _. count_response-Ends c' c.sent_requests h))

  -- A core whose accesses in flight are within its window keeps them there in a cycle, unless it exits: on
  -- a trace and on the jobs of a task, whatever its interface answers.
  pub core_cycle-IsWithin :
      (rnd : Draws R) (c : Cpu U R) → IsWithin c → Ends IsWithin (core_cycle port rnd c)
  unfolding core_cycle
  core_cycle-IsWithin rnd c h =
      if_keeps (Ends IsWithin) c.simulation_done (λ _. ended h)
        (λ _. Ends-and_run (check_receive_buffer-Ends c h) (λ c' k. ended (
          if_keeps IsWithin c'.periodic (λ _. periodic_logic-IsWithin rnd c' k)
            (λ _. process_trace-IsWithin c' k))))

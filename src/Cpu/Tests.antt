-- ===== src/Cpu/Tests.antt =====
-- A task of four jobs whose first job overruns two periods, and a core with an access in flight.
use octopus_simulator.Common.{
  ℕ, ◌+◌, ◌*◌, ◌≤◌, ◌<◌, ◌≡◌, refl, true, false, some, none, [], ◌∷◌, Ends, arith,
}
use octopus_simulator.Message.{new_message}
use octopus_simulator.Bus.{BusInterface, new_interface}
use octopus_simulator.Controller.Respond.{bus_port}
use octopus_simulator.Cpu.{
  Cpu, Draws, read_one, linear, add_phases, add_phase, add_access, add_linear, access_message,
}
use octopus_simulator.Cpu.Cycle.{expand_job, finish_job, core_cycle}
use octopus_simulator.Cpu.Jobs.{Scheduled, finish_job-Scheduled}
use octopus_simulator.Cpu.Window.{IsWithin, core_cycle-IsWithin}

-- Ratios in percent; every draw is a half.
abbrev halves : Draws ℕ
halves = record { is_at_least = λ n ratio. true; times = λ n count. 0 }

abbrev core : Cpu BusInterface ℕ
unfolding new_interface
core = record {
  id = 1;
  clk_cycle = 35;
  ooo_requests = 2;
  last_received = 35;
  sent_requests = 1;
  simulation_done = false;
  sample = none;
  workload = [];
  upper_interface = new_interface 1 2;
  periodic = true;
  idle = false;
  period = 10;
  deadline_rel = 8;
  start = 0;
  jobs_total = some 4;
  job_index = 0;
  job_release = 0;
  job_deadline = 8;
  trailing_compute = 0;
  missed_deadlines = 0;
  job_accesses = 1;
  job_lat_sum = 0;
  job_lat_max = 0;
  issue_cycle = [];
  first_access = false;
  body = read_one 64 ∷ linear 128 2 32 50 ∷ [];
  job_samples = [];
  job_next = 0;
  draws = 0;
  finite_cores_running = 1;
  next_req_id = 7;
}

three_accesses : (expand_job halves core).job_accesses ≡ 3
unfolding core expand_job add_phases add_phase add_access add_linear access_message new_message
three_accesses = refl

finish_job-Scheduled_example :
    (k : ℕ) × (1 ≤ k)
    × ((j : ℕ) → 1 ≤ j → j < k → 0 + j * 10 + 10 ≤ 35)
    × Scheduled core 35 4 k (finish_job halves core 35)
unfolding core
finish_job-Scheduled_example = finish_job-Scheduled halves core 35 4 refl (omega arith)

core_cycle-IsWithin_example : Ends IsWithin (core_cycle bus_port halves core)
unfolding core
core_cycle-IsWithin_example = core_cycle-IsWithin bus_port halves core (omega arith)

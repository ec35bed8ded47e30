-- ===== src/Cpu/Jobs.antt =====
-- CPU::finishJob: which job of a finite periodic task comes next.
use octopus_simulator.Common.{
  ℕ, zero, suc, ◌+◌, ◌-◌, ◌*◌, ◌≤◌, ◌<◌, ◌≡◌, refl, sym, subst, ◌⊎◌, inl, inr, true, some, leb,
  if_keeps, arith,
}
use octopus_simulator.Cpu.{Cpu, Draws, max}
use octopus_simulator.Cpu.Cycle.{skip_jobs, core_done, expand_job, next_job, finish_of, finish_job}

-- The job `k` is the first one from `from` on whose period has not ended by `finish`, or `from + n`.
abbrev pub IsFirstLeft : ℕ → ℕ → ℕ → ℕ → ℕ → ℕ → Type 0
IsFirstLeft start period finish n from k =
    (from ≤ k)
    × (k ≤ from + n)
    × ((j : ℕ) → from ≤ j → j < k → start + j * period + period ≤ finish)
    × ((k ≡ from + n) ⊎ (finish < start + k * period + period))

le-cases : (i j : ℕ) → i ≤ j → (i ≡ j) ⊎ (suc i ≤ j)
le-cases i j h = ground arith

skip_jobs-IsFirstLeft :
    (start period finish n from : ℕ)
    → IsFirstLeft start period finish n from (skip_jobs start period finish n from)
unfolding skip_jobs
skip_jobs-IsFirstLeft start period finish zero from =
    (omega arith, omega arith, λ j h k. absurd (omega (arith, h, k)), inl (omega arith))
skip_jobs-IsFirstLeft start period finish (suc n) from =
    let rest = skip_jobs-IsFirstLeft start period finish n (suc from) in
    if_keeps (IsFirstLeft start period finish (suc n) from)
      (leb (start + from * period + period) finish)
      (λ e. (
        omega (arith, rest.0),
        omega (arith, rest.1),
        λ j h k. elim (le-cases from j h) [
          | inl same ↦ subst (λ x. start + x * period + period ≤ finish) same (ground arith)
          | inr above ↦ rest.2 j above k
        ],
        elim (rest.3) [ inl at_end ↦ inl (omega arith) | inr left ↦ inr left ],
      ))
      (λ e. (omega arith, omega arith, λ j h k. absurd (omega (arith, h, k)), inr (ground arith)))

-- The fields of the core that name its next job, `k`, or end it if there is none.
abbrev pub Scheduled : {U R : Type 0} → Cpu U R → ℕ → ℕ → ℕ → Cpu U R → Type 0
Scheduled c finish jobs k d =
    (d.job_index ≡ k)
    × (d.missed_deadlines ≡ c.missed_deadlines + (k - suc c.job_index))
    × (((k ≡ jobs) × (d.simulation_done ≡ true))
        ⊎ ((k < jobs)
            × (finish < c.start + k * c.period + c.period)
            × (d.simulation_done ≡ c.simulation_done)
            × (d.job_release ≡ max finish (c.start + k * c.period))
            × (d.job_deadline ≡ c.start + k * c.period + c.deadline_rel)
            × (d.job_next ≡ 0)))

next_job-Scheduled :
    {U R : Type 0} (rnd : Draws R) (c : Cpu U R) (finish jobs k : ℕ)
    → k ≤ jobs
    → ((k ≡ jobs) ⊎ (finish < c.start + k * c.period + c.period))
    → Scheduled c finish jobs k (next_job rnd c finish jobs k)
unfolding next_job core_done expand_job
next_job-Scheduled rnd c finish jobs k h o =
    if_keeps (Scheduled c finish jobs k) (leb jobs k) (λ e. (refl, refl, inl (ground arith, refl)))
      (λ e. (
        refl,
        refl,
        inr (
          ground arith,
          elim o [ inl same ↦ absurd (ground arith) | inr left ↦ left ],
          refl,
          refl,
          refl,
          refl,
        ),
      ))

-- When a job of a task with a finite number of jobs is finished, the next job is the first one whose period
-- has not ended: every job between has its whole period in the past and is counted as missed. It is
-- released at its start or, if that is earlier, at the finish, its deadline counts from its start, and
-- its first access is next; if no such job is left the core is done.
pub finish_job-Scheduled :
    {U R : Type 0} (rnd : Draws R) (c : Cpu U R) (finish jobs : ℕ)
    → c.jobs_total ≡ some jobs
    → c.job_index < jobs
    → (k : ℕ) × (suc c.job_index ≤ k)
      × ((j : ℕ) → suc c.job_index ≤ j → j < k → c.start + j * c.period + c.period ≤ finish)
      × Scheduled c finish jobs k (finish_job rnd c finish)
unfolding finish_job finish_of
finish_job-Scheduled rnd c finish jobs t h =
    let k = skip_jobs c.start c.period finish (jobs - suc c.job_index) (suc c.job_index) in
    let first =
      skip_jobs-IsFirstLeft c.start c.period finish (jobs - suc c.job_index) (suc c.job_index) in
    (
      k,
      first.0,
      first.2,
      subst (λ o. Scheduled c finish jobs k (finish_of rnd c finish o)) (sym t)
          (next_job-Scheduled rnd c finish jobs k (omega (arith, first.1))
            (elim (first.3) [ inl at_end ↦ inl (omega arith) | inr left ↦ inr left ])),
    )

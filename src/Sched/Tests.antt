-- ===== src/Sched/Tests.antt =====
-- Two processes on the scheduler of kernel/src/scheduler.rs.
use kafka_os.Base.{ℕ, ◌+◌, ◌*◌, ◌≡◌, ◌<◌, refl, Option, none, some, [], ◌∷◌, arith}
use kafka_os.Process.{Process, ProcessState}
use kafka_os.Sched.{
  Scheduler, Queues, new, pick_and_run, priority_boost, exit_current, process_count, current_pid,
}
use kafka_os.Sched.Census.{census}
use kafka_os.Sched.Steps.{Call, step, run}
use kafka_os.Sched.Conservation.{step-census, added, ended}
use kafka_os.Sched.Bounds.{IsWellFormed, run-new-IsWellFormed}
use kafka_os.Sched.Fairness.{priority_boost-pick, exit_current_strands}
use kafka_os.Sched.Preemption.{quiet_ticks, quiet_ticks-slice}

abbrev process : ℕ → ProcessState → ℕ → Process
process id state priority = record {
  id = id;
  name = [];
  stack_pointer = 8192 * id;
  state = state;
  stack_memory = [];
  page_table = 4096 * id;
  vma_list = [];
  priority = priority;
  quantum_remaining = 3;
  total_ticks = 0;
  cpu_since_boost = 0;
}

abbrev scheduler : Queues → Option Process → Scheduler
scheduler queues current = record {
  queues = queues;
  current = current;
  last_boost_tick = 0;
  active_levels = 2;
  boost_interval = 500;
  total_switches = 0;
  last_known_load = 3;
}

-- Process 1 runs and process 2 waits.
abbrev running : Scheduler
running =
    scheduler (record { q0 = process 2 ProcessState.ready 0 ∷ []; q1 = []; q2 = []; q3 = [] })
      (some (process 1 ProcessState.running 0))

-- Process 1 runs, and process 2 waits in a level that is no longer active.
abbrev low : Scheduler
low =
    scheduler (record { q0 = []; q1 = []; q2 = process 2 ProcessState.ready 2 ∷ []; q3 = [] })
      (some (process 1 ProcessState.running 0))

run-new-IsWellFormed_example : IsWellFormed (
    run new (
      Call.adds (process 1 ProcessState.ready 0)
      ∷ Call.schedules
      ∷ Call.ticks 600
      ∷ Call.yields
      ∷ []))
run-new-IsWellFormed_example = run-new-IsWellFormed (
    Call.adds (process 1 ProcessState.ready 0) ∷ Call.schedules ∷ Call.ticks 600 ∷ Call.yields ∷ [])

step-census_example :
    census 1 (step running Call.yields) + ended 1 running Call.yields
    ≡ census 1 running + added 1 Call.yields
step-census_example = step-census 1 running Call.yields

priority_boost-pick_example : current_pid (pick_and_run (priority_boost low)).0 ≡ some 2
priority_boost-pick_example = priority_boost-pick low 2 [] (omega arith) refl

quiet_ticks-slice_example : quiet_ticks (10 ∷ 11 ∷ 700 ∷ []) running ≡ some 2
quiet_ticks-slice_example = quiet_ticks-slice (10 ∷ 11 ∷ 700 ∷ []) running 2 refl (omega arith)

exit_current_strands_example :
    ((exit_current low).1 ≡ none) × (0 < process_count (exit_current low).0)
exit_current_strands_example =
    exit_current_strands low refl refl (omega arith) (omega arith) (λ e. absurd (omega arith))

-- ===== src/Sched.antt =====
-- The multi-level feedback queue scheduler: kernel/src/scheduler.rs. The tick counter is an argument; log
-- lines are left out.
pub mod Census
pub mod Steps
pub mod Conservation
pub mod Bounds
pub mod Fairness
pub mod Preemption
mod Tests
use kafka_os.Base.{
  ℕ, zero, suc, ◌+◌, ◌-◌, ◌*◌, ◌/◌, ◌%◌, min, max, Bool, true, false, ◌&&◌, Option, none, some,
  List, [], ◌∷◌, ◌++◌, ltb, leb, ◌==◌, if◌then◌else◌, length, add64, sub64, u64_max, u32_mod,
}
use kafka_os.Process.{Process, ProcessState}

abbrev pub max_levels : ℕ
max_levels = 4

abbrev pub base_boost_interval_ms : ℕ
base_boost_interval_ms = 500

-- `BASE_QUANTUM_MS`
abbrev pub base_quantum_ms : ℕ → ℕ
base_quantum_ms level =
    if level == 0 then 2 else if level == 1 then 4 else if level == 2 then 8 else 16

-- `DEMOTION_THRESHOLD`
abbrev pub demotion_threshold : ℕ → ℕ
demotion_threshold level =
    if level == 0 then 10 else if level == 1 then 20 else if level == 2 then 40 else u64_max

-- `[VecDeque<Process>; MAX_LEVELS]`
pub record Queues : Type 0 where
  pub q0 : List Process
  pub q1 : List Process
  pub q2 : List Process
  pub q3 : List Process

abbrev pub queue : Queues → ℕ → List Process
queue qs level =
    if level == 0 then qs.q0 else if level == 1 then qs.q1 else if level == 2 then qs.q2 else qs.q3

abbrev pub set_queue : Queues → ℕ → List Process → Queues
set_queue qs level q =
    if level == 0
    then record qs { q0 = q }
    else if level == 1
    then record qs { q1 = q }
    else if level == 2
    then record qs { q2 = q }
    else record qs { q3 = q }

pub record Scheduler : Type 0 where
  pub queues : Queues
  pub current : Option Process
  pub last_boost_tick : ℕ
  pub active_levels : ℕ
  pub boost_interval : ℕ
  pub total_switches : ℕ
  pub last_known_load : ℕ

unfoldable pub new : Scheduler
new = record {
  queues = record { q0 = []; q1 = []; q2 = []; q3 = [] };
  current = none;
  last_boost_tick = 0;
  active_levels = 2;
  boost_interval = base_boost_interval_ms;
  total_switches = 0;
  last_known_load = 0;
}

abbrev pub count_current : Option Process → ℕ
count_current none = 0
count_current (some p) = 1

abbrev pub queued : Queues → ℕ
queued qs = length qs.q0 + length qs.q1 + length qs.q2 + length qs.q3

unfoldable pub process_count : Scheduler → ℕ
process_count s = queued s.queues + count_current s.current

abbrev push_back : Queues → ℕ → Process → Queues
push_back qs level p = set_queue qs level (queue qs level ++ p ∷ [])

abbrev levels_for : ℕ → ℕ
levels_for load = if leb load 2 then 2 else if leb load 5 then 3 else max_levels

abbrev interval_for : ℕ → ℕ
interval_for load =
    if leb load 2
    then base_boost_interval_ms * 2
    else if leb load 5
    then base_boost_interval_ms
    else if leb load 10
    then base_boost_interval_ms / 2
    else base_boost_interval_ms / 4

unfoldable pub recalculate_dynamics : Scheduler → Scheduler
recalculate_dynamics s =
    let load = process_count s in
    if load == s.last_known_load then s else record s {
      last_known_load = load;
      active_levels = levels_for load;
      boost_interval = interval_for load;
    }

unfoldable pub quantum_for : Scheduler → ℕ → ℕ
quantum_for s level =
    let base = base_quantum_ms (min level (s.active_levels - 1)) in
    let load = max (process_count s) 1 % u32_mod in
    if leb load 2
    then base * 4
    else if leb load 5
    then base
    else if leb load 10
    then max (base / 2) 1
    else max (base / 4) 1

unfoldable pub demotion_threshold_for : Scheduler → ℕ → ℕ
demotion_threshold_for s level =
    let base = demotion_threshold (min level (max_levels - 1)) in
    let load = max (process_count s) 1 in
    if base == u64_max
    then u64_max
    else if leb load 2
    then base * 3
    else if leb load 5
    then base
    else max (base / 2) 1

unfoldable pub add_process : Scheduler → Process → Scheduler
add_process s p =
    let fresh = record p { state = ProcessState.ready; priority = 0; cpu_since_boost = 0 } in
    recalculate_dynamics (record s { queues = push_back s.queues 0 fresh })

-- `queues[level].push_back(p)`
unfoldable pub requeue : Scheduler → ℕ → Process → Scheduler
requeue s level p = record s { queues = push_back s.queues level p }

-- One round of the `while let` of `priority_boost`: `rest` is what `pop_front` leaves at the level. The
-- quantum is computed while the process is in no queue.
unfoldable pub boost_one : ℕ → List Process → Process → Scheduler → Scheduler
boost_one level rest p s =
    let popped = record s { queues = set_queue s.queues level rest } in
    requeue popped 0
      (record p { priority = 0; cpu_since_boost = 0; quantum_remaining = quantum_for popped 0 })

unfoldable pub boost_level : ℕ → List Process → Scheduler → Scheduler
boost_level level [] s = s
boost_level level (p ∷ rest) s = boost_level level rest (boost_one level rest p s)

unfoldable pub boost_from : ℕ → Scheduler → Scheduler
boost_from level s = boost_level level (queue s.queues level) s

unfoldable pub boost_current : Option Process → Option Process
boost_current none = none
boost_current (some p) =
    if ltb 0 p.priority then some (record p { priority = 0; cpu_since_boost = 0 }) else some p

unfoldable pub priority_boost : Scheduler → Scheduler
unfolding boost_current
priority_boost s =
    let moved = boost_from 3 (boost_from 2 (boost_from 1 s)) in
    recalculate_dynamics (record moved { current = boost_current moved.current })

unfoldable pub charge_tick : Process → Process
charge_tick p = record p {
  quantum_remaining =
      if ltb 0 p.quantum_remaining then p.quantum_remaining - 1 else p.quantum_remaining;
  cpu_since_boost = add64 p.cpu_since_boost 1;
}

-- True asks for a context switch.
unfoldable pub charge_current : Scheduler → Option Process → Scheduler × Bool
unfolding charge_tick
charge_current s none = (s, false)
charge_current s (some p) =
    (record s { current = some (charge_tick p) }, (charge_tick p).quantum_remaining == 0)

unfoldable pub boost_if_due : ℕ → Scheduler → Scheduler
boost_if_due now s =
    if leb s.boost_interval (sub64 now s.last_boost_tick)
    then record (priority_boost s) { last_boost_tick = now }
    else s

unfoldable pub timer_tick : ℕ → Scheduler → Scheduler × Bool
timer_tick now s = charge_current (boost_if_due now s) (boost_if_due now s).current

unfoldable pub check_and_demote : Scheduler → Process → Process
check_and_demote s p =
    if ltb p.priority (s.active_levels - 1) then record p { priority = p.priority + 1 } else p

unfoldable pub check_cumulative_demotion : Scheduler → Process → Process
check_cumulative_demotion s p =
    if leb (demotion_threshold_for s p.priority) p.cpu_since_boost
      && ltb p.priority (s.active_levels - 1)
    then record p { priority = p.priority + 1 }
    else p

-- What `pick_and_run` hands to the context switch. The pointer is that of a process's
-- `stack_pointer` field, named by the process's id.
pub record Switch : Type 0 where
  pub new_stack : ℕ
  pub old_stack_ptr : ℕ
  pub new_cr3 : ℕ

-- The `for` loop of `pick_and_run`: `n` levels are left, from `level` on.
unfoldable pub scan : ℕ → ℕ → Queues → Option (Process × Queues)
scan zero level qs = none
scan (suc n) level qs = elim (queue qs level) [
  | [] ↦ scan n (level + 1) qs
  | p ∷ rest ↦ some (p, set_queue qs level rest)
]

unfoldable pub run_picked : Scheduler → Option (Process × Queues) → Scheduler × Option Switch
run_picked s none = (s, none)
run_picked s (some (p, qs)) =
    let popped = record s { queues = qs } in
    let started = record p {
      quantum_remaining = quantum_for popped p.priority;
      state = ProcessState.running;
      total_ticks = add64 p.total_ticks 1;
    } in
    (
      record popped { current = some started; total_switches = add64 s.total_switches 1 },
      some (record {
        new_stack = started.stack_pointer;
        old_stack_ptr = started.id;
        new_cr3 = started.page_table;
      }),
    )

unfoldable pub pick_and_run : Scheduler → Scheduler × Option Switch
unfolding run_picked
pick_and_run s = run_picked s (scan s.active_levels 0 s.queues)

abbrev is_terminated : ProcessState → Bool
is_terminated ProcessState.terminated = true
is_terminated _ = false

unfoldable pub demote_if_spent : Scheduler → Process → Process
unfolding check_and_demote
demote_if_spent s p = if p.quantum_remaining == 0 then check_and_demote s p else p

-- `current.take()` and what `schedule_next` does with it.
unfoldable pub requeue_preempted : Scheduler → Option Process → Scheduler
requeue_preempted s none = s
requeue_preempted s (some p) =
    let idle = record s { current = none } in
    let old = demote_if_spent idle p in
    if is_terminated p.state
    then idle
    else requeue idle (min old.priority (s.active_levels - 1))
        (record old { state = ProcessState.ready })

unfoldable pub schedule_next : Scheduler → Scheduler × Option Switch
schedule_next s = pick_and_run (requeue_preempted s s.current)

unfoldable pub requeue_yielded : Scheduler → Option Process → Scheduler
requeue_yielded s none = s
requeue_yielded s (some p) =
    let idle = record s { current = none } in
    let old = check_cumulative_demotion idle p in
    let level = min old.priority (s.active_levels - 1) in
    if is_terminated p.state
    then idle
    else requeue idle level
        (record old { state = ProcessState.ready; quantum_remaining = quantum_for idle level })

unfoldable pub yield_current : Scheduler → Scheduler × Option Switch
yield_current s = pick_and_run (requeue_yielded s s.current)

unfoldable pub rotate_and_get_next : Scheduler → Scheduler × Option Switch
rotate_and_get_next s = yield_current s

abbrev promote : Process → Process
promote p = if ltb 0 p.priority then record p { priority = p.priority - 1 } else p

unfoldable pub promote_current : Scheduler → Scheduler
promote_current s = record s {
  current = elim s.current [ none ↦ none | some p ↦ some (promote p) ];
}

unfoldable pub exit_current : Scheduler → Scheduler × Option Switch
exit_current s = pick_and_run (recalculate_dynamics (record s { current = none }))

unfoldable pub current_pid : Scheduler → Option ℕ
current_pid s = elim s.current [ none ↦ none | some p ↦ some p.id ]

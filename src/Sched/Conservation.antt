-- ===== src/Sched/Conservation.antt =====
-- Every call of kernel/src/scheduler.rs keeps the processes it does not end.
use kafka_os.Base.{
  ℕ, ◌+◌, ◌<◌, ◌≡◌, refl, Option, none, some, List, [], ◌∷◌, ◌++◌, arith, ◌∙◌, ◌-◌, min,
}
use kafka_os.Process.{Process, ProcessState}
use kafka_os.Sched.{
  Scheduler, queue, requeue_preempted, requeue_yielded, schedule_next, yield_current, add_process,
  exit_current, recalculate_dynamics, boost_level, boost_one, boost_from, priority_boost,
  boost_current, timer_tick, charge_current, boost_if_due, check_cumulative_demotion, quantum_for,
  promote_current, set_queue, requeue, demote_if_spent,
}
use kafka_os.Sched.Census.{
  census, dropped, one_if, tally_queues-push, tally_queues-pop, pick_and_run-census, tally_current,
}
use kafka_os.Sched.Steps.{Call, step}

pub recalculate_dynamics-census :
    (pid : ℕ) (s : Scheduler) → census pid (recalculate_dynamics s) ≡ census pid s
unfolding recalculate_dynamics
recalculate_dynamics-census pid s = ground arith

requeue-census :
    (pid level : ℕ) (s : Scheduler) (p : Process)
    → census pid (requeue s level p) ≡ census pid s + one_if pid p.id
unfolding requeue
requeue-census pid level s p = omega (arith, tally_queues-push pid level s.queues p)

demote_if_spent-id : (s : Scheduler) (p : Process) → (demote_if_spent s p).id ≡ p.id
unfolding demote_if_spent
demote_if_spent-id s p = ground arith

check_cumulative_demotion-id :
    (s : Scheduler) (p : Process) → (check_cumulative_demotion s p).id ≡ p.id
unfolding check_cumulative_demotion
check_cumulative_demotion-id s p = ground arith

requeue_preempted-census :
    (pid : ℕ) (s : Scheduler) (o : Option Process)
    → s.current ≡ o
    → census pid (requeue_preempted s o) + dropped pid o ≡ census pid s
unfolding requeue_preempted
requeue_preempted-census pid s none e = omega arith
requeue_preempted-census pid s (some p) e =
    let idle = record s { current = none } in
    let old = demote_if_spent idle p in
    ground (
      arith,
      demote_if_spent-id idle p,
      requeue-census pid (min old.priority (s.active_levels - 1)) idle
          (record old { state = ProcessState.ready }),
    )

requeue_yielded-census :
    (pid : ℕ) (s : Scheduler) (o : Option Process)
    → s.current ≡ o
    → census pid (requeue_yielded s o) + dropped pid o ≡ census pid s
unfolding requeue_yielded
requeue_yielded-census pid s none e = omega arith
requeue_yielded-census pid s (some p) e =
    let idle = record s { current = none } in
    let old = check_cumulative_demotion idle p in
    let level = min old.priority (s.active_levels - 1) in
    ground (
      arith,
      check_cumulative_demotion-id idle p,
      requeue-census pid level idle
          (record old { state = ProcessState.ready; quantum_remaining = quantum_for idle level }),
    )

requeue_preempted-current :
    (s : Scheduler) (o : Option Process) → s.current ≡ o → (requeue_preempted s o).current ≡ none
unfolding requeue_preempted requeue
requeue_preempted-current s none e = e
requeue_preempted-current s (some p) e = ground arith

requeue_yielded-current :
    (s : Scheduler) (o : Option Process) → s.current ≡ o → (requeue_yielded s o).current ≡ none
unfolding requeue_yielded requeue
requeue_yielded-current s none e = e
requeue_yielded-current s (some p) e = ground arith

-- A preemption puts the running process back, unless it is terminated, and starts one of the queued.
pub schedule_next-census :
    (pid : ℕ) (s : Scheduler)
    → census pid (schedule_next s).0 + dropped pid s.current ≡ census pid s
unfolding schedule_next
schedule_next-census pid s = omega (
  arith,
  requeue_preempted-census pid s s.current refl,
  pick_and_run-census pid (requeue_preempted s s.current)
      (requeue_preempted-current s s.current refl),
)

-- So does a yield.
pub yield_current-census :
    (pid : ℕ) (s : Scheduler)
    → census pid (yield_current s).0 + dropped pid s.current ≡ census pid s
unfolding yield_current
yield_current-census pid s = omega (
  arith,
  requeue_yielded-census pid s s.current refl,
  pick_and_run-census pid (requeue_yielded s s.current) (requeue_yielded-current s s.current refl),
)

recalculate_dynamics-current : (s : Scheduler) → (recalculate_dynamics s).current ≡ s.current
unfolding recalculate_dynamics
recalculate_dynamics-current s = ground arith

pub exit_current-census :
    (pid : ℕ) (s : Scheduler)
    → census pid (exit_current s).0 + tally_current pid s.current ≡ census pid s
unfolding exit_current
exit_current-census pid s =
    let gone = record s { current = none } in
    omega (
      arith,
      recalculate_dynamics-census pid gone,
      pick_and_run-census pid (recalculate_dynamics gone) (recalculate_dynamics-current gone),
    )

pub add_process-census :
    (pid : ℕ) (s : Scheduler) (p : Process)
    → census pid (add_process s p) ≡ census pid s + one_if pid p.id
unfolding add_process
add_process-census pid s p =
    let fresh = record p { state = ProcessState.ready; priority = 0; cpu_since_boost = 0 } in
    omega (
      arith,
      recalculate_dynamics-census pid
          (record s { queues = set_queue s.queues 0 (queue s.queues 0 ++ fresh ∷ []) }),
      tally_queues-push pid 0 s.queues fresh,
    )

boost_one-census :
    (pid level : ℕ) (rest : List Process) (p : Process) (s : Scheduler)
    → queue s.queues level ≡ p ∷ rest
    → census pid (boost_one level rest p s) ≡ census pid s
unfolding boost_one
boost_one-census pid level rest p s e =
    let popped = record s { queues = set_queue s.queues level rest } in
    omega (
      arith,
      requeue-census pid 0 popped (record p {
        priority = 0;
        cpu_since_boost = 0;
        quantum_remaining = quantum_for popped 0;
      }),
      tally_queues-pop pid level s.queues p rest e,
    )

boost_one-queue :
    (level : ℕ) (rest : List Process) (p : Process) (s : Scheduler)
    → 0 < level
    → queue (boost_one level rest p s).queues level ≡ rest
unfolding boost_one requeue
boost_one-queue level rest p s h = ground arith

boost_level-census :
    (pid level : ℕ) (q : List Process) (s : Scheduler)
    → 0 < level
    → queue s.queues level ≡ q
    → census pid (boost_level level q s) ≡ census pid s
unfolding boost_level
boost_level-census pid level [] s h e = refl
boost_level-census pid level (p ∷ rest) s h e =
    boost_level-census pid level rest (boost_one level rest p s) h
      (boost_one-queue level rest p s h)
    ∙ boost_one-census pid level rest p s e

boost_from-census :
    (pid level : ℕ) (s : Scheduler) → 0 < level → census pid (boost_from level s) ≡ census pid s
unfolding boost_from
boost_from-census pid level s h = boost_level-census pid level (queue s.queues level) s h refl

boost_current-tally :
    (pid : ℕ) (o : Option Process) → tally_current pid (boost_current o) ≡ tally_current pid o
unfolding boost_current
boost_current-tally pid none = refl
boost_current-tally pid (some p) = ground arith

pub priority_boost-census : (pid : ℕ) (s : Scheduler) → census pid (priority_boost s) ≡ census pid s
unfolding priority_boost
priority_boost-census pid s =
    let moved = boost_from 3 (boost_from 2 (boost_from 1 s)) in
    omega (
      arith,
      recalculate_dynamics-census pid (record moved { current = boost_current moved.current }),
      boost_current-tally pid moved.current,
      boost_from-census pid 3 (boost_from 2 (boost_from 1 s)) (omega arith),
      boost_from-census pid 2 (boost_from 1 s) (omega arith),
      boost_from-census pid 1 s (omega arith),
    )

boost_if_due-census : (pid now : ℕ) (s : Scheduler) → census pid (boost_if_due now s) ≡ census pid s
unfolding boost_if_due
boost_if_due-census pid now s = ground (arith, priority_boost-census pid s)

charge_current-census :
    (pid : ℕ) (s : Scheduler) (o : Option Process)
    → s.current ≡ o
    → census pid (charge_current s o).0 ≡ census pid s
unfolding charge_current
charge_current-census pid s none e = refl
charge_current-census pid s (some p) e = ground arith

pub timer_tick-census :
    (pid now : ℕ) (s : Scheduler) → census pid (timer_tick now s).0 ≡ census pid s
unfolding timer_tick
timer_tick-census pid now s =
    charge_current-census pid (boost_if_due now s) _ refl ∙ boost_if_due-census pid now s

promote_current-census : (pid : ℕ) (s : Scheduler) → census pid (promote_current s) ≡ census pid s
unfolding promote_current
promote_current-census pid s = ground arith

-- How a call changes the number of processes with an id.
abbrev pub added : ℕ → Call → ℕ
added pid (Call.adds p) = one_if pid p.id
added pid _ = 0

abbrev pub ended : ℕ → Scheduler → Call → ℕ
ended pid s Call.schedules = dropped pid s.current
ended pid s Call.yields = dropped pid s.current
ended pid s Call.exits = tally_current pid s.current
ended pid s _ = 0

-- For every id: after a call there are as many processes with it as before, plus the one that the call
-- adds, less the running one where the call ends it (an exit, or a switch away from a terminated one).
pub step-census :
    (pid : ℕ) (s : Scheduler) (c : Call)
    → census pid (step s c) + ended pid s c ≡ census pid s + added pid c
unfolding step
step-census pid s (Call.adds p) = omega (arith, add_process-census pid s p)
step-census pid s (Call.ticks now) = omega (arith, timer_tick-census pid now s)
step-census pid s Call.schedules = omega (arith, schedule_next-census pid s)
step-census pid s Call.yields = omega (arith, yield_current-census pid s)
step-census pid s Call.promotes = omega (arith, promote_current-census pid s)
step-census pid s Call.exits = omega (arith, exit_current-census pid s)

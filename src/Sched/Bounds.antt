-- ===== src/Sched/Bounds.antt =====
-- The invariant of the scheduler state of kernel/src/scheduler.rs, over every sequence of calls.
use kafka_os.Base.{
  ℕ, zero, suc, ◌+◌, ◌≤◌, ◌<◌, ◌≡◌, refl, Option, none, some, Bool, true, false, if◌then◌else◌,
  List, [], ◌∷◌, ◌++◌, arith,
}
use kafka_os.Process.{Process, ProcessState}
use kafka_os.Sched.{
  Scheduler, Queues, queue, set_queue, new, requeue, requeue_preempted, requeue_yielded,
  schedule_next, yield_current, add_process, exit_current, recalculate_dynamics, boost_level,
  boost_one, boost_from, priority_boost, boost_current, timer_tick, charge_current, boost_if_due,
  demote_if_spent, check_cumulative_demotion, quantum_for, promote_current, scan, run_picked,
  pick_and_run,
}
use kafka_os.Sched.Steps.{Call, step, run}

-- A time slice is at least one tick and at most 64.
quantum_for_bounds :
    (s : Scheduler) (level : ℕ) → (1 ≤ quantum_for s level) × (quantum_for s level ≤ 64)
unfolding quantum_for
quantum_for_bounds s level = ground arith

-- What holds of a process in the queue of a level.
pub record IsQueued (level : ℕ) (p : Process) : Type 0 where
  pub is_ready : p.state ≡ ProcessState.ready
  pub level_le : level ≤ p.priority
  pub priority_lt : p.priority < 4

abbrev pub AllQueued : ℕ → List Process → Type 0
AllQueued level [] = Unit {0}
AllQueued level (p ∷ ps) = IsQueued level p × AllQueued level ps

abbrev pub CurrentRuns : Option Process → Type 0
CurrentRuns none = Unit {0}
CurrentRuns (some p) =
    (p.state ≡ ProcessState.running) × (p.priority < 4) × (p.quantum_remaining ≤ 64)

pub record QueuesOk (qs : Queues) : Type 0 where
  pub ok0 : AllQueued 0 qs.q0
  pub ok1 : AllQueued 1 qs.q1
  pub ok2 : AllQueued 2 qs.q2
  pub ok3 : AllQueued 3 qs.q3

pub record IsWellFormed (s : Scheduler) : Type 0 where
  pub levels_lo : 2 ≤ s.active_levels
  pub levels_hi : s.active_levels ≤ 4
  pub waiting : QueuesOk s.queues
  pub running : CurrentRuns s.current

AllQueued-append :
    (level : ℕ) (ps : List Process) (p : Process)
    → AllQueued level ps
    → IsQueued level p
    → AllQueued level (ps ++ p ∷ [])
AllQueued-append level [] p a q = (q, tt)
AllQueued-append level (x ∷ ps) p a q = (a.0, AllQueued-append level ps p a.1 q)

AllQueued-queue :
    (level : ℕ) (qs : Queues) → level < 4 → QueuesOk qs → AllQueued level (queue qs level)
AllQueued-queue zero qs h k = k.ok0
AllQueued-queue (suc zero) qs h k = k.ok1
AllQueued-queue (suc (suc zero)) qs h k = k.ok2
AllQueued-queue (suc (suc (suc zero))) qs h k = k.ok3
AllQueued-queue (suc (suc (suc (suc n)))) qs h k = absurd (omega arith)

set_queue-QueuesOk :
    (level : ℕ) (qs : Queues) (q : List Process)
    → level < 4
    → QueuesOk qs
    → AllQueued level q
    → QueuesOk (set_queue qs level q)
set_queue-QueuesOk zero qs q h k a = record { ok0 = a; ok1 = k.ok1; ok2 = k.ok2; ok3 = k.ok3 }
set_queue-QueuesOk (suc zero) qs q h k a = record { ok0 = k.ok0; ok1 = a; ok2 = k.ok2; ok3 = k.ok3 }
set_queue-QueuesOk (suc (suc zero)) qs q h k a = record {
  ok0 = k.ok0;
  ok1 = k.ok1;
  ok2 = a;
  ok3 = k.ok3;
}
set_queue-QueuesOk (suc (suc (suc zero))) qs q h k a = record {
  ok0 = k.ok0;
  ok1 = k.ok1;
  ok2 = k.ok2;
  ok3 = a;
}
set_queue-QueuesOk (suc (suc (suc (suc n)))) qs q h k a = absurd (omega arith)

requeue-IsWellFormed :
    (level : ℕ) (s : Scheduler) (p : Process)
    → level < 4
    → IsWellFormed s
    → IsQueued level p
    → IsWellFormed (requeue s level p)
unfolding requeue
requeue-IsWellFormed level s p h w q = record {
  levels_lo = w.levels_lo;
  levels_hi = w.levels_hi;
  waiting =
      set_queue-QueuesOk level s.queues _ h w.waiting
        (AllQueued-append level _ p (AllQueued-queue level s.queues h w.waiting) q);
  running = w.running;
}

recalculate_dynamics-IsWellFormed :
    (s : Scheduler) → IsWellFormed s → IsWellFormed (recalculate_dynamics s)
unfolding recalculate_dynamics
recalculate_dynamics-IsWellFormed s w = ground arith

add_process-IsWellFormed :
    (s : Scheduler) (p : Process) → IsWellFormed s → IsWellFormed (add_process s p)
unfolding add_process requeue
add_process-IsWellFormed s p w = recalculate_dynamics-IsWellFormed _ (
    unfold requeue in
    requeue-IsWellFormed 0 s _ (omega arith) w
      (record { is_ready = refl; level_le = omega arith; priority_lt = omega arith }))

abbrev PickedOk : Option (Process × Queues) → Type 0
PickedOk none = Unit {0}
PickedOk (some (p, qs)) = (p.priority < 4) × QueuesOk qs

scan_step-PickedOk :
    (n level : ℕ) (qs : Queues) (q : List Process)
    → queue qs level ≡ q
    → level < 4
    → QueuesOk qs
    → AllQueued level q
    → PickedOk (scan n (level + 1) qs)
    → PickedOk (scan (suc n) level qs)
unfolding scan
scan_step-PickedOk n level qs [] e l k a h = rw (e, scan) h
scan_step-PickedOk n level qs (p ∷ rest) e l k a h =
    rw (e, scan) (a.0.priority_lt, set_queue-QueuesOk level qs rest l k a.1)

scan-PickedOk :
    (n level : ℕ) (qs : Queues) → level + n ≤ 4 → QueuesOk qs → PickedOk (scan n level qs)
unfolding scan
scan-PickedOk zero level qs h k = tt
scan-PickedOk (suc n) level qs h k =
    scan_step-PickedOk n level qs (queue qs level) refl (omega arith) k
      (AllQueued-queue level qs (omega arith) k) (scan-PickedOk n (level + 1) qs (omega arith) k)

run_picked-IsWellFormed :
    (s : Scheduler) (r : Option (Process × Queues))
    → IsWellFormed s
    → PickedOk r
    → IsWellFormed (run_picked s r).0
unfolding run_picked
run_picked-IsWellFormed s none w h = w
run_picked-IsWellFormed s (some (p, qs)) w h = record {
  levels_lo = w.levels_lo;
  levels_hi = w.levels_hi;
  waiting = h.1;
  running = (refl, h.0, (quantum_for_bounds (record s { queues = qs }) p.priority).1);
}

pick_and_run-IsWellFormed : (s : Scheduler) → IsWellFormed s → IsWellFormed (pick_and_run s).0
unfolding pick_and_run
pick_and_run-IsWellFormed s w =
    run_picked-IsWellFormed s _ w
      (scan-PickedOk s.active_levels 0 s.queues (omega (arith, w.levels_hi)) w.waiting)

idle-IsWellFormed : (s : Scheduler) → IsWellFormed s → IsWellFormed (record s { current = none })
idle-IsWellFormed s w = record {
  levels_lo = w.levels_lo;
  levels_hi = w.levels_hi;
  waiting = w.waiting;
  running = tt;
}

either-IsWellFormed :
    (b : Bool) (s t : Scheduler)
    → IsWellFormed s
    → IsWellFormed t
    → IsWellFormed (if b then s else t)
either-IsWellFormed true s t v w = v
either-IsWellFormed false s t v w = w

demote_if_spent-lt :
    (s : Scheduler) (p : Process)
    → s.active_levels ≤ 4
    → p.priority < 4
    → (demote_if_spent s p).priority < 4
unfolding demote_if_spent
demote_if_spent-lt s p h k = ground arith

check_cumulative_demotion-lt :
    (s : Scheduler) (p : Process)
    → s.active_levels ≤ 4
    → p.priority < 4
    → (check_cumulative_demotion s p).priority < 4
unfolding check_cumulative_demotion
check_cumulative_demotion-lt s p h k = ground arith

requeue_preempted-IsWellFormed :
    (s : Scheduler) (o : Option Process)
    → IsWellFormed s
    → CurrentRuns o
    → IsWellFormed (requeue_preempted s o)
unfolding requeue_preempted
requeue_preempted-IsWellFormed s none w c = w
requeue_preempted-IsWellFormed s (some p) w c =
    let idle = record s { current = none } in
    let lt = demote_if_spent-lt idle p w.levels_hi c.1 in
    either-IsWellFormed _ idle _ (idle-IsWellFormed s w) (
      requeue-IsWellFormed _ idle _ (omega (arith, w.levels_lo, w.levels_hi))
        (idle-IsWellFormed s w)
        (record { is_ready = refl; level_le = omega arith; priority_lt = lt }))

requeue_yielded-IsWellFormed :
    (s : Scheduler) (o : Option Process)
    → IsWellFormed s
    → CurrentRuns o
    → IsWellFormed (requeue_yielded s o)
unfolding requeue_yielded
requeue_yielded-IsWellFormed s none w c = w
requeue_yielded-IsWellFormed s (some p) w c =
    let idle = record s { current = none } in
    let lt = check_cumulative_demotion-lt idle p w.levels_hi c.1 in
    either-IsWellFormed _ idle _ (idle-IsWellFormed s w) (
      requeue-IsWellFormed _ idle _ (omega (arith, w.levels_lo, w.levels_hi))
        (idle-IsWellFormed s w)
        (record { is_ready = refl; level_le = omega arith; priority_lt = lt }))

boost_one-IsWellFormed :
    (level : ℕ) (rest : List Process) (p : Process) (s : Scheduler)
    → level < 4
    → IsWellFormed s
    → IsQueued level p
    → AllQueued level rest
    → IsWellFormed (boost_one level rest p s)
unfolding boost_one
boost_one-IsWellFormed level rest p s h w q a =
    requeue-IsWellFormed 0 _ _ (omega arith)
      (record {
        levels_lo = w.levels_lo;
        levels_hi = w.levels_hi;
        waiting = set_queue-QueuesOk level s.queues rest h w.waiting a;
        running = w.running;
      })
      (record { is_ready = q.is_ready; level_le = omega arith; priority_lt = omega arith })

boost_level-IsWellFormed :
    (level : ℕ) (q : List Process) (s : Scheduler)
    → level < 4
    → IsWellFormed s
    → AllQueued level q
    → IsWellFormed (boost_level level q s)
unfolding boost_level
boost_level-IsWellFormed level [] s h w a = w
boost_level-IsWellFormed level (p ∷ rest) s h w a =
    boost_level-IsWellFormed level rest (boost_one level rest p s) h
      (boost_one-IsWellFormed level rest p s h w a.0 a.1) a.1

boost_from-IsWellFormed :
    (level : ℕ) (s : Scheduler) → level < 4 → IsWellFormed s → IsWellFormed (boost_from level s)
unfolding boost_from
boost_from-IsWellFormed level s h w =
    boost_level-IsWellFormed level _ s h w (AllQueued-queue level s.queues h w.waiting)

boost_current-CurrentRuns : (o : Option Process) → CurrentRuns o → CurrentRuns (boost_current o)
unfolding boost_current
boost_current-CurrentRuns none c = tt
boost_current-CurrentRuns (some p) c = ground arith

priority_boost-IsWellFormed : (s : Scheduler) → IsWellFormed s → IsWellFormed (priority_boost s)
unfolding priority_boost
priority_boost-IsWellFormed s w =
    let m =
      boost_from-IsWellFormed 3 _ (omega arith)
        (boost_from-IsWellFormed 2 _ (omega arith) (boost_from-IsWellFormed 1 s (omega arith) w)) in
    recalculate_dynamics-IsWellFormed _ (record {
      levels_lo = m.levels_lo;
      levels_hi = m.levels_hi;
      waiting = m.waiting;
      running = boost_current-CurrentRuns _ m.running;
    })

boost_if_due-IsWellFormed :
    (now : ℕ) (s : Scheduler) → IsWellFormed s → IsWellFormed (boost_if_due now s)
unfolding boost_if_due
boost_if_due-IsWellFormed now s w = ground (arith, priority_boost-IsWellFormed s w)

charge_current-IsWellFormed :
    (s : Scheduler) (o : Option Process)
    → IsWellFormed s
    → CurrentRuns o
    → IsWellFormed (charge_current s o).0
unfolding charge_current
charge_current-IsWellFormed s none w c = w
charge_current-IsWellFormed s (some p) w c = ground arith

promote_current-IsWellFormed : (s : Scheduler) → IsWellFormed s → IsWellFormed (promote_current s)
unfolding promote_current
promote_current-IsWellFormed s w = ground arith

step-IsWellFormed : (s : Scheduler) (c : Call) → IsWellFormed s → IsWellFormed (step s c)
unfolding step timer_tick schedule_next yield_current exit_current
step-IsWellFormed s (Call.adds p) w = add_process-IsWellFormed s p w
step-IsWellFormed s (Call.ticks now) w =
    let b = boost_if_due-IsWellFormed now s w in charge_current-IsWellFormed _ _ b b.running
step-IsWellFormed s Call.schedules w =
    pick_and_run-IsWellFormed _ (requeue_preempted-IsWellFormed s s.current w w.running)
step-IsWellFormed s Call.yields w =
    pick_and_run-IsWellFormed _ (requeue_yielded-IsWellFormed s s.current w w.running)
step-IsWellFormed s Call.promotes w = promote_current-IsWellFormed s w
step-IsWellFormed s Call.exits w =
    pick_and_run-IsWellFormed _ (recalculate_dynamics-IsWellFormed _ (idle-IsWellFormed s w))

run-IsWellFormed : (s : Scheduler) (cs : List Call) → IsWellFormed s → IsWellFormed (run s cs)
unfolding run
run-IsWellFormed s [] w = w
run-IsWellFormed s (c ∷ cs) w = run-IsWellFormed (step s c) cs (step-IsWellFormed s c w)

new-IsWellFormed : IsWellFormed new
unfolding new
new-IsWellFormed = record {
  levels_lo = omega arith;
  levels_hi = omega arith;
  waiting = record { ok0 = tt; ok1 = tt; ok2 = tt; ok3 = tt };
  running = tt;
}

-- After any sequence of calls from boot: two to four levels are active, every queued process is ready,
-- has a priority below 4 and stands in the queue of a level no worse than its priority, and the
-- current process runs with a priority below 4 and a time slice of at most 64 ticks.
pub run-new-IsWellFormed : (cs : List Call) → IsWellFormed (run new cs)
run-new-IsWellFormed cs = run-IsWellFormed new cs new-IsWellFormed

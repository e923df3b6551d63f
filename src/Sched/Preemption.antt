-- ===== src/Sched/Preemption.antt =====
-- When the timer tick of kernel/src/scheduler.rs asks for a switch, and what a switch does to the priority
-- of the process that it takes off the processor.
use kafka_os.Base.{
  ℕ, zero, suc, ◌<◌, ◌≡◌, refl, ◌∙◌, ap, Option, none, some, List, [], ◌∷◌, arith, length, false,
  ◌==◌, if◌then◌else◌,
}
use mathlib.Core.Option
use kafka_os.Process.{Process}
use kafka_os.Sched.{
  Scheduler, boost_level, boost_one, boost_from, priority_boost, boost_current, requeue,
  recalculate_dynamics, timer_tick, charge_current, charge_tick, boost_if_due,
}

abbrev pub slice : Option Process → ℕ
slice none = 0
slice (some p) = p.quantum_remaining

-- The ticks at the given times, up to the first that asks for a switch: how many did not ask.
unfoldable pub quiet_ticks : List ℕ → Scheduler → Option ℕ
quiet_ticks [] s = none
quiet_ticks (now ∷ times) s =
    let (t, switch) = timer_tick now s in
    let rest = quiet_ticks times t in if switch then some 0 else Option.map suc rest

==_suc : (q : ℕ) → (suc q == 0) ≡ false
==_suc q = ground arith

boost_level-current :
    (level : ℕ) (q : List Process) (s : Scheduler) → (boost_level level q s).current ≡ s.current
unfolding boost_level boost_one requeue
boost_level-current level [] s = refl
boost_level-current level (p ∷ rest) s = boost_level-current level rest (boost_one level rest p s)

boost_current-slice : (o : Option Process) → slice (boost_current o) ≡ slice o
unfolding boost_current
boost_current-slice none = refl
boost_current-slice (some p) = ground arith

recalculate_dynamics-current : (s : Scheduler) → (recalculate_dynamics s).current ≡ s.current
unfolding recalculate_dynamics
recalculate_dynamics-current s = ground arith

priority_boost-slice : (s : Scheduler) → slice (priority_boost s).current ≡ slice s.current
unfolding priority_boost boost_from
priority_boost-slice s =
    let moved = boost_from 3 (boost_from 2 (boost_from 1 s)) in
    ap slice (recalculate_dynamics-current (record moved { current = boost_current moved.current }))
    ∙ boost_current-slice moved.current
    ∙ ap slice (
        boost_level-current 3 _ (boost_from 2 (boost_from 1 s))
        ∙ boost_level-current 2 _ (boost_from 1 s)
        ∙ boost_level-current 1 _ s)

boost_if_due-slice :
    (now : ℕ) (s : Scheduler) → slice (boost_if_due now s).current ≡ slice s.current
unfolding boost_if_due
boost_if_due-slice now s = ground (arith, priority_boost-slice s)

charge_current-slice :
    (s : Scheduler) (o : Option Process) (q : ℕ)
    → slice o ≡ suc q
    → ((charge_current s o).1 ≡ (q == 0)) × (slice (charge_current s o).0.current ≡ q)
unfolding charge_current charge_tick
charge_current-slice s none q e = absurd (omega arith)
charge_current-slice s (some p) q e = ground arith

timer_tick-slice :
    (now : ℕ) (s : Scheduler) (q : ℕ)
    → slice s.current ≡ suc q
    → ((timer_tick now s).1 ≡ (q == 0)) × (slice (timer_tick now s).0.current ≡ q)
unfolding timer_tick
timer_tick-slice now s q e =
    charge_current-slice (boost_if_due now s) _ q (boost_if_due-slice now s ∙ e)

-- Given as many ticks as are left of its time slice, the running process is asked to leave by the one that
-- uses up the slice and by none before, at whatever times they come, also where a boost falls between.
pub quiet_ticks-slice :
    (times : List ℕ) (s : Scheduler) (q : ℕ)
    → slice s.current ≡ suc q
    → q < length times
    → quiet_ticks times s ≡ some q
unfolding quiet_ticks
quiet_ticks-slice [] s q e h = absurd (omega arith)
quiet_ticks-slice (now ∷ times) s zero e h = rw ((timer_tick-slice now s zero e).0)
quiet_ticks-slice (now ∷ times) s (suc q) e h =
    let t = timer_tick-slice now s (suc q) e in
    rw (t.0, ==_suc q)
      (ap (Option.map suc) (quiet_ticks-slice times (timer_tick now s).0 q t.1 (omega arith)))

-- ===== src/Sched/Steps.antt =====
-- The calls that the kernel makes on its one scheduler, as a sequence: spawning in main.rs, the timer
-- interrupt of interrupts.rs, the yield and exit system calls of syscalls.rs.
use kafka_os.Base.{ℕ, List, [], ◌∷◌}
use kafka_os.Process.{Process}
use kafka_os.Sched.{
  Scheduler, add_process, timer_tick, schedule_next, yield_current, promote_current, exit_current,
}

pub data Call : Type 0 where
  adds : Process → Call
  ticks : ℕ → Call
  schedules yields promotes exits : Call

unfoldable pub step : Scheduler → Call → Scheduler
step s (Call.adds p) = add_process s p
step s (Call.ticks now) = (timer_tick now s).0
step s Call.schedules = (schedule_next s).0
step s Call.yields = (yield_current s).0
step s Call.promotes = promote_current s
step s Call.exits = (exit_current s).0

unfoldable pub run : Scheduler → List Call → Scheduler
run s [] = s
run s (c ∷ cs) = run (step s c) cs

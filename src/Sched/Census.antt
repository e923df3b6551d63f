-- ===== src/Sched/Census.antt =====
-- No process is lost or made up by the scheduler of kernel/src/scheduler.rs: how often an id stands in
-- the queues and in `current`.
use kafka_os.Base.{
  ℕ, zero, suc, ◌+◌, ◌≡◌, refl, Option, none, some, List, [], ◌∷◌, ◌++◌, arith, ◌==◌, if◌then◌else◌,
}
use kafka_os.Process.{Process}
use kafka_os.Sched.{
  Scheduler, Queues, queue, set_queue, is_terminated, scan, run_picked, pick_and_run,
}

abbrev pub one_if : ℕ → ℕ → ℕ
one_if pid id = if id == pid then 1 else 0

abbrev pub tally : ℕ → List Process → ℕ
tally pid [] = 0
tally pid (p ∷ ps) = one_if pid p.id + tally pid ps

abbrev pub tally_current : ℕ → Option Process → ℕ
tally_current pid none = 0
tally_current pid (some p) = one_if pid p.id

abbrev pub tally_queues : ℕ → Queues → ℕ
tally_queues pid qs = tally pid qs.q0 + tally pid qs.q1 + tally pid qs.q2 + tally pid qs.q3

-- How many processes of the scheduler have this id.
abbrev pub census : ℕ → Scheduler → ℕ
census pid s = tally_queues pid s.queues + tally_current pid s.current

-- The process that a switch drops, because it is terminated.
abbrev pub dropped : ℕ → Option Process → ℕ
dropped pid none = 0
dropped pid (some p) = if is_terminated p.state then one_if pid p.id else 0

tally-append : (pid : ℕ) (ps qs : List Process) → tally pid (ps ++ qs) ≡ tally pid ps + tally pid qs
tally-append pid [] qs = omega arith
tally-append pid (p ∷ ps) qs = omega (arith, tally-append pid ps qs)

pub tally_queues-push :
    (pid level : ℕ) (qs : Queues) (p : Process)
    → tally_queues pid (set_queue qs level (queue qs level ++ p ∷ []))
      ≡ tally_queues pid qs + one_if pid p.id
tally_queues-push pid level qs p = ground (
  arith,
  tally-append pid qs.q0 (p ∷ []),
  tally-append pid qs.q1 (p ∷ []),
  tally-append pid qs.q2 (p ∷ []),
  tally-append pid qs.q3 (p ∷ []),
)

pub tally_queues-pop :
    (pid level : ℕ) (qs : Queues) (p : Process) (rest : List Process)
    → queue qs level ≡ p ∷ rest
    → tally_queues pid (set_queue qs level rest) + one_if pid p.id ≡ tally_queues pid qs
tally_queues-pop pid level qs p rest e = ground arith

abbrev Picked : ℕ → Queues → Option (Process × Queues) → Type 0
Picked pid qs none = Unit {0}
Picked pid qs (some (p, rest)) = tally_queues pid rest + one_if pid p.id ≡ tally_queues pid qs

scan_step :
    (pid n level : ℕ) (qs : Queues) (q : List Process)
    → queue qs level ≡ q
    → Picked pid qs (scan n (level + 1) qs)
    → Picked pid qs (scan (suc n) level qs)
unfolding scan
scan_step pid n level qs [] e h = rw (e, scan) h
scan_step pid n level qs (p ∷ rest) e h = rw (e, scan) (tally_queues-pop pid level qs p rest e)

scan-Picked : (pid n level : ℕ) (qs : Queues) → Picked pid qs (scan n level qs)
unfolding scan
scan-Picked pid zero level qs = tt
scan-Picked pid (suc n) level qs =
    scan_step pid n level qs (queue qs level) refl (scan-Picked pid n (level + 1) qs)

run_picked-census :
    (pid : ℕ) (s : Scheduler) (r : Option (Process × Queues))
    → s.current ≡ none
    → Picked pid s.queues r
    → census pid (run_picked s r).0 ≡ census pid s
unfolding run_picked
run_picked-census pid s none e h = refl
run_picked-census pid s (some (p, qs)) e h = ground arith

pub pick_and_run-census :
    (pid : ℕ) (s : Scheduler) → s.current ≡ none → census pid (pick_and_run s).0 ≡ census pid s
unfolding pick_and_run
pick_and_run-census pid s e =
    run_picked-census pid s _ e (scan-Picked pid s.active_levels 0 s.queues)

-- ===== src/Sched/Fairness.antt =====
-- Which process kernel/src/scheduler.rs runs next: `pick_and_run` after `priority_boost`, and the levels that
-- it does not look at.
use kafka_os.Base.{
  ℕ, zero, suc, ◌+◌, ◌≤◌, ◌<◌, ◌≡◌, ◌≢◌, refl, sym, ◌∙◌, ap, none, some, List, [], ◌∷◌, ◌++◌, arith,
  dec_lt, map, append_assoc, append-nil, ◌==◌, if◌then◌else◌,
}
use kafka_os.Process.{Process}
use kafka_os.Sched.{
  Scheduler, Queues, queue, set_queue, requeue, boost_level, boost_one, boost_from, priority_boost,
  boost_current, scan, run_picked, pick_and_run, current_pid, recalculate_dynamics, process_count,
  exit_current, queued,
}

abbrev pub ids : List Process → List ℕ
ids = map λ p. p.id

abbrev pub ids_append : (ps qs : List Process) → ids (ps ++ qs) ≡ ids ps ++ ids qs
ids_append [] qs = refl
ids_append (p ∷ ps) qs = ap (◌∷◌ p.id) (ids_append ps qs)

scan_hit :
    (n level : ℕ) (qs : Queues) (p : Process) (rest : List Process)
    → queue qs level ≡ p ∷ rest
    → scan (suc n) level qs ≡ some (p, set_queue qs level rest)
unfolding scan
scan_hit n level qs p rest e = rw (e, scan)

scan_miss :
    (n level : ℕ) (qs : Queues)
    → queue qs level ≡ []
    → scan (suc n) level qs ≡ scan n (level + 1) qs
unfolding scan
scan_miss n level qs e = rw (e, scan)

-- The loop stops at the first level with a process.
scan-first :
    (n start level : ℕ) (qs : Queues) (p : Process) (rest : List Process)
    → queue qs level ≡ p ∷ rest
    → ((j : ℕ) → start ≤ j → j < level → queue qs j ≡ [])
    → start ≤ level
    → level < start + n
    → scan n start qs ≡ some (p, set_queue qs level rest)
scan-first zero start level qs p rest e empty lo hi = absurd (omega arith)
scan-first (suc n) start level qs p rest e empty lo hi = elim (dec_lt start level) [
  | yes h ↦
      scan_miss n start qs (empty start (omega arith) h)
      ∙ scan-first n (start + 1) level qs p rest e (λ j a b. empty j (omega arith) b) (omega arith)
          (omega arith)
  | no h ↦ let same : start ≡ level = omega arith in rw same (scan_hit n level qs p rest e)
]

-- The next process is the longest waiting of the best active level that has any: it becomes the
-- current process, and only its level's queue changes.
pub pick_and_run-first :
    (s : Scheduler) (level : ℕ) (p : Process) (rest : List Process)
    → queue s.queues level ≡ p ∷ rest
    → level < s.active_levels
    → ((j : ℕ) → j < level → queue s.queues j ≡ [])
    → (current_pid (pick_and_run s).0 ≡ some p.id)
      × ((pick_and_run s).0.queues ≡ set_queue s.queues level rest)
unfolding pick_and_run run_picked current_pid
pick_and_run-first s level p rest e h empty =
    let picked : scan s.active_levels 0 s.queues ≡ some (p, set_queue s.queues level rest) =
      scan-first s.active_levels 0 level s.queues p rest e (λ j _ b. empty j b) (omega arith)
        (omega arith) in
    (rw (picked, run_picked), rw (picked, run_picked))

set_queue-q0 :
    (level : ℕ) (qs : Queues) (q : List Process) → 0 < level → (set_queue qs level q).q0 ≡ qs.q0
set_queue-q0 level qs q h = ground arith

boost_one-q0 :
    (level : ℕ) (rest : List Process) (p : Process) (s : Scheduler)
    → 0 < level
    → ids (boost_one level rest p s).queues.q0 ≡ ids s.queues.q0 ++ p.id ∷ []
unfolding boost_one requeue
boost_one-q0 level rest p s h =
    ids_append _ _ ∙ ap (λ q. ids q ++ p.id ∷ []) (set_queue-q0 level s.queues rest h)

boost_one-queue :
    (level j : ℕ) (rest : List Process) (p : Process) (s : Scheduler)
    → 0 < level
    → level < 4
    → 0 < j
    → j < 4
    → queue (boost_one level rest p s).queues j ≡ (if j == level then rest else queue s.queues j)
unfolding boost_one requeue
boost_one-queue level j rest p s a b c d = ground arith

boost_level-q0 :
    (level : ℕ) (q : List Process) (s : Scheduler)
    → 0 < level
    → ids (boost_level level q s).queues.q0 ≡ ids s.queues.q0 ++ ids q
unfolding boost_level
boost_level-q0 level [] s h = sym (append-nil _)
boost_level-q0 level (p ∷ rest) s h =
    boost_level-q0 level rest (boost_one level rest p s) h
    ∙ rw (boost_one-q0 level rest p s h) (append_assoc (ids s.queues.q0) (p.id ∷ []) (ids rest))

boost_level-queue :
    (level j : ℕ) (q : List Process) (s : Scheduler)
    → 0 < level
    → level < 4
    → 0 < j
    → j < 4
    → queue s.queues level ≡ q
    → queue (boost_level level q s).queues j ≡ (if j == level then [] else queue s.queues j)
unfolding boost_level
boost_level-queue level j [] s a b c d e = ground arith
boost_level-queue level j (p ∷ rest) s a b c d e = ground (
  arith,
  boost_level-queue level j rest (boost_one level rest p s) a b c d,
  boost_one-queue level level rest p s a b a b,
  boost_one-queue level j rest p s a b c d,
)

boost_from-q0 :
    (level : ℕ) (s : Scheduler)
    → 0 < level
    → ids (boost_from level s).queues.q0 ≡ ids s.queues.q0 ++ ids (queue s.queues level)
unfolding boost_from
boost_from-q0 level s h = boost_level-q0 level (queue s.queues level) s h

boost_from-queue :
    (level j : ℕ) (s : Scheduler)
    → 0 < level
    → level < 4
    → 0 < j
    → j < 4
    → queue (boost_from level s).queues j ≡ (if j == level then [] else queue s.queues j)
unfolding boost_from
boost_from-queue level j s a b c d = boost_level-queue level j (queue s.queues level) s a b c d refl

recalculate_dynamics-queues : (s : Scheduler) → (recalculate_dynamics s).queues ≡ s.queues
unfolding recalculate_dynamics
recalculate_dynamics-queues s = ground arith

abbrev pub in_order : Queues → List ℕ
in_order qs = ids qs.q0 ++ (ids qs.q1 ++ (ids qs.q2 ++ ids qs.q3))

stays :
    (level j : ℕ) (s : Scheduler)
    → level < 4
    → 0 < j
    → j < level
    → queue (boost_from level s).queues j ≡ queue s.queues j
stays level j s a b c = boost_from-queue level j s (omega arith) a b (omega arith) ∙ ground arith

module _ (s : Scheduler) where
  abbrev moved1 : Scheduler
  moved1 = boost_from 1 s

  abbrev moved2 : Scheduler
  moved2 = boost_from 2 moved1

  abbrev moved3 : Scheduler
  moved3 = boost_from 3 moved2

  moved-q0 : ids moved3.queues.q0 ≡ in_order s.queues
  moved-q0 =
      boost_from-q0 3 moved2 (omega arith)
      ∙ rw
          (
            boost_from-q0 2 moved1 (omega arith),
            boost_from-queue 2 3 moved1 (omega arith) (omega arith) (omega arith) (omega arith),
            boost_from-q0 1 s (omega arith),
            boost_from-queue 1 2 s (omega arith) (omega arith) (omega arith) (omega arith),
            boost_from-queue 1 3 s (omega arith) (omega arith) (omega arith) (omega arith),
          )
          (simp append_assoc)

  -- A boost moves every queued process to level 0, in the order of their levels.
  priority_boost-queues :
      (ids (priority_boost s).queues.q0 ≡ in_order s.queues)
      × ((priority_boost s).queues.q1 ≡ [])
      × ((priority_boost s).queues.q2 ≡ [])
      × ((priority_boost s).queues.q3 ≡ [])
  unfolding priority_boost
  priority_boost-queues =
      let e =
        recalculate_dynamics-queues (record moved3 { current = boost_current moved3.current }) in
      (
        ap (λ (qs : Queues). ids qs.q0) e ∙ moved-q0,
        ap (λ (qs : Queues). qs.q1) e
            ∙ stays 3 1 moved2 (omega arith) (omega arith) (omega arith)
            ∙ stays 2 1 moved1 (omega arith) (omega arith) (omega arith)
            ∙ boost_from-queue 1 1 s (omega arith) (omega arith) (omega arith) (omega arith),
        ap (λ (qs : Queues). qs.q2) e
            ∙ stays 3 2 moved2 (omega arith) (omega arith) (omega arith)
            ∙ boost_from-queue 2 2 moved1 (omega arith) (omega arith) (omega arith) (omega arith),
        ap (λ (qs : Queues). qs.q3) e
            ∙ boost_from-queue 3 3 moved2 (omega arith) (omega arith) (omega arith) (omega arith),
      )

ids_head :
    (q : List Process) (pid : ℕ) (more : List ℕ)
    → ids q ≡ pid ∷ more
    → (p : Process) × (rest : List Process) × (q ≡ p ∷ rest) × (p.id ≡ pid)
ids_head [] pid more e = cc
ids_head (p ∷ rest) pid more e = (p, rest, refl, ground arith)

boost_level-levels :
    (level : ℕ) (q : List Process) (s : Scheduler)
    → (boost_level level q s).active_levels ≡ s.active_levels
unfolding boost_level boost_one requeue
boost_level-levels level [] s = refl
boost_level-levels level (p ∷ rest) s = boost_level-levels level rest (boost_one level rest p s)

recalculate_dynamics-levels :
    (s : Scheduler) → 0 < s.active_levels → 0 < (recalculate_dynamics s).active_levels
unfolding recalculate_dynamics
recalculate_dynamics-levels s h = ground arith

priority_boost-levels : (s : Scheduler) → 0 < s.active_levels → 0 < (priority_boost s).active_levels
unfolding priority_boost boost_from
priority_boost-levels s h = recalculate_dynamics-levels _ (
    rw
      (
        boost_level-levels 3 _ (moved2 s),
        boost_level-levels 2 _ (moved1 s),
        boost_level-levels 1 _ s,
      )
      h)

-- With any number of active levels but none, and a process queued in whatever level, the process that
-- runs next after a boost is the first of all the queued ones, level by level.
pub priority_boost-pick :
    (s : Scheduler) (pid : ℕ) (more : List ℕ)
    → 0 < s.active_levels
    → in_order s.queues ≡ pid ∷ more
    → current_pid (pick_and_run (priority_boost s)).0 ≡ some pid
priority_boost-pick s pid more h e =
    let (p, rest, q, same) =
      ids_head (priority_boost s).queues.q0 pid more ((priority_boost-queues s).0 ∙ e) in
    (pick_and_run-first (priority_boost s) 0 p rest q (priority_boost-levels s h)
      (λ j b. absurd (omega arith))).0
    ∙ ap some same

scan-none :
    (n start : ℕ) (qs : Queues)
    → ((j : ℕ) → start ≤ j → j < start + n → queue qs j ≡ [])
    → scan n start qs ≡ none
unfolding scan
scan-none zero start qs empty = refl
scan-none (suc n) start qs empty =
    scan_miss n start qs (empty start (omega arith) (omega arith))
    ∙ scan-none n (start + 1) qs (λ j a b. empty j (omega arith) (omega arith))

pick_and_run-none :
    (s : Scheduler)
    → s.active_levels ≡ 2
    → s.queues.q0 ≡ []
    → s.queues.q1 ≡ []
    → pick_and_run s ≡ (s, none)
unfolding pick_and_run
pick_and_run-none s e e0 e1 =
    let nothing : scan s.active_levels 0 s.queues ≡ none =
      scan-none s.active_levels 0 s.queues (λ j _ b. ground arith) in
    rw (nothing, run_picked)

recalculate_dynamics_shrinks :
    (s : Scheduler)
    → s.current ≡ none
    → queued s.queues ≤ 2
    → queued s.queues ≢ s.last_known_load
    → ((recalculate_dynamics s).active_levels ≡ 2)
      × (process_count (recalculate_dynamics s) ≡ queued s.queues)
unfolding recalculate_dynamics process_count
recalculate_dynamics_shrinks s e h k = ground arith

-- An exit may strand the others: where at most two processes are left, all of them in levels 2 and 3,
-- and this is not the load last seen, nothing is run although processes wait.
pub exit_current_strands :
    (s : Scheduler)
    → s.queues.q0 ≡ []
    → s.queues.q1 ≡ []
    → 0 < queued s.queues
    → queued s.queues ≤ 2
    → queued s.queues ≢ s.last_known_load
    → ((exit_current s).1 ≡ none) × (0 < process_count (exit_current s).0)
unfolding exit_current
exit_current_strands s e0 e1 some_left few changed =
    let gone = record s { current = none } in
    let shrunk = recalculate_dynamics_shrinks gone refl few changed in
    let same = recalculate_dynamics-queues gone in
    let idle =
      pick_and_run-none (recalculate_dynamics gone) shrunk.0 (ap (λ (qs : Queues). qs.q0) same ∙ e0)
        (ap (λ (qs : Queues). qs.q1) same ∙ e1) in
    (rw idle, rw (idle, shrunk.1) some_left)

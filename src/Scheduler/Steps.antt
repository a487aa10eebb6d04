-- ===== src/Scheduler/Steps.antt =====
-- What may happen to the scheduler, in any order, from its start on.
use phlox.Common.{
  ℕ, zero, suc, ◌+◌, ◌<◌, ◌≡◌, refl, sym, ◌∙◌, inl, inr, Bool, false, ◌||◌, ◌==◌, if◌then◌else◌,
  ltb, arith, Bool-cases, none, some, [], ◌∈◌, u32_mod,
}
use mathlib.Core.Path.{subst}
use phlox.Common.Total.{total}
use phlox.Common.Int.{ℤ, pos, negsuc, ◌≤ℤ◌, ltb_ℤ}
use phlox.Scheduler.{
  Scheduler, Thread, ThreadState, ready, birth, death, running, waiting, sleeping, suspended, dead,
  priority_levels, set_thread, sched_init_runqueue, sched_add_thread, sched_remove_thread,
  sched_capture_cpu, sched_release_cpu, made_ready, rq_extract_thread,
}
use phlox.Scheduler.Switch.{adjusted, by_state, sched_reschedule}
use phlox.Scheduler.Timer.{scheduler_timer}
use phlox.Scheduler.RunQueue.{
  Away, set_thread-IsRunQueue, rq_put_thread-IsRunQueue, rq_put_thread-Away, runs_put,
  total_count-rq_put_thread, total_count-rq_extract_thread, rq_extract_thread-IsRunQueue,
  rq_extract_thread-Away_other,
}
use phlox.Scheduler.Reschedule.{IsScheduler, can_leave, set_current}
use phlox.Scheduler.Resume.{sched_reschedule-IsScheduler}
use phlox.Scheduler.Tick.{scheduler_timer-IsScheduler}

-- A tick, a switch, a thread that is added or removed, the processor captured or released by the
-- current thread, and any change of a thread that is in no queue, such as the current one.
pub data Step : Scheduler → Scheduler → Type 0 where
  tick : (got_lock : Bool) (s : Scheduler) → Step s (scheduler_timer got_lock s).1
  switch : (s s' : Scheduler) → sched_reschedule s ≡ some s' → Step s s'
  add :
      (s : Scheduler) (th : ℕ)
      → Away s th
      → (s.current == th) ≡ false
      → (s.idle_thread == th) ≡ false
      → pos 0 ≤ℤ (s.threads th).s_prio
      → s.total_count + 2 < u32_mod
      → Step s (sched_add_thread s th)
  remove : (s : Scheduler) (th prio : ℕ) → th ∈ s.queue prio → Step s (sched_remove_thread s th)
  capture : (s : Scheduler) → Step s (sched_capture_cpu s).1
  free : (s : Scheduler) → Step s (sched_release_cpu s).1
  change : (s : Scheduler) (th : ℕ) (t : Thread) → Away s th → Step s (set_thread s th t)

pub data Steps : Scheduler → Scheduler → Type 0 where
  start : (s : Scheduler) → Steps s s
  step : (s s1 s2 : Scheduler) → Steps s s1 → Step s1 s2 → Steps s s2

-- A switch that does not panic is one that the theorem is about.
by_state-can_leave :
    (s : Scheduler) (t : Thread) (state : ThreadState)
    → can_leave state ≡ false
    → by_state s t state ≡ none
unfolding by_state
by_state-can_leave s t ready no_way = absurd (cc)
by_state-can_leave s t birth no_way = refl
by_state-can_leave s t death no_way = absurd (cc)
by_state-can_leave s t running no_way = absurd (cc)
by_state-can_leave s t waiting no_way = absurd (cc)
by_state-can_leave s t sleeping no_way = absurd (cc)
by_state-can_leave s t suspended no_way = absurd (cc)
by_state-can_leave s t dead no_way = refl

some_eq : (a b : Scheduler) → some a ≡ some b → a ≡ b
some_eq a b e = cc

switch-IsScheduler :
    (s s' : Scheduler) → sched_reschedule s ≡ some s' → IsScheduler s → IsScheduler s'
unfolding sched_reschedule
switch-IsScheduler s s' run is =
    let t = s.threads s.current in
    elim (Bool-cases ((s.idle_thread == s.current) || can_leave t.next_state)) [
      | inl ok ↦
          let (s1, run1, is1) = sched_reschedule-IsScheduler s is ok in
          subst IsScheduler (some_eq s1 s' (sym run1 ∙ run)) is1
      | inr out ↦
          let busy : (s.idle_thread == s.current) ≡ false = ground (arith, out) in
          let stuck : can_leave t.next_state ≡ false = ground (arith, out) in
          let panics = by_state-can_leave s (adjusted s t) t.next_state stuck in
          let run' : by_state s (adjusted s t) t.next_state ≡ some s' = rw busy at run in
          let never : none ≡ some s' = sym panics ∙ run' in absurd (cc)
    ]

-- A static priority that is not negative, cut at the highest one.
cut-static :
    (x : ℤ)
    → pos 0 ≤ℤ x
    → (p : ℕ) × ((if ltb_ℤ (pos 127) x then pos 127 else x) ≡ pos p) × (p < priority_levels)
cut-static (pos n) le = elim (Bool-cases (ltb 127 n)) [
  | inl e ↦ (127, ground (arith, e), omega arith)
  | inr e ↦ (n, ground (arith, e), ground (arith, e))
]
cut-static (negsuc n) le = absurd (omega arith)

-- Adding a thread that is not queued, does not run and is not the idle thread.
pub sched_add_thread-IsScheduler :
    (s : Scheduler) (th : ℕ)
    → IsScheduler s
    → Away s th
    → (s.current == th) ≡ false
    → (s.idle_thread == th) ≡ false
    → pos 0 ≤ℤ (s.threads th).s_prio
    → s.total_count + 2 < u32_mod
    → IsScheduler (sched_add_thread s th)
unfolding sched_add_thread
sched_add_thread-IsScheduler s th is away other busy le room =
    let t = made_ready s (s.threads th) in
    let s1 = set_thread s th t in
    let (p, at, lt) = cut-static (s.threads th).s_prio le in
    let is1 = set_thread-IsRunQueue s th t is.run_queue away in
    let d : (s1.threads th).d_prio ≡ pos p = ground (arith, at) in
    let r : (s1.threads th).state ≡ ready = ground arith in
    let count = total_count-rq_put_thread s1 th p is1 away lt d is.room in
    record {
      run_queue = rq_put_thread-IsRunQueue s1 th p is1 away lt d r is.room;
      room = omega (arith, count, room);
      idle_away =
          rw ((runs_put s1 th).0)
            (rq_put_thread-Away s1 th p is1 away lt d s.idle_thread busy is.idle_away);
      current_away =
          rw ((runs_put s1 th).1)
            (rq_put_thread-Away s1 th p is1 away lt d s.current other is.current_away);
    }

sched_remove_thread-IsScheduler :
    (s : Scheduler) (th prio : ℕ)
    → IsScheduler s
    → th ∈ s.queue prio
    → IsScheduler (sched_remove_thread s th)
unfolding sched_remove_thread rq_extract_thread
sched_remove_thread-IsScheduler s th prio is there = record {
  run_queue = rq_extract_thread-IsRunQueue s th prio is.run_queue there;
  room = omega (arith, total_count-rq_extract_thread s th prio is.run_queue there, is.room);
  idle_away = rq_extract_thread-Away_other s th prio is.run_queue there s.idle_thread is.idle_away;
  current_away =
      rq_extract_thread-Away_other s th prio is.run_queue there s.current is.current_away;
}

Step-IsScheduler : (s s' : Scheduler) → Step s s' → IsScheduler s → IsScheduler s'
unfolding sched_capture_cpu sched_release_cpu
Step-IsScheduler _ _ (tick got_lock s) is = scheduler_timer-IsScheduler got_lock s is
Step-IsScheduler _ _ (switch s s' run) is = switch-IsScheduler s s' run is
Step-IsScheduler _ _ (add s th away other busy le room) is =
    sched_add_thread-IsScheduler s th is away other busy le room
Step-IsScheduler _ _ (remove s th prio there) is =
    sched_remove_thread-IsScheduler s th prio is there
Step-IsScheduler _ _ (capture s) is = set_current s _ is
Step-IsScheduler _ _ (free s) is = set_current s _ is
Step-IsScheduler _ _ (change s th t away) is = record {
  run_queue = set_thread-IsRunQueue s th t is.run_queue away;
  room = is.room;
  idle_away = is.idle_away;
  current_away = is.current_away;
}

total-empty : (n : ℕ) → total n (λ prio. []) ≡ 0
unfolding total
total-empty zero = refl
total-empty (suc n) = omega (arith, total-empty n)

initial : (s : Scheduler) → IsScheduler (sched_init_runqueue s)
unfolding sched_init_runqueue
initial s = record {
  run_queue = record {
    placed = λ p th i. absurd (cc);
    distinct = λ p. tt;
    count = sym (total-empty priority_levels);
    small = omega (arith, total-empty priority_levels);
  };
  room = omega arith;
  idle_away = λ p. refl;
  current_away = λ p. refl;
}

Steps-keep : (s s' : Scheduler) → Steps s s' → IsScheduler s → IsScheduler s'
Steps-keep _ _ (start s) is = is
Steps-keep _ _ (step s s1 s' before last) is =
    Step-IsScheduler s1 s' last (Steps-keep s s1 before is)

-- After sched_init_runqueue and any sequence of ticks, switches that do not panic, captures and
-- releases of the processor, removals of queued threads, additions of threads that are not queued,
-- do not run and are not the idle thread, and other changes of threads that are not queued, the
-- scheduler is consistent: no thread is queued twice, the running one and the idle one not at all.
-- Priorities of added threads are not negative, and there is room in the count.
pub Steps-IsScheduler : (s s' : Scheduler) → Steps (sched_init_runqueue s) s' → IsScheduler s'
Steps-IsScheduler s s' run = Steps-keep (sched_init_runqueue s) s' run (initial s)

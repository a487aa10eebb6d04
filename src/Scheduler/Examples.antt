-- ===== src/Scheduler/Examples.antt =====
-- The theorems of the scheduler at concrete threads and queues, and runs.
use phlox.Common.{
  ℕ, ◌<◌, ◌≡◌, refl, inl, inr, true, false, ◌==◌, ==_iff, if◌then◌else◌, arith, none, some, [], ◌∷◌,
  ◌∈◌, Distinct, Bool-cases, ap, sym,
}
use phlox.Common.Total.{total}
use phlox.Common.Int.{pos, ◌-ℤ◌, ◌+ℤ◌}
use phlox.Scheduler.{Scheduler, Thread, ready, sched_init_runqueue, rq_extract_thread}
use phlox.Scheduler.Switch.{
  switch_thread, sched_reschedule, choose, take_from, most_significant, significant_thread,
  policy_level, run_thread,
}
use phlox.Scheduler.Timer.{scheduler_timer, shuffle_queue}
use phlox.Scheduler.Reschedule.{IsScheduler, Switched, switch_thread-Switched}
use phlox.Scheduler.Resume.{sched_reschedule-IsScheduler}
use phlox.Scheduler.Aging.{shuffle_queue-highest}
use phlox.Scheduler.Steps.{tick, start, step, Steps-IsScheduler}

-- An ordinary thread of normal priority, and the policy of thread 4, which is a service.
abbrev thread : ℕ → Thread
thread th = record {
  interactive = false;
  cpu = none;
  state = ready;
  next_state = ready;
  reschedule = false;
  preempt_count = pos 0;
  jiffies = pos 3;
  ijiffies = pos 15;
  sched_policy = if th == 4 then 2 else 0;
  s_prio = pos 56;
  d_prio = pos 56;
  sched_stamp = pos 0;
  carrots_sticks = pos 0;
}

-- The threads 3 and 4 are ready, thread 2 runs.
abbrev busy : Scheduler
busy = record {
  sched_ticks = pos 1000;
  sched_lost_ticks = pos 0;
  sched_tick_type = 7;
  quanta = pos 60;
  shuffle_factor = 7;
  total_count = 2;
  queue = λ prio. if prio == 56 then 3 ∷ 4 ∷ [] else [];
  idle_thread = 1;
  current = 2;
  threads = thread;
}

ready_in :
    (p th : ℕ)
    → th ∈ busy.queue p
    → (p < 128) × ((busy.threads th).d_prio ≡ pos p) × ((busy.threads th).state ≡ ready)
ready_in p th i = elim (Bool-cases (p == 56)) [
  | inl e ↦ let same : p ≡ 56 = (==_iff p 56).0 e in (omega (arith, same), ap pos (sym same), refl)
  | inr e ↦ absurd (ground (arith, e, i))
]

each_once : (p : ℕ) → Distinct (busy.queue p)
each_once p = elim (Bool-cases (p == 56)) [ inl e ↦ rw e (refl, (refl, tt)) | inr e ↦ rw e tt ]

busy-IsScheduler : IsScheduler busy
unfolding total
busy-IsScheduler = record {
  run_queue = record { placed = ready_in; distinct = each_once; count = refl; small = omega arith };
  room = omega arith;
  idle_away = λ p. ground arith;
  current_away = λ p. ground arith;
}

sched_reschedule-IsScheduler_example :
    (s' : Scheduler) × (sched_reschedule busy ≡ some s') × IsScheduler s'
sched_reschedule-IsScheduler_example = sched_reschedule-IsScheduler busy busy-IsScheduler refl

switch_thread-Switched_example : Switched busy (switch_thread busy)
switch_thread-Switched_example =
    switch_thread-Switched busy busy-IsScheduler.run_queue busy-IsScheduler.idle_away

-- The service goes first, although it is behind the head.
chooses_the_service : (switch_thread busy).current ≡ 4
unfolding switch_thread choose take_from most_significant significant_thread policy_level run_thread
    rq_extract_thread
chooses_the_service = refl

shuffle_queue-highest_example : 3 ∈ (shuffle_queue busy 56).queue 127
unfolding ◌-ℤ◌ ◌+ℤ◌
shuffle_queue-highest_example =
    shuffle_queue-highest busy 56 3 (4 ∷ []) 4000 busy-IsScheduler refl (omega arith) refl
      (omega arith) (omega arith) (omega arith)

abbrev started_up : Scheduler
started_up = sched_init_runqueue busy

Steps-IsScheduler_example : IsScheduler (scheduler_timer true started_up).1
Steps-IsScheduler_example = Steps-IsScheduler busy (scheduler_timer true started_up).1 (
    step started_up started_up (scheduler_timer true started_up).1 (start started_up)
      (tick true started_up))

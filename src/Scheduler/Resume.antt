-- ===== src/Scheduler/Resume.antt =====
-- sched_reschedule as a whole.
use phlox.Common.{◌≡◌, refl, inl, inr, true, false, ◌||◌, ◌==◌, arith, Bool-cases, some}
use phlox.Scheduler.{
  Scheduler, Thread, ThreadState, ready, birth, death, running, waiting, sleeping, suspended, dead,
  set_thread,
}
use phlox.Scheduler.Switch.{with_quanta, adjusted, by_state, switch_thread, sched_reschedule}
use phlox.Scheduler.Reschedule.{IsScheduler, can_leave, set_current, leaving, returning}

-- The next state of the current thread, each case.
by_state-IsScheduler :
    (s : Scheduler) (t : Thread) (state : ThreadState)
    → IsScheduler s
    → (s.idle_thread == s.current) ≡ false
    → t.state ≡ state
    → can_leave state ≡ true
    → (s' : Scheduler) × (by_state s t state ≡ some s') × IsScheduler s'
unfolding by_state
by_state-IsScheduler s t ready is busy r ok = (_, refl, returning s t is busy r)
by_state-IsScheduler s t birth is busy r ok = absurd (cc)
by_state-IsScheduler s t death is busy r ok = (_, refl, leaving s t is)
by_state-IsScheduler s t running is busy r ok = (_, refl, set_current s (with_quanta s t) is)
by_state-IsScheduler s t waiting is busy r ok = (_, refl, leaving s t is)
by_state-IsScheduler s t sleeping is busy r ok = (_, refl, leaving s t is)
by_state-IsScheduler s t suspended is busy r ok = (_, refl, leaving s t is)
by_state-IsScheduler s t dead is busy r ok = absurd (cc)

-- In a consistent scheduler, where the idle thread is the current one or the next state of the
-- current one is not BIRTH or DEAD, sched_reschedule does not panic, and the scheduler stays
-- consistent: each queue holds ready threads of its priority, each once, the count is right, and
-- the thread that runs then is in no queue.
pub sched_reschedule-IsScheduler :
    (s : Scheduler)
    → IsScheduler s
    → ((s.idle_thread == s.current) || can_leave (s.threads s.current).next_state) ≡ true
    → (s' : Scheduler) × (sched_reschedule s ≡ some s') × IsScheduler s'
unfolding sched_reschedule
sched_reschedule-IsScheduler s is ok =
    let t = adjusted s (s.threads s.current) in
    elim (Bool-cases (s.idle_thread == s.current)) [
      | inl e ↦ (switch_thread (set_thread s s.current t), rw e refl, leaving s t is)
      | inr e ↦
          let (s', run, is') = by_state-IsScheduler s t t.state is e refl (ground (arith, ok, e)) in
          (s', rw e run, is')
    ]

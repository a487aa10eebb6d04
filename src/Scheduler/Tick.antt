-- ===== src/Scheduler/Tick.antt =====
-- A tick of the timer keeps the scheduler consistent, and moves waiting threads up.
use phlox.Common.{
  ℕ, zero, suc, ◌+◌, ◌-◌, ◌/◌, ◌%◌, ◌<◌, ◌≡◌, refl, inl, inr, Bool, true, false, ◌||◌, ◌==◌, ==_iff,
  if◌then◌else◌, ltb, arith, Bool-cases, List-cases, List, ◌∷◌, length, ◌∈◌, u32_mod,
}
use mathlib.Core.Path.{subst}
use phlox.Common.Int.{ℤ, pos, negsuc, ◌+ℤ◌, ltb_ℤ}
use phlox.Scheduler.{
  Scheduler, Thread, ready, priority_levels, set_thread, rq_extract_thread, rq_put_thread,
}
use phlox.Scheduler.Timer.{
  waited_prio, shuffled_prio, promote, shuffle_queue, shuffle_from, sched_shuffle_runqueue_head,
  estimate, estimate_quanta, estimate_factor, check_current, tick_current, scheduler_timer,
}
use phlox.Scheduler.RunQueue.{
  Away, set_thread-IsRunQueue, rq_put_thread-IsRunQueue, rq_put_thread-Away, rq_put_thread-in,
  runs_put, total_count-rq_put_thread, total_count-rq_extract_thread, rq_extract_thread-IsRunQueue,
  rq_extract_thread-Away, rq_extract_thread-Away_other,
}
use phlox.Scheduler.Choice.{pop-extract}
use phlox.Scheduler.Reschedule.{IsScheduler, set_current}

-- A priority above another one, cut at the highest one, is the index of a queue.
cut-index :
    (x : ℤ) (low : ℕ)
    → ltb_ℤ (pos low) (if ltb_ℤ (pos 127) x then pos 127 else x) ≡ true
    → (p : ℕ) × ((if ltb_ℤ (pos 127) x then pos 127 else x) ≡ pos p) × (p < priority_levels)
cut-index (pos n) low up = elim (Bool-cases (ltb 127 n)) [
  | inl e ↦ (127, ground (arith, e), omega arith)
  | inr e ↦ (n, ground (arith, e), ground (arith, e))
]
cut-index (negsuc n) low up = absurd (ground (arith, up))

shuffled-index :
    (s : Scheduler) (t : Thread) (count low : ℕ)
    → ltb_ℤ (pos low) (shuffled_prio s t count) ≡ true
    → (p : ℕ) × (shuffled_prio s t count ≡ pos p) × (p < priority_levels)
unfolding shuffled_prio
shuffled-index s t count low up = cut-index (waited_prio s t count) low up

-- The head of a queue, moved to another one.
module _ (s : Scheduler) (prio th p : ℕ) (rest : List ℕ) (is : IsScheduler s)
    (eq : s.queue prio ≡ th ∷ rest) (lt : p < priority_levels) where
  from_extract :
      promote s prio th rest (pos p)
      ≡ rq_put_thread
          (set_thread (rq_extract_thread s th) th (record (s.threads th) { d_prio = pos p }))
          th
  unfolding promote
  from_extract = rw (pop-extract s prio th rest is.run_queue eq) refl

  pub promote-IsScheduler : IsScheduler (promote s prio th rest (pos p))
  unfolding rq_extract_thread
  promote-IsScheduler =
      let there : th ∈ s.queue prio = rw eq (ground arith) in
      let s1 = rq_extract_thread s th in
      let t : Thread = record (s.threads th) { d_prio = pos p } in
      let s2 = set_thread s1 th t in
      let is1 = rq_extract_thread-IsRunQueue s th prio is.run_queue there in
      let gone = rq_extract_thread-Away s th prio is.run_queue there in
      let is2 = set_thread-IsRunQueue s1 th t is1 gone in
      let d : (s2.threads th).d_prio ≡ pos p = ground arith in
      let (l, d0, r0) = is.run_queue.placed prio th there in
      let r : (s2.threads th).state ≡ ready = ground (arith, r0) in
      let fewer = total_count-rq_extract_thread s th prio is.run_queue there in
      let room : s2.total_count + 1 < u32_mod = omega (arith, fewer, is.room) in
      let count = total_count-rq_put_thread s2 th p is2 gone lt d room in
      let other : (x : ℕ) → Away s x → Away (rq_put_thread s2 th) x = λ x ax.
        let differs : (x == th) ≡ false = ground (arith, ax prio, there, ==_iff x th) in
        rq_put_thread-Away s2 th p is2 gone lt d x differs
          (rq_extract_thread-Away_other s th prio is.run_queue there x ax) in
      rw from_extract record {
        run_queue = rq_put_thread-IsRunQueue s2 th p is2 gone lt d r room;
        room = omega (arith, count, fewer, is.room);
        idle_away = rw ((runs_put s2 th).0) (other s.idle_thread is.idle_away);
        current_away = rw ((runs_put s2 th).1) (other s.current is.current_away);
      }

  pub promote-in : th ∈ (promote s prio th rest (pos p)).queue p
  promote-in =
      let there : th ∈ s.queue prio = rw eq (ground arith) in
      let s1 = rq_extract_thread s th in
      let t : Thread = record (s.threads th) { d_prio = pos p } in
      let is1 = rq_extract_thread-IsRunQueue s th prio is.run_queue there in
      let gone = rq_extract_thread-Away s th prio is.run_queue there in
      let d : ((set_thread s1 th t).threads th).d_prio ≡ pos p = ground arith in
      rw from_extract (
        rq_put_thread-in (set_thread s1 th t) th p (set_thread-IsRunQueue s1 th t is1 gone) gone lt
          d)

shuffle_queue-IsScheduler :
    (s : Scheduler) (prio : ℕ) → IsScheduler s → IsScheduler (shuffle_queue s prio)
unfolding shuffle_queue
shuffle_queue-IsScheduler s prio is = elim (List-cases (s.queue prio)) [
  | inl e ↦ rw (e, shuffle_queue) is
  | inr (th, rest, e) ↦
      elim (Bool-cases
        (ltb_ℤ (s.threads th).d_prio (shuffled_prio s (s.threads th) (length (th ∷ rest))))) [
          | inr stay ↦ rw (e, shuffle_queue) (rw stay is)
          | inl up ↦
              let there : th ∈ s.queue prio = rw e (ground arith) in
              let d = (is.run_queue.placed prio th there).1 in
              let up' : ltb_ℤ (pos prio) (shuffled_prio s (s.threads th) (length (th ∷ rest)))
                  ≡ true =
                subst (λ v. ltb_ℤ v (shuffled_prio s (s.threads th) (length (th ∷ rest))) ≡ true) d
                  up in
              let (p, at, lt) = shuffled-index s (s.threads th) (length (th ∷ rest)) prio up' in
              rw (e, shuffle_queue) (rw up (rw at (promote-IsScheduler s prio th p rest is e lt)))
        ]
]

shuffle_from-IsScheduler :
    (n : ℕ) (s : Scheduler) (prio : ℕ) → IsScheduler s → IsScheduler (shuffle_from n s prio)
unfolding shuffle_from
shuffle_from-IsScheduler zero s prio is = is
shuffle_from-IsScheduler (suc n) s prio is =
    shuffle_from-IsScheduler n (shuffle_queue s prio) (prio + 8)
      (shuffle_queue-IsScheduler s prio is)

-- The clock and the estimated values are apart from the queues.
set_clock :
    (s : Scheduler) (ticks lost : ℤ) (tick_type : ℕ) (q : ℤ) (factor : ℕ)
    → IsScheduler s
    → IsScheduler (record s {
      sched_ticks = ticks;
      sched_lost_ticks = lost;
      sched_tick_type = tick_type;
      quanta = q;
      shuffle_factor = factor;
    })
set_clock s ticks lost tick_type q factor is = record {
  run_queue = record {
    placed = is.run_queue.placed;
    distinct = is.run_queue.distinct;
    count = is.run_queue.count;
    small = is.run_queue.small;
  };
  room = is.room;
  idle_away = is.idle_away;
  current_away = is.current_away;
}

estimate-IsScheduler : (s : Scheduler) → IsScheduler s → IsScheduler (estimate s)
unfolding estimate
estimate-IsScheduler s is = elim (Bool-cases (s.sched_tick_type == 7)) [
  | inl e ↦ rw e (
      set_clock s s.sched_ticks s.sched_lost_ticks s.sched_tick_type (estimate_quanta s.total_count)
        (estimate_factor s.total_count) is)
  | inr e ↦ rw e is
]

tick_current-IsScheduler :
    (s : Scheduler) (out : ℤ) → IsScheduler s → IsScheduler (tick_current s out).1
unfolding tick_current
tick_current-IsScheduler s out is =
    let t = s.threads s.current in
    let (resched, jiffies) = check_current s t out in
    elim (Bool-cases
      (ltb_ℤ t.preempt_count (pos 0) || ltb_ℤ (pos 0) t.preempt_count || t.reschedule)) [
        | inl e ↦ rw e is
        | inr e ↦ rw e (set_current s (record t { jiffies = jiffies; reschedule = resched }) is)
      ]

-- scheduler_timer, whether it gets the lock or not, keeps the scheduler consistent while it moves
-- heads of queues to higher ones.
pub scheduler_timer-IsScheduler :
    (got_lock : Bool) (s : Scheduler) → IsScheduler s → IsScheduler (scheduler_timer got_lock s).1
unfolding scheduler_timer sched_shuffle_runqueue_head
scheduler_timer-IsScheduler true s is =
    let out = s.sched_lost_ticks +ℤ pos 1 in
    let tick_type = (s.sched_tick_type + 1) % 8 in
    let is1 = set_clock s (s.sched_ticks +ℤ out) (pos 0) tick_type s.quanta s.shuffle_factor is in
    tick_current-IsScheduler _ out (
      estimate-IsScheduler _
        (shuffle_from-IsScheduler ((priority_levels - 1 - tick_type + 7) / 8) _ tick_type is1))
scheduler_timer-IsScheduler false s is =
    set_clock s s.sched_ticks (s.sched_lost_ticks +ℤ pos 1) s.sched_tick_type s.quanta
      s.shuffle_factor is

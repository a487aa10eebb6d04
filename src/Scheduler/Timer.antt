-- ===== src/Scheduler/Timer.antt =====
-- phlox/kernel/scheduler.c: what the scheduler does at a tick of the timer.
use phlox.Common.{
  ℕ, zero, suc, ◌+◌, ◌-◌, ◌*◌, ◌/◌, ◌%◌, Bool, true, false, not, ◌&&◌, ◌||◌, List, [], ◌∷◌, length,
  ◌==◌, ltb, if◌then◌else◌, u32_mod,
}
use phlox.Common.Int.{ℤ, pos, ◌+ℤ◌, ◌-ℤ◌, ltb_ℤ, quot}
use phlox.Scheduler.{
  Thread, Scheduler, priority_levels, default_quanta, minimum_quanta, ticks2msec, set_thread,
  rq_pop_head_thread, rq_put_thread,
}

-- The dynamic priority that a waiting thread is given, at the head of a queue of `count` threads,
-- before it is cut at the highest one.
unfoldable pub waited_prio : Scheduler → Thread → (count : ℕ) → ℤ
waited_prio s t count =
    let wait = quot (ticks2msec s.sched_ticks -ℤ t.sched_stamp) (pos s.shuffle_factor) in
    t.s_prio +ℤ wait +ℤ pos (count / 16) +ℤ t.carrots_sticks

unfoldable pub shuffled_prio : Scheduler → Thread → (count : ℕ) → ℤ
shuffled_prio s t count =
    let new_prio = waited_prio s t count in
    let top = pos (priority_levels - 1) in if ltb_ℤ top new_prio then top else new_prio

-- The head of a queue moves to the queue of its new dynamic priority.
unfoldable pub promote : Scheduler → (prio th : ℕ) → List ℕ → (new_prio : ℤ) → Scheduler
promote s prio th rest new_prio =
    let popped = rq_pop_head_thread s prio rest in
    rq_put_thread (set_thread popped th (record (s.threads th) { d_prio = new_prio })) th

-- One round of the loop.
unfoldable pub shuffle_queue : Scheduler → (prio : ℕ) → Scheduler
shuffle_queue s prio = elim (s.queue prio) [
  | [] ↦ s
  | th ∷ rest ↦
      let new_prio = shuffled_prio s (s.threads th) (length (th ∷ rest)) in
      if ltb_ℤ (s.threads th).d_prio new_prio then promote s prio th rest new_prio else s
]

unfoldable pub shuffle_from : ℕ → Scheduler → (prio : ℕ) → Scheduler
shuffle_from zero s prio = s
shuffle_from (suc n) s prio = shuffle_from n (shuffle_queue s prio) (prio + 8)

-- The priorities of a tick type below the last one, in steps of 8.
unfoldable pub sched_shuffle_runqueue_head : Scheduler → (tick_type : ℕ) → Scheduler
sched_shuffle_runqueue_head s tick_type =
    shuffle_from ((priority_levels - 1 - tick_type + 7) / 8) s tick_type

-- The estimation of the quanta and of the shuffle factor.
unfoldable pub estimate_quanta : (total_count : ℕ) → ℤ
estimate_quanta total_count =
    let q = pos default_quanta -ℤ pos (total_count / 2) in
    if ltb_ℤ q (pos minimum_quanta) then pos minimum_quanta else q

unfoldable pub factor_a : (total_count : ℕ) → ℕ
factor_a total_count = let a = total_count / 200 in if a == 0 then 1 else a

unfoldable pub factor_b : (total_count : ℕ) → ℕ
factor_b total_count =
    let b0 = if total_count == 0 then 8 else 50 / total_count in
    let b1 = if ltb 8 b0 then 8 else b0 in if b1 == 0 then 1 else b1

unfoldable pub estimate_factor : (total_count : ℕ) → ℕ
estimate_factor total_count = factor_a total_count * default_quanta % u32_mod / factor_b total_count

-- Whether a queue above the priority `low`, up to `n` exclusively, has a thread.
unfoldable pub has_better : ℕ → (queue : ℕ → List ℕ) → (low : ℤ) → Bool
has_better zero queue low = false
has_better (suc n) queue low =
    let rest = has_better n queue low in
    if ltb_ℤ low (pos n) then (if length (queue n) == 0 then rest else true) else false

-- The jiffies of the current thread, which the test of the source changes, and whether to reschedule.
unfoldable pub check_current : Scheduler → Thread → (ticks_out : ℤ) → Bool × ℤ
check_current s t ticks_out =
    let is_idle = s.idle_thread == s.current in
    let left = t.jiffies -ℤ ticks_out in
    let jiffies = if is_idle then t.jiffies else if ltb_ℤ (pos 0) left then left else pos 0 in
    let granule = not (ltb_ℤ (ticks2msec (t.ijiffies -ℤ jiffies)) (pos 10)) in
    let better = has_better priority_levels s.queue t.d_prio in
    (
      if not is_idle && not (ltb_ℤ (pos 0) left) then true else (is_idle || granule) && better,
      jiffies,
    )

-- The estimation, at its tick.
unfoldable pub estimate : Scheduler → Scheduler
estimate s =
    if s.sched_tick_type == 7
    then record s {
      quanta = estimate_quanta s.total_count;
      shuffle_factor = estimate_factor s.total_count;
    }
    else s

-- The current thread, where it can be rescheduled.
unfoldable pub tick_current : Scheduler → (ticks_out : ℤ) → Bool × Scheduler
tick_current s ticks_out =
    let t = s.threads s.current in
    let (resched, jiffies) = check_current s t ticks_out in
    if ltb_ℤ t.preempt_count (pos 0) || ltb_ℤ (pos 0) t.preempt_count || t.reschedule
    then (false, s)
    else (resched, set_thread s s.current (record t { jiffies = jiffies; reschedule = resched }))

-- The result is whether to reschedule. `got_lock` is the result of sched_lock_tryacquire.
unfoldable pub scheduler_timer : (got_lock : Bool) → Scheduler → Bool × Scheduler
scheduler_timer got_lock s =
    let ticks_out = s.sched_lost_ticks +ℤ pos 1 in
    let tick_type = (s.sched_tick_type + 1) % 8 in
    let s1 = record s {
      sched_ticks = s.sched_ticks +ℤ ticks_out;
      sched_lost_ticks = pos 0;
      sched_tick_type = tick_type;
    } in
    if not got_lock
    then (false, record s { sched_lost_ticks = ticks_out })
    else tick_current (estimate (sched_shuffle_runqueue_head s1 tick_type)) ticks_out

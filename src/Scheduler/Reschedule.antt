-- ===== src/Scheduler/Reschedule.antt =====
-- sched_reschedule keeps the scheduler consistent, and switches to the thread that is due.
use phlox.Common.{
  ℕ, ◌+◌, ◌-◌, ◌<◌, ◌≤◌, ◌≡◌, ◌⊎◌, refl, sym, inl, inr, Bool, true, false, List, [], ◌∷◌, has-take,
  ◌∈◌, ◌==◌, ltb, arith, Bool-cases, none, some, u32_mod,
}
use mathlib.Core.Path.{subst}
use phlox.Common.Int.{ℤ, pos, negsuc, ◌+ℤ◌}
use phlox.Scheduler.{
  Scheduler, Thread, ThreadState, ready, birth, death, running, waiting, sleeping, suspended, dead,
  priority_levels, set_thread, msec2ticks, rq_extract_thread, rq_put_thread,
}
use phlox.Scheduler.Switch.{
  choose, clamp, run_thread, started, with_quanta, switch_thread, rewarded, carrots_and_sticks,
}
use phlox.Scheduler.RunQueue.{
  IsRunQueue, Away, set_thread-IsRunQueue, rq_put_thread-IsRunQueue, rq_put_thread-Away,
  rq_put_thread-in, runs_put, total_count-rq_put_thread, total_count-rq_extract_thread,
  rq_extract_thread-IsRunQueue, rq_extract_thread-Away, rq_extract_thread-Away_other,
}
use phlox.Scheduler.Choice.{Choice, choose-Choice}

-- The run queue is consistent and has room for one more thread; the current thread and the idle
-- thread are in none of its queues.
pub record IsScheduler (s : Scheduler) : Type 0 where
  pub run_queue : IsRunQueue s
  pub room : s.total_count + 1 < u32_mod
  pub idle_away : Away s s.idle_thread
  pub current_away : Away s s.current

-- The switch from `s` to `s'`: the thread that runs then is running, has a full quanta and was the
-- choice, or the idle thread where no thread is ready.
pub record Switched (s s' : Scheduler) : Type 0 where
  pub run_queue : IsRunQueue s'
  pub total_count : s'.total_count ≤ s.total_count
  pub idle_thread : s'.idle_thread ≡ s.idle_thread
  pub idle_away : Away s' s'.idle_thread
  pub current_away : Away s' s'.current
  pub state : (s'.threads s'.current).state ≡ running
  pub who :
      (((q : ℕ) → q < priority_levels → s.queue q ≡ []) × (s'.current ≡ s.idle_thread))
      ⊎ (Choice s priority_levels s'.current
          × ((s'.threads s'.current).jiffies ≡ msec2ticks s.quanta)
          × (s'.total_count + 1 ≡ s.total_count)
          × (s'.queue ≡ (rq_extract_thread s s'.current).queue))

run_thread-IsRunQueue :
    (s : Scheduler) (next : ℕ) → IsRunQueue s → Away s next → IsRunQueue (run_thread s next)
unfolding run_thread
run_thread-IsRunQueue s next is away =
    let set = set_thread-IsRunQueue s next (started s (s.threads next)) is away in
    record { placed = set.placed; distinct = set.distinct; count = set.count; small = set.small }

-- The two branches of switch_thread.
switch_idle :
    (s : Scheduler) → choose priority_levels s ≡ none → switch_thread s ≡ run_thread s s.idle_thread
unfolding switch_thread
switch_idle s e = rw (e, switch_thread) refl

switch_next :
    (s s1 : Scheduler) (next : ℕ)
    → choose priority_levels s ≡ some (next, s1)
    → switch_thread s ≡ run_thread (set_thread s1 next (with_quanta s1 (s1.threads next))) next
unfolding switch_thread
switch_next s s1 next e = rw (e, switch_thread) refl

-- To the idle thread.
to_idle :
    (s : Scheduler)
    → IsRunQueue s
    → Away s s.idle_thread
    → ((q : ℕ) → q < priority_levels → s.queue q ≡ [])
    → Switched s (run_thread s s.idle_thread)
unfolding run_thread
to_idle s is idle all = record {
  run_queue = run_thread-IsRunQueue s s.idle_thread is idle;
  total_count = omega arith;
  idle_thread = refl;
  idle_away = idle;
  current_away = idle;
  state = ground arith;
  who = inl (all, refl);
}

-- To a thread of the queues.
to_next :
    (s : Scheduler) (next : ℕ)
    → IsRunQueue s
    → Away s s.idle_thread
    → (c : Choice s priority_levels next)
    → (let s1 = rq_extract_thread s next in
        Switched s (run_thread (set_thread s1 next (with_quanta s1 (s1.threads next))) next))
unfolding run_thread rq_extract_thread
to_next s next is idle c =
    let s1 = rq_extract_thread s next in
    let inside : next ∈ c.head ∷ c.rest = has-take 10 next (c.head ∷ c.rest) c.looked_at in
    let there : next ∈ s.queue c.prio = rw c.queued inside in
    let gone = rq_extract_thread-Away s next c.prio is there in
    let is1 = rq_extract_thread-IsRunQueue s next c.prio is there in
    record {
      run_queue =
          run_thread-IsRunQueue (set_thread s1 next (with_quanta s1 (s1.threads next))) next
            (set_thread-IsRunQueue s1 next (with_quanta s1 (s1.threads next)) is1 gone) gone;
      total_count = omega (arith, total_count-rq_extract_thread s next c.prio is there);
      idle_thread = refl;
      idle_away = rq_extract_thread-Away_other s next c.prio is there s.idle_thread idle;
      current_away = gone;
      state = ground arith;
      who = inr (c, ground arith, total_count-rq_extract_thread s next c.prio is there, refl);
    }

-- Where the run queue is consistent and the idle thread in none of its queues, the switch of
-- sched_reschedule goes to a thread of the highest queue that is not empty, one of the first ten
-- and with none of them on a higher level of policy, which leaves the queues and gets a full
-- quanta; it goes to the idle thread only where all queues are empty. The run queue stays
-- consistent, and the thread that runs and the idle thread are in no queue.
pub switch_thread-Switched :
    (s : Scheduler) → IsRunQueue s → Away s s.idle_thread → Switched s (switch_thread s)
switch_thread-Switched s is idle = elim (choose-Choice priority_levels s is) [
  | inl (nothing, all) ↦ subst (Switched s) (sym (switch_idle s nothing)) (to_idle s is idle all)
  | inr (next, run, c) ↦
      subst (Switched s) (sym (switch_next s (rq_extract_thread s next) next run))
        (to_next s next is idle c)
]

-- A clamped priority is the index of a queue.
pub clamp-index :
    (x : ℤ)
    → (p : ℕ) × (clamp (pos 0) (pos (priority_levels - 1)) x ≡ pos p) × (p < priority_levels)
unfolding clamp
clamp-index (pos n) = elim (Bool-cases (ltb 127 n)) [
  | inl e ↦ (127, ground (arith, e), omega arith)
  | inr e ↦ (n, ground (arith, e), ground (arith, e))
]
clamp-index (negsuc n) = (0, ground arith, omega arith)

-- The states that the switch accepts.
abbrev pub can_leave : ThreadState → Bool
can_leave ready = true
can_leave birth = false
can_leave death = true
can_leave running = true
can_leave waiting = true
can_leave sleeping = true
can_leave suspended = true
can_leave dead = false

pub set_current :
    (s : Scheduler) (t : Thread) → IsScheduler s → IsScheduler (set_thread s s.current t)
set_current s t is = record {
  run_queue = set_thread-IsRunQueue s s.current t is.run_queue is.current_away;
  room = is.room;
  idle_away = is.idle_away;
  current_away = is.current_away;
}

-- The scheduler behind a switch from one with room.
behind : (s s' : Scheduler) → s.total_count + 1 < u32_mod → Switched s s' → IsScheduler s'
behind s s' room sw = record {
  run_queue = sw.run_queue;
  room = omega (arith, sw.total_count, room);
  idle_away = sw.idle_away;
  current_away = sw.current_away;
}

-- A switch that leaves the current thread out of the queues.
pub leaving :
    (s : Scheduler) (t : Thread)
    → IsScheduler s
    → IsScheduler (switch_thread (set_thread s s.current t))
leaving s t is =
    let is1 = set_current s t is in
    let s1 = set_thread s s.current t in
    behind s1 (switch_thread s1) is.room (switch_thread-Switched s1 is1.run_queue is1.idle_away)

never_empty : (ths : List ℕ) (th : ℕ) → ths ≡ [] → th ∈ ths → ¬ (th ≡ th)
never_empty ths th e i same = let i' : th ∈ [] = rw e at i in absurd (cc)

-- A switch that puts the current thread back.
pub returning :
    (s : Scheduler) (t : Thread)
    → IsScheduler s
    → (s.idle_thread == s.current) ≡ false
    → t.state ≡ ready
    → (let s1 = rq_put_thread (set_thread s s.current (rewarded t)) s.current in
        IsScheduler (switch_thread s1))
returning s t is busy r =
    let s0 = set_thread s s.current (rewarded t) in
    let is0 = set_current s (rewarded t) is in
    let s1 = rq_put_thread s0 s.current in
    let (p, at, lt) = clamp-index (t.s_prio +ℤ carrots_and_sticks t) in
    let d : (s0.threads s.current).d_prio ≡ pos p = ground (arith, at) in
    let r0 : (s0.threads s.current).state ≡ ready = ground (arith, r) in
    let away = is0.current_away in
    let is1 = rq_put_thread-IsRunQueue s0 s.current p is0.run_queue away lt d r0 is.room in
    let kept = (runs_put s0 s.current).0 in
    let idle =
      rq_put_thread-Away s0 s.current p is0.run_queue away lt d s.idle_thread busy is0.idle_away in
    let sw = switch_thread-Switched s1 is1 (λ q. rw kept (idle q)) in
    let count = total_count-rq_put_thread s0 s.current p is0.run_queue away lt d is.room in
    elim sw.who [
      | inl (all, same) ↦ absurd (
          never_empty (s1.queue p) s.current (all p lt)
            (rq_put_thread-in s0 s.current p is0.run_queue away lt d) refl)
      | inr (c, full, less, rest) ↦ record {
        run_queue = sw.run_queue;
        room = omega (arith, less, count, is.room);
        idle_away = sw.idle_away;
        current_away = sw.current_away;
      }
    ]

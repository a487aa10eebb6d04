-- ===== src/Scheduler/Switch.antt =====
-- phlox/kernel/scheduler.c: the choice of the next thread and the switch to it. The lock of a
-- thread and the change of the processor's context are left out.
use phlox.Common.{
  ℕ, zero, suc, ◌-◌, false, not, ◌&&◌, ◌||◌, Option, none, some, List, [], ◌∷◌, length, ◌==◌, ltb,
  if◌then◌else◌,
}
use phlox.Common.Int.{ℤ, pos, negsuc, pos_part, ◌+ℤ◌, ◌-ℤ◌, ltb_ℤ, quot, scale}
use phlox.Scheduler.{
  Thread, ThreadState, ready, birth, death, running, waiting, sleeping, suspended, dead, Scheduler,
  priority_levels, ticks2msec, msec2ticks, set_thread, rq_extract_thread, rq_pop_head_thread,
  rq_put_thread,
}

-- The policy of a thread, where an interactive one counts in an interactive process only.
unfoldable pub policy_level : Thread → ℕ
policy_level t = if (t.sched_policy == 1) && not t.interactive then 0 else t.sched_policy

unfoldable pub significant_thread : Scheduler → (t1 t2 : ℕ) → ℕ
significant_thread s t1 t2 =
    if ltb (policy_level (s.threads t1)) (policy_level (s.threads t2)) then t2 else t1

-- The bonuses and penalties by tenths of the time quanta that were used.
unfoldable pub sys_bonus : ℕ → ℤ
sys_bonus i = if ltb i 8 then pos 0 else negsuc 0

unfoldable pub ord_bonus : ℕ → ℤ
ord_bonus zero = pos 3
ord_bonus (suc zero) = pos 2
ord_bonus (suc (suc zero)) = pos 2
ord_bonus (suc (suc (suc zero))) = pos 1
ord_bonus (suc (suc (suc (suc zero)))) = pos 0
ord_bonus (suc (suc (suc (suc (suc zero))))) = pos 0
ord_bonus (suc (suc (suc (suc (suc (suc zero)))))) = negsuc 0
ord_bonus (suc (suc (suc (suc (suc (suc (suc zero))))))) = negsuc 1
ord_bonus (suc (suc (suc (suc (suc (suc (suc (suc i)))))))) = negsuc 2

-- Between two limits.
unfoldable pub clamp : (low high : ℤ) → ℤ → ℤ
clamp low high x = if ltb_ℤ high x then high else if ltb_ℤ x low then low else x

-- The used quanta in tenths, as an index of the arrays. Where ijiffies is 0 the processor faults;
-- the quotient here is total.
unfoldable pub usage : Thread → ℕ
usage t =
    let ptyi = quot (quot (scale 100 (t.ijiffies -ℤ t.jiffies)) t.ijiffies) (pos 10) in
    pos_part (clamp (pos 0) (pos 9) ptyi)

-- Towards 0, where the last bonus was none.
unfoldable pub fade : (bonus accumulated : ℤ) → ℤ
fade (pos zero) (pos zero) = pos zero
fade (pos zero) (pos (suc n)) = pos n
fade (pos zero) (negsuc n) = negsuc n +ℤ pos 1
fade (pos (suc b)) accumulated = accumulated
fade (negsuc b) accumulated = accumulated

-- The new value of the field, which is also the result.
unfoldable pub carrots_and_sticks : Thread → ℤ
carrots_and_sticks t =
    let i = usage t in
    if (t.sched_policy == 6) || (t.sched_policy == 5)
    then sys_bonus i
    else clamp (negsuc 7) (pos 8) (fade (ord_bonus i) (t.carrots_sticks +ℤ ord_bonus i))

-- The most significant of `best` and the next `n` threads, the first one of those on a level.
unfoldable pub most_significant : ℕ → Scheduler → (best : ℕ) → List ℕ → ℕ
most_significant zero s best ths = best
most_significant (suc n) s best [] = best
most_significant (suc n) s best (th ∷ ths) = most_significant n s (significant_thread s best th) ths

-- The thread that is taken of a queue with the head `th`, and the scheduler without it: the loop
-- over a longer queue looks at 9 threads behind the head.
unfoldable pub take_from : Scheduler → (prio th : ℕ) → List ℕ → ℕ × Scheduler
take_from s prio th rest =
    let next = most_significant 9 s th rest in
    if ltb 1 (length (th ∷ rest))
    then (next, rq_extract_thread s next)
    else (th, rq_pop_head_thread s prio rest)

-- The search of the queues below `n`, from the highest one down.
unfoldable pub choose : ℕ → Scheduler → Option (ℕ × Scheduler)
choose zero s = none
choose (suc n) s =
    let rest = choose n s in elim (s.queue n) [ [] ↦ rest | th ∷ ths ↦ some (take_from s n th ths) ]

abbrev pub with_quanta : Scheduler → Thread → Thread
with_quanta s t = record t { jiffies = msec2ticks s.quanta; ijiffies = msec2ticks s.quanta }

-- The switch to a thread.
abbrev pub started : Scheduler → Thread → Thread
started s t = record t { state = running; sched_stamp = ticks2msec s.sched_ticks }

unfoldable pub run_thread : Scheduler → (next : ℕ) → Scheduler
run_thread s next = record (set_thread s next (started s (s.threads next))) { current = next }

-- The steps of sched_reschedule behind the switch on the state.
unfoldable pub switch_thread : Scheduler → Scheduler
switch_thread s = elim (choose priority_levels s) [
  | none ↦ run_thread s s.idle_thread
  | some (next, s1) ↦ run_thread (set_thread s1 next (with_quanta s1 (s1.threads next))) next
]

-- The current thread first: the switch to its next state.
abbrev pub adjusted : Scheduler → Thread → Thread
adjusted s t = record t {
  sched_stamp = ticks2msec s.sched_ticks;
  reschedule = false;
  state = t.next_state;
  next_state = ready;
}

-- With its bonus or penalty, for the run queue.
abbrev pub rewarded : Thread → Thread
rewarded t =
    let cs = carrots_and_sticks t in
    record t {
      carrots_sticks = cs;
      d_prio = clamp (pos 0) (pos (priority_levels - 1)) (t.s_prio +ℤ cs);
    }

-- The cases of the thread's new state; `none` is the panic.
unfoldable pub by_state : Scheduler → (t : Thread) → ThreadState → Option Scheduler
by_state s t running = some (set_thread s s.current (with_quanta s t))
by_state s t ready =
    some (switch_thread (rq_put_thread (set_thread s s.current (rewarded t)) s.current))
by_state s t waiting = some (switch_thread (set_thread s s.current t))
by_state s t sleeping = some (switch_thread (set_thread s s.current t))
by_state s t suspended = some (switch_thread (set_thread s s.current t))
by_state s t death = some (switch_thread (set_thread s s.current t))
by_state s t birth = none
by_state s t dead = none

unfoldable pub sched_reschedule : Scheduler → Option Scheduler
sched_reschedule s =
    let t = adjusted s (s.threads s.current) in
    let go = by_state s t t.state in
    if s.idle_thread == s.current then some (switch_thread (set_thread s s.current t)) else go

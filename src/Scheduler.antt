-- ===== src/Scheduler.antt =====
-- phlox/kernel/scheduler.c: threads, the run queue and its routines. There is one processor, as
-- SYSCFG_MAX_CPUS is 1. A thread is its address; a priority queue is the sequence of its threads,
-- the list routines of XList seen from above. `int` and `int64` are integers without bounds. Debug
-- assertions are left out.
pub mod Timer
pub mod Switch
pub mod RunQueue
pub mod Choice
pub mod Reschedule
pub mod Resume
pub mod Priority
pub mod Tick
pub mod Aging
pub mod Steps
mod Examples
use phlox.Common.{
  ℕ, zero, suc, ◌+◌, ◌-◌, ◌*◌, ◌/◌, Bool, true, false, Option, none, some, List, [], ◌∷◌, ◌++◌,
  length, erase, ◌==◌, if◌then◌else◌, inc32, dec32,
}
use phlox.Common.Total.{put}
use phlox.Common.Int.{ℤ, pos, negsuc, pos_part, ◌+ℤ◌, ◌-ℤ◌, ltb_ℤ}

pub data ThreadState : Type 0 where
  ready : ThreadState
  birth : ThreadState
  death : ThreadState
  running : ThreadState
  waiting : ThreadState
  sleeping : ThreadState
  suspended : ThreadState
  dead : ThreadState

-- The fields of a thread that the scheduler reads or writes. Of the flags there is one.
pub record Thread : Type 0 where
  -- whether the owner process has the flag PROCESS_FLAG_INTERACTIVE
  pub interactive : Bool
  pub cpu : Option ℕ
  pub state : ThreadState
  pub next_state : ThreadState
  pub reschedule : Bool
  pub preempt_count : ℤ
  pub jiffies : ℤ
  pub ijiffies : ℤ
  pub sched_policy : ℕ
  pub s_prio : ℤ
  pub d_prio : ℤ
  pub sched_stamp : ℤ
  pub carrots_sticks : ℤ

-- The variables of the file, the run queue, the threads and the one that runs.
pub record Scheduler : Type 0 where
  pub sched_ticks : ℤ
  pub sched_lost_ticks : ℤ
  pub sched_tick_type : ℕ
  pub quanta : ℤ
  pub shuffle_factor : ℕ
  pub total_count : ℕ
  pub queue : ℕ → List ℕ
  pub idle_thread : ℕ
  pub current : ℕ
  pub threads : ℕ → Thread

abbrev pub priority_levels : ℕ
priority_levels = 128

abbrev pub default_quanta : ℕ
default_quanta = 60

abbrev pub minimum_quanta : ℕ
minimum_quanta = 20

-- SCHED_TICKS2MSEC and SCHED_MSEC2TICKS, for 250 ticks in a second.
abbrev pub ticks2msec : ℤ → ℤ
ticks2msec (pos n) = pos (n * 1000 / 250)
ticks2msec (negsuc n) = pos 0 -ℤ pos (suc n * 1000 / 250)

abbrev pub msec2ticks : ℤ → ℤ
msec2ticks (pos n) = pos (n * 250 / 1000)
msec2ticks (negsuc n) = pos 0 -ℤ pos (suc n * 250 / 1000)

-- The index of a queue; a priority is not negative where it is used as one.
abbrev pub index : ℤ → ℕ
index prio = pos_part prio

-- A thread gets new fields.
abbrev pub set_thread : Scheduler → (th : ℕ) → Thread → Scheduler
set_thread s th t = record s { threads = λ i. if i == th then t else s.threads i }

pub rq_extract_thread : Scheduler → (th : ℕ) → Scheduler
rq_extract_thread s th =
    let prio = index (s.threads th).d_prio in
    record s {
      queue = put s.queue prio (erase th (s.queue prio));
      total_count = dec32 s.total_count;
    }

-- The queue of the priority starts with the thread `th`, before `rest`.
pub rq_pop_head_thread : Scheduler → (prio : ℕ) → (rest : List ℕ) → Scheduler
rq_pop_head_thread s prio rest = record s {
  queue = put s.queue prio rest;
  total_count = dec32 s.total_count;
}

pub rq_put_thread : Scheduler → (th : ℕ) → Scheduler
rq_put_thread s th =
    let t = s.threads th in
    let prio = index t.d_prio in
    record (set_thread s th (record t { cpu = some 0 })) {
      queue = put s.queue prio (s.queue prio ++ th ∷ []);
      total_count = inc32 s.total_count;
    }

pub sched_init_runqueue : Scheduler → Scheduler
sched_init_runqueue s = record s { total_count = 0; queue = λ prio. [] }

pub sched_add_idle_thread : Scheduler → (thread : ℕ) → Scheduler
sched_add_idle_thread s thread =
    let t = s.threads thread in
    let t' = record t {
      state = running;
      next_state = ready;
      s_prio = negsuc 0;
      d_prio = negsuc 0;
    } in
    record (set_thread s thread t') { idle_thread = thread }

-- What sched_add_thread makes of a thread before it puts it to the run queue.
abbrev pub made_ready : Scheduler → Thread → Thread
made_ready s t =
    let top = pos (priority_levels - 1) in
    let prio = if ltb_ℤ top t.s_prio then top else t.s_prio in
    record t {
      s_prio = prio;
      state = ready;
      next_state = running;
      d_prio = prio;
      sched_stamp = ticks2msec s.sched_ticks;
    }

pub sched_add_thread : Scheduler → (thread : ℕ) → Scheduler
unfolding rq_put_thread
sched_add_thread s thread =
    rq_put_thread (set_thread s thread (made_ready s (s.threads thread))) thread

pub sched_remove_thread : Scheduler → (thread : ℕ) → Scheduler
unfolding rq_extract_thread
sched_remove_thread s thread = rq_extract_thread s thread

-- The new count is the result.
pub sched_capture_cpu : Scheduler → ℤ × Scheduler
sched_capture_cpu s =
    let t = s.threads s.current in
    let count = t.preempt_count +ℤ pos 1 in
    (count, set_thread s s.current (record t { preempt_count = count }))

pub sched_release_cpu : Scheduler → ℤ × Scheduler
sched_release_cpu s =
    let t = s.threads s.current in
    let tmp = t.preempt_count -ℤ pos 1 in
    let count = if ltb_ℤ tmp (pos 0) then pos 0 else tmp in
    (count, set_thread s s.current (record t { preempt_count = count }))

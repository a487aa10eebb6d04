-- ===== src/Timer.antt =====
-- phlox/kernel/timer.c: the queue of timer events, each with its distance in ticks from the one
-- before it, and the tick that processes it. The queue is the sequence of its events, the list
-- routines of XList seen from above; a number of ticks is not negative.
pub mod Deltas
pub mod Tick
mod Examples
use phlox.Common.{
  ℕ, ◌+◌, ◌-◌, Bool, true, false, not, ◌&&◌, ◌||◌, List, [], ◌∷◌, ◌++◌, ◌==◌, ltb, leb,
  if◌then◌else◌,
}

-- A sleeping thread, or a timeout call with its id.
pub record Event : Type 0 where
  pub delta : ℕ
  pub timeout : Bool
  pub id : ℕ
  pub thread : ℕ

-- The variables of the file, the threads that were given to `sched_add_thread`, the latest last, and
-- whether the state and the next state of the handler thread are SUSPENDED.
pub record Timer : Type 0 where
  pub timer_ticks : ℕ
  pub events_ticks_lost : ℕ
  pub events_queue : List Event
  pub ready_timeouts_queue : List Event
  pub woken : List ℕ
  pub timeout_calls_thread : ℕ
  pub handler_suspended : Bool
  pub handler_to_suspend : Bool

abbrev pub with_delta : Event → (delta : ℕ) → Event
with_delta e delta = record e { delta = delta }

pub add_new_event_nolock : List Event → (new_evt : Event) → (tick : ℕ) → List Event
add_new_event_nolock [] new_evt tick = with_delta new_evt tick ∷ []
add_new_event_nolock (evt ∷ evts) new_evt tick =
    let rest = add_new_event_nolock evts new_evt (tick - evt.delta) in
    if ltb tick evt.delta
    then with_delta new_evt tick ∷ with_delta evt (evt.delta - tick) ∷ evts
    else if tick == evt.delta
    then evt ∷ with_delta new_evt 0 ∷ evts
    else evt ∷ rest

-- The handler of timeout calls is woken up, once in a run.
pub wake_handler : Timer → (timeouts_thread : Bool) → Timer
wake_handler t timeouts_thread = if timeouts_thread then t else record t {
  woken = if t.handler_suspended then t.woken ++ t.timeout_calls_thread ∷ [] else t.woken;
  handler_suspended = false;
  handler_to_suspend = false;
}

-- An event whose time has come.
pub run_event : Timer → (evt : Event) → (timeouts_thread : Bool) → Timer
unfolding wake_handler
run_event t evt timeouts_thread =
    if evt.timeout
    then wake_handler (record t { ready_timeouts_queue = t.ready_timeouts_queue ++ evt ∷ [] })
        timeouts_thread
    else record t { woken = t.woken ++ evt.thread ∷ [] }

-- The loop of timer_schedule_event: the events that are due at the front of the queue, the others,
-- the first one with its new delta.
pub due_events : List Event → (ticks : ℕ) → List Event × List Event
due_events [] ticks = ([], [])
due_events (evt ∷ evts) ticks =
    let later = due_events evts (ticks - evt.delta) in
    if leb evt.delta ticks
    then (evt ∷ later.0, later.1)
    else ([], with_delta evt (evt.delta - ticks) ∷ evts)

abbrev pub some_due : List Event → Bool
some_due [] = false
some_due (evt ∷ evts) = true

-- The due events one after the other.
pub run_events : Timer → List Event → (timeouts_thread : Bool) → Timer
unfolding run_event
run_events t [] timeouts_thread = t
run_events t (evt ∷ evts) timeouts_thread =
    run_events (run_event t evt timeouts_thread) evts (timeouts_thread || evt.timeout)

-- The result is whether to reschedule. `got_lock` is the result of spin_trylock.
pub timer_schedule_event : (got_lock : Bool) → Timer → Bool × Timer
unfolding due_events run_events
timer_schedule_event got_lock t =
    let due = due_events t.events_queue (t.events_ticks_lost + 1) in
    let t1 = record t { events_ticks_lost = 0; events_queue = due.1 } in
    if not got_lock
    then (false, record t { events_ticks_lost = t.events_ticks_lost + 1 })
    else (some_due due.0, run_events t1 due.0 false)

-- Whether to reschedule; `scheduler_wants` is the result of scheduler_timer.
pub timer_tick : (got_lock scheduler_wants : Bool) → Timer → Bool × Timer
unfolding timer_schedule_event
timer_tick got_lock scheduler_wants t =
    let events = timer_schedule_event got_lock (record t { timer_ticks = t.timer_ticks + 1 }) in
    (events.0 || scheduler_wants, events.1)

pub timer_get_ticks : Timer → ℕ
timer_get_ticks t = t.timer_ticks

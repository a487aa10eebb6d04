-- ===== src/Timer/Examples.antt =====
-- The theorems of the timer at a concrete queue.
use phlox.Common.{◌≡◌, true, false, [], ◌∷◌}
use phlox.Timer.{Event, Timer, add_new_event_nolock, timer_schedule_event}
use phlox.Timer.Deltas.{due_at, times, insert, within, after, times-add_new_event_nolock}
use phlox.Timer.Tick.{ids, timeout_ids, some_event, timer_schedule_event-after}

-- A timeout call in 1 tick, and a thread that sleeps for 4.
abbrev first : Event
first = record { delta = 1; timeout = true; id = 5; thread = 0 }

abbrev second : Event
second = record { delta = 3; timeout = false; id = 0; thread = 20 }

abbrev two : Timer
two = record {
  timer_ticks = 100;
  events_ticks_lost = 1;
  events_queue = first ∷ second ∷ [];
  ready_timeouts_queue = [];
  woken = [];
  timeout_calls_thread = 9;
  handler_suspended = true;
  handler_to_suspend = false;
}

times-add_new_event_nolock_example :
    times 0 (add_new_event_nolock (first ∷ second ∷ []) first 2)
    ≡ insert (due_at 2 first) (times 0 (first ∷ second ∷ []))
times-add_new_event_nolock_example = times-add_new_event_nolock (first ∷ second ∷ []) first 2

timer_schedule_event-after_example :
    (times 0 (timer_schedule_event true two).1.events_queue
      ≡ after 2 (times 0 (first ∷ second ∷ [])))
    × ((timer_schedule_event true two).0 ≡ some_event (within 2 (times 0 (first ∷ second ∷ []))))
    × (ids (timer_schedule_event true two).1.ready_timeouts_queue
        ≡ timeout_ids (within 2 (times 0 (first ∷ second ∷ []))))
timer_schedule_event-after_example = timer_schedule_event-after two

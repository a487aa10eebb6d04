-- ===== src/Timer/Tick.antt =====
-- What a tick leaves of the queue, and what it runs.
use phlox.Common.{
  ℕ, ◌+◌, ◌-◌, ◌<◌, ◌≡◌, ◌∙◌, refl, sym, ap, inl, inr, Bool, true, false, ◌||◌, List, [], ◌∷◌, ◌++◌,
  leb, if◌then◌else◌, arith, Bool-cases,
}
use mathlib.Core.List.{append-nil, append_assoc}
use phlox.Timer.{
  Event, Timer, due_events, some_due, wake_handler, run_event, run_events, timer_schedule_event,
}
use phlox.Timer.Deltas.{Due, due_at, times, within, after}

-- Where all events are later, none is due, and all times are nearer.
within-late : (ticks from : ℕ) (es : List Event) → ticks < from → within ticks (times from es) ≡ []
unfolding within times
within-late ticks from [] lt = refl
within-late ticks from (e ∷ es) lt =
    let later : leb (from + e.delta) ticks ≡ false = ground (arith, lt) in
    rw later (within-late ticks (from + e.delta) es (omega (arith, lt)))

after-late :
    (ticks from : ℕ) (es : List Event)
    → ticks < from
    → after ticks (times from es) ≡ times (from - ticks) es
unfolding after times
after-late ticks from [] lt = refl
after-late ticks from (e ∷ es) lt =
    let later : leb (from + e.delta) ticks ≡ false = ground (arith, lt) in
    let at : from + e.delta - ticks ≡ from - ticks + e.delta = omega (arith, lt) in
    let rest = after-late ticks (from + e.delta) es (omega (arith, lt)) in
    rw later (rw at (ap (λ ds. due_at (from - ticks + e.delta) e ∷ ds) (rw at at rest)))

-- The loop takes the events that are due, and the first one of the others is nearer by what is left.
due_events-from :
    (from ticks : ℕ) (q : List Event)
    → (times from (due_events q ticks).0 ≡ within (from + ticks) (times from q))
      × (times 0 (due_events q ticks).1 ≡ after (from + ticks) (times from q))
unfolding due_events times within after
due_events-from from ticks [] = (refl, refl)
due_events-from from ticks (e ∷ es) = elim (Bool-cases (leb e.delta ticks)) [
  | inl le ↦
      let now : leb (from + e.delta) (from + ticks) ≡ true = ground (arith, le) in
      let at : from + e.delta + (ticks - e.delta) ≡ from + ticks = ground (arith, le) in
      let (a, b) = due_events-from (from + e.delta) (ticks - e.delta) es in
      rw (le, now) (ap (λ ds. due_at (from + e.delta) e ∷ ds) (rw at at a), rw at at b)
  | inr gt ↦
      let lt : from + ticks < from + e.delta = ground (arith, gt) in
      let later : leb (from + e.delta) (from + ticks) ≡ false = ground (arith, gt) in
      let at : from + e.delta - (from + ticks) ≡ 0 + (e.delta - ticks) = ground (arith, gt) in
      let none_due = within-late (from + ticks) (from + e.delta) es lt in
      let nearer = after-late (from + ticks) (from + e.delta) es lt in
      rw (gt, later)
        (
          sym none_due,
          sym (rw (at) (ap (λ ds. due_at (0 + (e.delta - ticks)) e ∷ ds) (rw at at nearer))),
        )
]

-- Running events does not touch the queue.
run_event-queue :
    (t : Timer) (e : Event) (b : Bool) → (run_event t e b).events_queue ≡ t.events_queue
unfolding run_event wake_handler
run_event-queue t e b = ground arith

run_events-queue :
    (t : Timer) (es : List Event) (b : Bool) → (run_events t es b).events_queue ≡ t.events_queue
unfolding run_events
run_events-queue t [] b = refl
run_events-queue t (e ∷ es) b =
    run_events-queue (run_event t e b) es (b || e.timeout) ∙ run_event-queue t e b

-- Whether there is an event.
abbrev pub some_event : List Due → Bool
some_event [] = false
some_event (d ∷ ds) = true

some_event-times : (from : ℕ) (es : List Event) → some_event (times from es) ≡ some_due es
unfolding times
some_event-times from [] = refl
some_event-times from (e ∷ es) = refl

-- The ids of the timeout calls among events.
abbrev pub timeout_ids : List Due → List ℕ
timeout_ids [] = []
timeout_ids (d ∷ ds) = if d.timeout then d.id ∷ timeout_ids ds else timeout_ids ds

abbrev pub ids : List Event → List ℕ
ids [] = []
ids (e ∷ es) = e.id ∷ ids es

ids-append : (xs ys : List Event) → ids (xs ++ ys) ≡ ids xs ++ ids ys
ids-append [] ys = refl
ids-append (x ∷ xs) ys = ap (λ zs. x.id ∷ zs) (ids-append xs ys)

run_event-timeout :
    (t : Timer) (e : Event) (b : Bool)
    → ids
        (wake_handler
          (record t { ready_timeouts_queue = t.ready_timeouts_queue ++ e ∷ [] })
          b).ready_timeouts_queue
      ≡ ids t.ready_timeouts_queue ++ e.id ∷ []
unfolding wake_handler
run_event-timeout t e true = ids-append t.ready_timeouts_queue (e ∷ [])
run_event-timeout t e false = ids-append t.ready_timeouts_queue (e ∷ [])

if_true {ℓ} : {A : Type ℓ} (c : Bool) (x y : A) → c ≡ true → (if c then x else y) ≡ x
if_true c x y h = rw h refl

if_false {ℓ} : {A : Type ℓ} (c : Bool) (x y : A) → c ≡ false → (if c then x else y) ≡ y
if_false c x y h = rw h refl

-- The timeout calls among the events that run get ready, in their order.
run_events-ready :
    (t : Timer) (from : ℕ) (es : List Event) (b : Bool)
    → ids (run_events t es b).ready_timeouts_queue
      ≡ ids t.ready_timeouts_queue ++ timeout_ids (times from es)
unfolding run_events run_event times
run_events-ready t from [] b = sym (append-nil (ids t.ready_timeouts_queue))
run_events-ready t from (e ∷ es) b =
    let rest = run_events-ready (run_event t e b) (from + e.delta) es (b || e.timeout) in
    let later = timeout_ids (times (from + e.delta) es) in
    let queued : Timer = record t { ready_timeouts_queue = t.ready_timeouts_queue ++ e ∷ [] } in
    let woken : Timer = record t { woken = t.woken ++ e.thread ∷ [] } in
    elim (Bool-cases e.timeout) [
      | inl h ↦
          let ran = if_true e.timeout (wake_handler queued b) woken h in
          rest
          ∙ ap (λ r. ids r.ready_timeouts_queue ++ later) ran
          ∙ ap (λ xs. xs ++ later) (run_event-timeout t e b)
          ∙ append_assoc (ids t.ready_timeouts_queue) (e.id ∷ []) later
          ∙ ap (λ xs. ids t.ready_timeouts_queue ++ xs)
              (sym (if_true e.timeout (e.id ∷ later) later h))
      | inr h ↦
          let ran = if_false e.timeout (wake_handler queued b) woken h in
          rest
          ∙ ap (λ r. ids r.ready_timeouts_queue ++ later) ran
          ∙ ap (λ xs. ids t.ready_timeouts_queue ++ xs)
              (sym (if_false e.timeout (e.id ∷ later) later h))
    ]

-- timer_schedule_event with the lock, after some lost ticks, leaves exactly the events that are
-- later than these ticks and one more, all that much nearer; it asks to reschedule exactly where
-- an event was due, and the timeout calls that were due get ready in their order.
pub timer_schedule_event-after :
    (t : Timer)
    → (times 0 (timer_schedule_event true t).1.events_queue
        ≡ after (t.events_ticks_lost + 1) (times 0 t.events_queue))
      × ((timer_schedule_event true t).0
          ≡ some_event (within (t.events_ticks_lost + 1) (times 0 t.events_queue)))
      × (ids (timer_schedule_event true t).1.ready_timeouts_queue
          ≡ ids t.ready_timeouts_queue
            ++ timeout_ids (within (t.events_ticks_lost + 1) (times 0 t.events_queue)))
unfolding timer_schedule_event
timer_schedule_event-after t =
    let ticks = t.events_ticks_lost + 1 in
    let (a, b) = due_events-from 0 ticks t.events_queue in
    let at : 0 + ticks ≡ ticks = omega arith in
    let due = due_events t.events_queue ticks in
    (
      ap (times 0) (run_events-queue _ due.0 false) ∙ rw at at b,
      sym (some_event-times 0 due.0) ∙ ap some_event (rw at at a),
      run_events-ready _ 0 due.0 false
          ∙ ap (λ ds. ids t.ready_timeouts_queue ++ timeout_ids ds) (rw at at a),
    )

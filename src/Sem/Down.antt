-- ===== src/Sem/Down.antt =====
-- phlox/kernel/sem.c: waiting for a semaphore. `sem_down_ex` is cut where the thread gives up the
-- processor: `acquire` is a round of its loop up to there, and `woken_up` what follows.
use phlox.Common.{
  ℕ, ◌-◌, Bool, true, false, not, ◌&&◌, none, some, [], ◌∷◌, ◌++◌, erase, ◌==◌, ltb, leb,
  if◌then◌else◌,
}
use phlox.Sem.{
  Sems, Semaphore, SemStatus, no_error, sem_general, sem_invalid_handle, sem_invalid_value,
  sem_deleted, sem_timeout, sem_try_failed, mt_invalid_handle, sem_idx, put_sem, get_sem_by_id,
}

-- What a part of sem_down_ex comes to: its result; a thread that waits, among the waiters or not; an
-- access to a slot without its semaphore, which the source does not expect.
pub data Outcome : Type 0 where
  done : SemStatus → Outcome
  waits : Outcome
  retries : Outcome
  lost : Outcome

-- The control block is filled in.
abbrev pub fill_wcb : Sems → (w thread count : ℕ) → Sems
fill_wcb s w thread count = record s {
  wcbs =
      λ i. if i == w then record { thread = thread; count = count; err = no_error } else s.wcbs i;
}

-- The tests of a round, at the semaphore itself. `runnable` is that the next state of the thread is
-- READY or RUNNING, `got_timeout` that timer_timeout_sched succeeded.
unfoldable pub acquire_from :
    Sems
    → (id w count : ℕ) → Semaphore
    → (flag_try flag_timeout runnable got_timeout : Bool) → Outcome × Sems
acquire_from s id w count sem flag_try flag_timeout runnable got_timeout =
    if leb count sem.count
    then (done no_error, put_sem s (sem_idx id) (some (record sem { count = sem.count - count })))
    else if flag_try
    then (done sem_try_failed, s)
    else if not runnable
    then (retries, s)
    else if flag_timeout && not got_timeout
    then (done sem_general, s)
    else (waits, put_sem s (sem_idx id) (some (record sem { waiters = sem.waiters ++ w ∷ [] })))

-- A round of the loop, with the control block `w`. The semaphore, to which the source has a pointer,
-- is given by its id.
unfoldable pub acquire :
    Sems
    → (id w thread count : ℕ) → (flag_try flag_timeout runnable got_timeout : Bool) → Outcome × Sems
acquire s id w thread count flag_try flag_timeout runnable got_timeout = elim (get_sem_by_id s id) [
  | none ↦ (lost, s)
  | some sem ↦
      acquire_from (fill_wcb s w thread count) id w count sem flag_try flag_timeout runnable
        got_timeout
]

-- The checks, and the first round.
unfoldable pub sem_down_ex :
    Sems
    → (id w thread count timeout_msec : ℕ) → (flag_try flag_timeout runnable got_timeout : Bool)
    → Outcome × Sems
sem_down_ex s id w thread count timeout_msec flag_try flag_timeout runnable got_timeout =
    elim (get_sem_by_id s id) [
      | none ↦ (done sem_invalid_handle, s)
      | some sem ↦
          if ltb sem.max_count count
          then (done sem_invalid_value, s)
          else if (timeout_msec == 0) && flag_timeout
          then (done sem_timeout, s)
          else if count == 0
          then (done no_error, s)
          else acquire s id w thread count flag_try flag_timeout runnable got_timeout
    ]

abbrev pub is_no_error : SemStatus → Bool
is_no_error no_error = true
is_no_error sem_general = false
is_no_error sem_invalid_handle = false
is_no_error sem_invalid_value = false
is_no_error sem_deleted = false
is_no_error sem_timeout = false
is_no_error sem_try_failed = false
is_no_error mt_invalid_handle = false

-- What follows when the thread has the processor again: the error of its control block, or a round.
unfoldable pub woken_up :
    Sems → (id w : ℕ) → (flag_try flag_timeout runnable got_timeout : Bool) → Outcome × Sems
woken_up s id w flag_try flag_timeout runnable got_timeout =
    let wcb = s.wcbs w in
    let round = acquire s id w wcb.thread wcb.count flag_try flag_timeout runnable got_timeout in
    if is_no_error wcb.err then round else (done wcb.err, s)

-- The control block, which is in the list of its semaphore, leaves it.
unfoldable pub drop_waiter : Sems → (id w : ℕ) → Sems
drop_waiter s id w = elim (get_sem_by_id s id) [
  | none ↦ s
  | some sem ↦ put_sem s (sem_idx id) (some (record sem { waiters = erase w sem.waiters }))
]

unfoldable pub sem_thread_callback : Sems → (id w : ℕ) → Sems
sem_thread_callback s id w = drop_waiter s id w

unfoldable pub sem_timeout_callback : Sems → (id w : ℕ) → Sems
sem_timeout_callback s id w =
    let wcb = s.wcbs w in
    let wcb' = if is_no_error wcb.err then record wcb { err = sem_timeout } else wcb in
    let dropped = drop_waiter s id w in
    record dropped {
      wcbs = λ i. if i == w then wcb' else s.wcbs i;
      woken = s.woken ++ wcb.thread ∷ [];
    }

unfoldable pub sem_down : Sems → (id w thread count : ℕ) → (runnable : Bool) → Outcome × Sems
sem_down s id w thread count runnable = sem_down_ex s id w thread count 0 false false runnable true

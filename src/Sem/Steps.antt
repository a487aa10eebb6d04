-- ===== src/Sem/Steps.antt =====
-- What may happen to the table of semaphores, in any order, from its start on.
use phlox.Common.{
  ℕ, ◌≡◌, refl, inl, inr, Bool, ◌&&◌, ◌==◌, ltb, Bool-cases, Option-cases, Option, some, ◌∈◌,
  Distinct-erase,
}
use phlox.Sem.{
  Sems, Semaphore, SemStatus, sem_idx, get_sem_by_id, semaphores_init, sem_create_ex, sem_delete,
  sem_up, sem_change_owner,
}
use phlox.Sem.Down.{
  sem_down_ex, is_no_error, woken_up, drop_waiter, sem_thread_callback, sem_timeout_callback,
}
use phlox.Sem.Valid.{IsSems, put_sem-IsSems, found-IsSemaphore, same_table}
use phlox.Sem.Keep.{
  Fresh, sem_create_ex-IsSems, sem_delete-IsSems, sem_up-IsSems, sem_change_owner-IsSems,
  acquire-IsSems,
}

pub sem_down_ex-IsSems :
    (s : Sems) (id w thread count timeout_msec : ℕ)
    (flag_try flag_timeout runnable got_timeout : Bool)
    → IsSems s
    → Fresh s id w
    → IsSems
        (sem_down_ex s id w thread count timeout_msec flag_try flag_timeout runnable got_timeout).1
unfolding sem_down_ex
sem_down_ex-IsSems s id w thread count timeout_msec flag_try flag_timeout runnable got_timeout is
      fresh =
    elim (Option-cases (get_sem_by_id s id)) [
      | inl out ↦ rw (out, sem_down_ex) is
      | inr (sem, found) ↦ elim (Bool-cases (ltb sem.max_count count)) [
        | inl a ↦ rw (found, sem_down_ex) (rw a is)
        | inr a ↦ elim (Bool-cases ((timeout_msec == 0) && flag_timeout)) [
          | inl b ↦ rw (found, sem_down_ex) (rw (a, b) is)
          | inr b ↦ elim (Bool-cases (count == 0)) [
            | inl c ↦ rw (found, sem_down_ex) (rw (a, b, c) is)
            | inr c ↦
                rw (found, sem_down_ex)
                  (rw (a, b, c)
                    (acquire-IsSems s id w thread count flag_try flag_timeout runnable got_timeout
                      is fresh))
          ]
        ]
      ]
    ]

pub woken_up-IsSems :
    (s : Sems) (id w : ℕ) (flag_try flag_timeout runnable got_timeout : Bool)
    → IsSems s
    → Fresh s id w
    → IsSems (woken_up s id w flag_try flag_timeout runnable got_timeout).1
unfolding woken_up
woken_up-IsSems s id w flag_try flag_timeout runnable got_timeout is fresh =
    elim (Bool-cases (is_no_error (s.wcbs w).err)) [
      | inl e ↦ rw e (
          acquire-IsSems s id w (s.wcbs w).thread (s.wcbs w).count flag_try flag_timeout runnable
            got_timeout is fresh)
      | inr e ↦ rw e is
    ]

drop_waiter-IsSems : (s : Sems) (id w : ℕ) → IsSems s → IsSems (drop_waiter s id w)
unfolding drop_waiter
drop_waiter-IsSems s id w is = elim (Option-cases (get_sem_by_id s id)) [
  | inl out ↦ rw (out, drop_waiter) is
  | inr (sem, found) ↦
      let it = found-IsSemaphore s id sem is found in
      rw (found, drop_waiter)
        (put_sem-IsSems s (sem_idx id) _ is (record {
          index = it.index;
          valid = it.valid;
          limit = it.limit;
          once = Distinct-erase w sem.waiters it.once;
        }))
]

-- The control block is among the waiters, as xlist_remove_unsafe needs it.
abbrev pub Waiting : Sems → (id w : ℕ) → Type 0
Waiting s id w = (sem : Semaphore) × (get_sem_by_id s id ≡ some sem) × (w ∈ sem.waiters)

-- A call of a routine by a thread, a thread that goes on, and the two callbacks.
pub data Step : Sems → Sems → Type 0 where
  create :
      (s : Sems) (name_length : Option ℕ) (got_struct : Bool) (owner : Option ℕ) (added : Bool)
      (max_count init_count : ℕ)
      → Step s (sem_create_ex s name_length got_struct owner added max_count init_count).1
  delete : (s : Sems) (id : ℕ) → Step s (sem_delete s id).1
  up :
      (s s' : Sems) (id count : ℕ) (status : SemStatus)
      → sem_up s id count ≡ some (status, s')
      → Step s s'
  down :
      (s : Sems) (id w thread count timeout_msec : ℕ)
      (flag_try flag_timeout runnable got_timeout : Bool)
      → Fresh s id w
      → Step s
          (sem_down_ex s id w thread count timeout_msec flag_try flag_timeout runnable
            got_timeout).1
  go_on :
      (s : Sems) (id w : ℕ) (flag_try flag_timeout runnable got_timeout : Bool)
      → Fresh s id w
      → Step s (woken_up s id w flag_try flag_timeout runnable got_timeout).1
  time_out : (s : Sems) (id w : ℕ) → Waiting s id w → Step s (sem_timeout_callback s id w)
  thread_dies : (s : Sems) (id w : ℕ) → Waiting s id w → Step s (sem_thread_callback s id w)
  change_owner :
      (s : Sems) (id : ℕ) (new_owner : Option ℕ) → Step s (sem_change_owner s id new_owner).1

pub data Steps : Sems → Sems → Type 0 where
  start : (s : Sems) → Steps s s
  step : (s s1 s2 : Sems) → Steps s s1 → Step s1 s2 → Steps s s2

Step-IsSems : (s s' : Sems) → Step s s' → IsSems s → IsSems s'
unfolding sem_timeout_callback sem_thread_callback
Step-IsSems _ _ (create s name_length got_struct owner added max_count init_count) is =
    sem_create_ex-IsSems s name_length got_struct owner added max_count init_count is
Step-IsSems _ _ (delete s id) is = sem_delete-IsSems s id is
Step-IsSems _ _ (up s s' id count status run) is = sem_up-IsSems s s' id count status run is
Step-IsSems _ _
      (down s id w thread count timeout_msec flag_try flag_timeout runnable got_timeout fresh) is =
    sem_down_ex-IsSems s id w thread count timeout_msec flag_try flag_timeout runnable got_timeout
      is fresh
Step-IsSems _ _ (go_on s id w flag_try flag_timeout runnable got_timeout fresh) is =
    woken_up-IsSems s id w flag_try flag_timeout runnable got_timeout is fresh
Step-IsSems _ _ (time_out s id w waiting_on) is =
    same_table (drop_waiter s id w) _ refl (drop_waiter-IsSems s id w is)
Step-IsSems _ _ (thread_dies s id w waiting_on) is = drop_waiter-IsSems s id w is
Step-IsSems _ _ (change_owner s id new_owner) is = sem_change_owner-IsSems s id new_owner is

Steps-keep : (s s' : Sems) → Steps s s' → IsSems s → IsSems s'
Steps-keep _ _ (start s) is = is
Steps-keep _ _ (step s s1 s' before last) is = Step-IsSems s1 s' last (Steps-keep s s1 before is)

initial : (s : Sems) → IsSems (semaphores_init s)
unfolding semaphores_init
initial s = record { semaphores = λ slot sem e. absurd (cc) }

-- After semaphores_init and any sequence of creations, deletions, increases, waits with control
-- blocks that are not waiting there, threads that go on after a wait, time-outs and deaths of
-- waiting threads, and changes of owner: each semaphore is in the slot of its id, which is not 0,
-- its count is at most its limit, and no control block waits twice.
pub Steps-IsSems : (s s' : Sems) → Steps (semaphores_init s) s' → IsSems s'
Steps-IsSems s s' run = Steps-keep (semaphores_init s) s' run (initial s)

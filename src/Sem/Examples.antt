-- ===== src/Sem/Examples.antt =====
-- The theorems of the semaphores at concrete tables, and runs.
use phlox.Common.{ℕ, ◌/◌, ◌≡◌, refl, true, false, ◌==◌, if◌then◌else◌, none, some, [], ◌∷◌}
use phlox.Sem.{
  Sems, Semaphore, no_error, get_next_gid, get_sem_by_id, semaphores_init, sem_create_ex,
  sem_delete, sem_up, wake_waiters, wake_loop, last_waiter, delete_waiters,
}
use phlox.Sem.Down.{lost, woken_up, acquire, acquire_from}
use phlox.Sem.Ids.{IsGid, get_next_gid-IsGid}
use phlox.Sem.Wake.{serve, served_by, sem_up-serve}
use phlox.Sem.Valid.{IsSems}
use phlox.Sem.Created.{Created, sem_create_ex-Created}
use phlox.Sem.Steps.{create, start, step, Steps-IsSems}

-- A semaphore in slot 1 with a count of 1 of at most 10. The control blocks 100, 200 and 300 wait
-- for 2, 9 and 1; they are of the threads 10, 20 and 30.
abbrev waited_for : Semaphore
waited_for = record {
  id = 8193;
  proc = 7;
  has_name = false;
  max_count = 10;
  count = 1;
  waiters = 100 ∷ 200 ∷ 300 ∷ [];
}

abbrev one : Sems
one = record {
  sem_table = λ slot. if slot == 1 then some waited_for else none;
  next_sem_gid = 2;
  wcbs = λ w. record {
    thread = w / 10;
    count = if w == 100 then 2 else if w == 200 then 9 else 1;
    err = no_error;
  };
  owned = λ p. 1 ∷ [];
  woken = [];
}

sem_up-serve_example :
    sem_up one 8193 2 ≡ some (no_error, served_by one 1 (record waited_for { count = 3 }))
unfolding get_sem_by_id
sem_up-serve_example = sem_up-serve one 8193 2 waited_for refl (refl, (refl, (refl, tt)))

-- The first one and the last one go on.
wakes_two : (served_by one 1 (record waited_for { count = 3 })).woken ≡ 10 ∷ 30 ∷ []
unfolding serve
wakes_two = refl

-- Beyond the last gid, for the slot 0.
get_next_gid-IsGid_example : (r : ℕ × ℕ) × (get_next_gid 3 true 600000 ≡ some r) × IsGid true r
get_next_gid-IsGid_example = get_next_gid-IsGid true 600000

sem_create_ex-Created_example : Created one 7 5 3 (sem_create_ex one none true (some 7) true 5 3)
sem_create_ex-Created_example = sem_create_ex-Created one none true 7 true 5 3

abbrev begun : Sems
begun = semaphores_init one

Steps-IsSems_example : IsSems (sem_create_ex begun none true (some 7) true 5 3).1
Steps-IsSems_example = Steps-IsSems one (sem_create_ex begun none true (some 7) true 5 3).1 (
    step begun begun (sem_create_ex begun none true (some 7) true 5 3).1 (start begun)
      (create begun none true (some 7) true 5 3))

-- The sum of the counts wraps around: an increase by 2 ^ 32 - 1 succeeds and takes one away.
counts_down :
    elim (sem_up one 8193 4294967295) [ none ↦ none | some (status, s) ↦ get_sem_by_id s 8193 ]
    ≡ some (record waited_for { count = 0 })
unfolding sem_up get_sem_by_id wake_waiters wake_loop last_waiter
counts_down = refl

-- Thread 10 is woken up by the increase; before it runs, the semaphore is deleted, and the thread,
-- which is not told so, goes on with the semaphore that was there.
uses_after_delete :
    elim (sem_up one 8193 2) [
      | none ↦ none
      | some (status, s) ↦ some (woken_up (sem_delete s 8193).1 8193 100 false false true true).0
    ]
    ≡ some lost
unfolding sem_up get_sem_by_id wake_waiters wake_loop last_waiter sem_delete delete_waiters woken_up
    acquire acquire_from
uses_after_delete = refl

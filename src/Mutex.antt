-- ===== src/Mutex.antt =====
-- phlox/kernel/util/mutex.c: mutexes and recursive mutexes, which are semaphores with one count and a
-- holder. A wait for the semaphore is where sem_down is cut: `waiting` is that the thread gives up the
-- processor, or tries again, in it, and the `_woken` functions are what follows. `none` is that a
-- loop of the semaphores runs out of fuel, which sem_up does not.
pub mod Count
pub mod World
pub mod Exclusion
pub mod Created
mod Examples
use phlox.Common.{
  ℕ, ◌+◌, ◌%◌, Bool, true, false, not, Option, none, some, ◌==◌, if◌then◌else◌, inc32, dec32,
}
use phlox.Sem.{Sems, SemStatus, sem_create, sem_delete, sem_up}
use phlox.Sem.Down.{
  Outcome, done, waits, retries, lost, sem_down, sem_down_ex, woken_up, is_no_error,
}

pub data MutexStatus : Type 0 where
  no_error : MutexStatus
  sem_failure : MutexStatus
  invalid_mutex : MutexStatus
  try_failed : MutexStatus
  not_an_owner : MutexStatus

pub record Mutex : Type 0 where
  pub holder : ℕ
  pub sem : ℕ

pub record Rmutex : Type 0 where
  pub holder : ℕ
  pub sem : ℕ
  pub recurs : ℕ

abbrev pub invalid_id : ℕ
invalid_id = 0

-- A call returns, or its thread waits in it.
pub data Call : Type 0 where
  returned : MutexStatus → Call
  waiting : Call

abbrev pub sem_of : Option ℕ → ℕ
sem_of none = invalid_id
sem_of (some id) = id

abbrev pub created : (sem : ℕ) → MutexStatus
created sem = if sem == invalid_id then sem_failure else no_error

abbrev pub deleted : SemStatus → MutexStatus
deleted status = if is_no_error status then no_error else sem_failure

pub mutex_init : Mutex
mutex_init = record { holder = invalid_id; sem = invalid_id }

-- The arguments from `name_length` to `added` are those of sem_create.
pub mutex_create :
    Sems
    → (name_length : Option ℕ) (got_struct : Bool) (current_process : ℕ) (added : Bool)
    → MutexStatus × Mutex × Sems
mutex_create s name_length got_struct current_process added =
    let made = sem_create s name_length got_struct current_process added 1 1 in
    (created (sem_of made.0), record { holder = invalid_id; sem = sem_of made.0 }, made.1)

pub mutex_destroy : Sems → Mutex → MutexStatus × Mutex × Sems
mutex_destroy s mtx =
    let gone = sem_delete s mtx.sem in
    (deleted gone.0, record { holder = invalid_id; sem = invalid_id }, gone.1)

-- The end of mutex_lock, from the result of sem_down on.
abbrev pub lock_end : Mutex → (thread : ℕ) → Outcome × Sems → Call × Mutex × Sems
lock_end mtx thread (done status, s) =
    if is_no_error status
    then (returned no_error, record mtx { holder = thread }, s)
    else (returned sem_failure, mtx, s)
lock_end mtx thread (waits, s) = (waiting, mtx, s)
lock_end mtx thread (retries, s) = (waiting, mtx, s)
lock_end mtx thread (lost, s) = (waiting, mtx, s)

-- With the control block `w` of the current thread.
pub mutex_lock : Sems → Mutex → (w thread : ℕ) (runnable : Bool) → Call × Mutex × Sems
mutex_lock s mtx w thread runnable =
    let locked = lock_end mtx thread (sem_down s mtx.sem w thread 1 runnable) in
    if mtx.sem == invalid_id then (returned invalid_mutex, mtx, s) else locked

pub mutex_lock_woken : Sems → Mutex → (w thread : ℕ) (runnable : Bool) → Call × Mutex × Sems
mutex_lock_woken s mtx w thread runnable =
    lock_end mtx thread (woken_up s mtx.sem w false false runnable true)

abbrev pub try_status : SemStatus → MutexStatus
try_status SemStatus.no_error = no_error
try_status SemStatus.sem_try_failed = try_failed
try_status status = sem_failure

-- The end of mutex_trylock; with the flag the thread does not wait.
abbrev pub trylock_end : Mutex → (thread : ℕ) → Outcome × Sems → Call × Mutex × Sems
trylock_end mtx thread (done status, s) =
    if is_no_error status
    then (returned no_error, record mtx { holder = thread }, s)
    else (returned (try_status status), mtx, s)
trylock_end mtx thread (waits, s) = (waiting, mtx, s)
trylock_end mtx thread (retries, s) = (waiting, mtx, s)
trylock_end mtx thread (lost, s) = (waiting, mtx, s)

pub mutex_trylock : Sems → Mutex → (w thread : ℕ) (runnable : Bool) → Call × Mutex × Sems
mutex_trylock s mtx w thread runnable =
    let tried =
      trylock_end mtx thread (sem_down_ex s mtx.sem w thread 1 0 true false runnable true) in
    if mtx.sem == invalid_id then (returned invalid_mutex, mtx, s) else tried

-- sem_up's own status is not looked at.
abbrev pub after_up : {M : Type 0} → M → Option (SemStatus × Sems) → Option (MutexStatus × M × Sems)
after_up mtx none = none
after_up mtx (some (status, s)) = some (no_error, mtx, s)

abbrev pub release_sem : {M : Type 0} → Sems → (sem : ℕ) → M → Option (MutexStatus × M × Sems)
release_sem s sem mtx = after_up mtx (sem_up s sem 1)

pub mutex_unlock : Sems → Mutex → (thread : ℕ) → Option (MutexStatus × Mutex × Sems)
mutex_unlock s mtx thread =
    if mtx.sem == invalid_id
    then some (invalid_mutex, mtx, s)
    else if not (mtx.holder == thread)
    then some (not_an_owner, mtx, s)
    else release_sem s mtx.sem (record mtx { holder = invalid_id })

pub rmutex_init : Rmutex
rmutex_init = record { holder = invalid_id; sem = invalid_id; recurs = 0 }

pub rmutex_create :
    Sems
    → (name_length : Option ℕ) (got_struct : Bool) (current_process : ℕ) (added : Bool)
    → MutexStatus × Rmutex × Sems
rmutex_create s name_length got_struct current_process added =
    let made = sem_create s name_length got_struct current_process added 1 1 in
    (
      created (sem_of made.0),
      record { holder = invalid_id; sem = sem_of made.0; recurs = 0 },
      made.1,
    )

pub rmutex_destroy : Sems → Rmutex → MutexStatus × Rmutex × Sems
rmutex_destroy s mtx =
    let gone = sem_delete s mtx.sem in
    (deleted gone.0, record { holder = invalid_id; sem = invalid_id; recurs = 0 }, gone.1)

-- One level more for the thread, or the first one.
abbrev pub deeper : Rmutex → Rmutex
deeper mtx = record mtx { recurs = inc32 mtx.recurs }

abbrev pub first_level : Rmutex → (thread : ℕ) → Rmutex
first_level mtx thread = deeper (record mtx { holder = thread; recurs = 0 })

-- The end of rmutex_lock, from the result of its sem_down on.
abbrev pub rlock_end : Rmutex → (thread : ℕ) → Outcome × Sems → Call × Rmutex × Sems
rlock_end mtx thread (done status, s) =
    if is_no_error status
    then (returned no_error, first_level mtx thread, s)
    else (returned sem_failure, mtx, s)
rlock_end mtx thread (waits, s) = (waiting, mtx, s)
rlock_end mtx thread (retries, s) = (waiting, mtx, s)
rlock_end mtx thread (lost, s) = (waiting, mtx, s)

-- What follows the first attempt, where the semaphore was not free.
abbrev pub rlock_again : Sems → Rmutex → (w thread : ℕ) (runnable : Bool) → Call × Rmutex × Sems
rlock_again s mtx w thread runnable =
    if mtx.holder == thread
    then (returned no_error, deeper mtx, s)
    else rlock_end mtx thread (sem_down s mtx.sem w thread 1 runnable)

abbrev pub rlock_tried :
    Rmutex → (w thread : ℕ) (runnable : Bool) → Outcome × Sems → Call × Rmutex × Sems
rlock_tried mtx w thread runnable (done SemStatus.no_error, s) =
    (returned no_error, first_level mtx thread, s)
rlock_tried mtx w thread runnable (done SemStatus.sem_try_failed, s) =
    rlock_again s mtx w thread runnable
rlock_tried mtx w thread runnable (done status, s) = (returned sem_failure, mtx, s)
rlock_tried mtx w thread runnable (outcome, s) = (waiting, mtx, s)

pub rmutex_lock : Sems → Rmutex → (w thread : ℕ) (runnable : Bool) → Call × Rmutex × Sems
rmutex_lock s mtx w thread runnable =
    rlock_tried mtx w thread runnable (sem_down_ex s mtx.sem w thread 1 0 true false runnable true)

pub rmutex_lock_woken : Sems → Rmutex → (w thread : ℕ) (runnable : Bool) → Call × Rmutex × Sems
rmutex_lock_woken s mtx w thread runnable =
    rlock_end mtx thread (woken_up s mtx.sem w false false runnable true)

abbrev pub rtrylock_tried : Rmutex → (thread : ℕ) → Outcome × Sems → Call × Rmutex × Sems
rtrylock_tried mtx thread (done SemStatus.no_error, s) =
    (returned no_error, first_level mtx thread, s)
rtrylock_tried mtx thread (done SemStatus.sem_try_failed, s) =
    if mtx.holder == thread
    then (returned no_error, deeper mtx, s)
    else (returned try_failed, mtx, s)
rtrylock_tried mtx thread (done status, s) = (returned sem_failure, mtx, s)
rtrylock_tried mtx thread (outcome, s) = (waiting, mtx, s)

pub rmutex_trylock : Sems → Rmutex → (w thread : ℕ) (runnable : Bool) → Call × Rmutex × Sems
rmutex_trylock s mtx w thread runnable =
    rtrylock_tried mtx thread (sem_down_ex s mtx.sem w thread 1 0 true false runnable true)

pub rmutex_unlock : Sems → Rmutex → (thread : ℕ) → Option (MutexStatus × Rmutex × Sems)
rmutex_unlock s mtx thread =
    let left = record mtx { recurs = dec32 mtx.recurs } in
    if mtx.sem == invalid_id
    then some (invalid_mutex, mtx, s)
    else if not (mtx.holder == thread)
    then some (not_an_owner, mtx, s)
    else if dec32 mtx.recurs == 0
    then release_sem s mtx.sem (record left { holder = invalid_id })
    else some (no_error, left, s)

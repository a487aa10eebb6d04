-- ===== src/Mutex/Examples.antt =====
-- The theorems of the mutexes at concrete ones.
use phlox.Common.{
  ◌≡◌, refl, inl, inr, true, false, none, some, [], ◌∷◌, ◌∉◌, ◌==◌, if◌then◌else◌, arith,
  Bool-cases, ==_iff,
}
use mathlib.Core.Path.{subst, sym}
use mathlib.Core.Option.{some_inj}
use phlox.Sem.{
  Sems, Semaphore, SemStatus, get_sem_by_id, sem_create, sem_create_ex, alloc_sem_slot, find_slot,
  enter_sem, get_next_gid,
}
use phlox.Sem.Valid.{IsSems, IsSemaphore}
use phlox.Mutex.{mutex_create, mutex_trylock, mutex_unlock, rmutex_lock, rmutex_trylock}
use phlox.Mutex.World.{World, IsWorld, Steps, start, step, trylock, after_call}
use phlox.Mutex.Created.{
  Exclusive, fresh_mutex, Steps-Exclusive, Unlocked, mutex_unlock-Unlocked, Nested,
  rmutex_lock-Nested,
}

-- The semaphore of a mutex that is held.
abbrev held : Semaphore
held = record { id = 8193; proc = 7; has_name = false; max_count = 1; count = 0; waiters = [] }

abbrev sems : Sems
sems = record {
  sem_table = λ slot. if slot == 1 then some held else none;
  next_sem_gid = 2;
  wcbs = λ w. record { thread = w; count = 1; err = SemStatus.no_error };
  owned = λ p. 1 ∷ [];
  woken = [];
}

held-IsSemaphore : IsSemaphore 1 held
held-IsSemaphore = record { index = refl; valid = refl; limit = omega arith; once = tt }

sems-IsSems : IsSems sems
sems-IsSems = record {
  semaphores = λ slot sem e. elim (Bool-cases (slot == 1)) [
    | inl t ↦
        let same : held ≡ sem = some_inj.0 (rw t at e) in
        subst (λ v. IsSemaphore v sem) (sym ((==_iff slot 1).0 t))
          (subst (IsSemaphore 1) same held-IsSemaphore)
    | inr f ↦ let missing : none ≡ some sem = rw f at e in ground (arith, missing)
  ];
}

abbrev by_five : World
by_five = record { mutex = record { holder = 5; sem = 8193 }; sems = sems; inside = 5 ∷ [] }

by_five-IsWorld : IsWorld by_five
unfolding get_sem_by_id
by_five-IsWorld = record {
  count = 0;
  sems = sems-IsSems;
  sem = (held, refl, refl, refl);
  holds = (refl, omega arith, refl);
}

mutex_unlock-Unlocked_example :
    Unlocked by_five 5 true (mutex_unlock sems (record { holder = 5; sem = 8193 }) 5)
mutex_unlock-Unlocked_example =
    mutex_unlock-Unlocked by_five 5 by_five-IsWorld (omega arith) (omega arith)

rmutex_lock-Nested_example :
    Nested
      (record { holder = 5; sem = 8193; recurs = 1 })
      5
      (rmutex_lock sems (record { holder = 5; sem = 8193; recurs = 1 }) 100 5 true)
    × Nested
        (record { holder = 5; sem = 8193; recurs = 1 })
        5
        (rmutex_trylock sems (record { holder = 5; sem = 8193; recurs = 1 }) 100 5 true)
unfolding get_sem_by_id
rmutex_lock-Nested_example =
    rmutex_lock-Nested sems (record { holder = 5; sem = 8193; recurs = 1 }) 100 5 true
      (held, refl, refl, refl) (omega arith) refl (omega arith) (omega arith)

-- A new mutex, which thread 5 tries to take.
abbrev no_sems : Sems
no_sems = record sems { sem_table = λ slot. none }

no_sems-IsSems : IsSems no_sems
no_sems-IsSems = record { semaphores = λ slot sem e. ground (arith, e) }

abbrev mutex_world : World
mutex_world = fresh_mutex (mutex_create no_sems none true 7 false)

abbrev taken_world : World
taken_world = after_call mutex_world 5 (mutex_trylock mutex_world.sems mutex_world.mutex 100 5 true)

run : Steps mutex_world taken_world
unfolding mutex_create sem_create sem_create_ex alloc_sem_slot find_slot enter_sem get_next_gid
    get_sem_by_id
run = step mutex_world mutex_world taken_world (start mutex_world) (
    trylock mutex_world 100 5 true (omega arith)
      (λ sem e. subst (λ v. 100 ∉ v.waiters) (some_inj.0 e) refl))

Steps-Exclusive_example : Exclusive taken_world
unfolding mutex_create sem_create sem_create_ex alloc_sem_slot find_slot enter_sem get_next_gid
Steps-Exclusive_example =
    Steps-Exclusive no_sems none true 7 false taken_world no_sems-IsSems refl run

-- ===== src/Mutex/World.antt =====
-- A mutex, the semaphores and the threads that hold it, and what may happen to them.
use phlox.Common.{ℕ, ◌≡◌, ◌≢◌, Bool, true, false, some, List, [], ◌∷◌, ◌==◌, if◌then◌else◌}
use phlox.Sem.{Sems}
use phlox.Sem.Valid.{IsSems}
use phlox.Sem.Keep.{Fresh}
use phlox.Mutex.{
  MutexStatus, no_error, Mutex, Call, returned, mutex_lock, mutex_lock_woken, mutex_trylock,
  mutex_unlock,
}
use phlox.Mutex.Count.{SemHas}

-- The mutex, the semaphores, and the threads inside.
pub record World : Type 0 where
  pub mutex : Mutex
  pub sems : Sems
  pub inside : List ℕ

-- The free mutex has no holder, and the held one the thread inside, the only one.
abbrev pub Holds : (holder : ℕ) → (inside : List ℕ) → (count : ℕ) → Type 0
Holds holder [] count = (holder ≡ 0) × (count ≡ 1)
Holds holder (t ∷ []) count = (holder ≡ t) × (t ≢ 0) × (count ≡ 0)
Holds holder (t ∷ u ∷ more) count = ⊥

pub record IsWorld (m : World) : Type 0 where
  pub count : ℕ
  pub sems : IsSems m.sems
  pub sem : SemHas m.sems m.mutex.sem count
  pub holds : Holds m.mutex.holder m.inside count

abbrev pub is_success : Call → Bool
is_success (returned no_error) = true
is_success call = false

-- A thread is inside once its call succeeds, and outside once its release does.
abbrev pub after_call : World → (thread : ℕ) → Call × Mutex × Sems → World
after_call m thread (call, mutex, sems) = record {
  mutex = mutex;
  sems = sems;
  inside = if is_success call then thread ∷ m.inside else m.inside;
}

abbrev pub without_thread : (thread : ℕ) → List ℕ → List ℕ
without_thread thread [] = []
without_thread thread (t ∷ more) = if t == thread then more else t ∷ without_thread thread more

abbrev pub left : World → (thread : ℕ) → MutexStatus × Mutex × Sems → World
left m thread (no_error, mutex, sems) = record {
  mutex = mutex;
  sems = sems;
  inside = without_thread thread m.inside;
}
left m thread (status, mutex, sems) = record { mutex = mutex; sems = sems; inside = m.inside }

pub data Step : World → World → Type 0 where
  lock :
      (m : World) (w thread : ℕ) (runnable : Bool)
      → thread ≢ 0
      → Fresh m.sems m.mutex.sem w
      → Step m (after_call m thread (mutex_lock m.sems m.mutex w thread runnable))
  go_on :
      (m : World) (w thread : ℕ) (runnable : Bool)
      → thread ≢ 0
      → Fresh m.sems m.mutex.sem w
      → (m.sems.wcbs w).count ≡ 1
      → Step m (after_call m thread (mutex_lock_woken m.sems m.mutex w thread runnable))
  trylock :
      (m : World) (w thread : ℕ) (runnable : Bool)
      → thread ≢ 0
      → Fresh m.sems m.mutex.sem w
      → Step m (after_call m thread (mutex_trylock m.sems m.mutex w thread runnable))
  unlock :
      (m : World) (thread : ℕ) (result : MutexStatus × Mutex × Sems)
      → thread ≢ 0
      → mutex_unlock m.sems m.mutex thread ≡ some result
      → Step m (left m thread result)

pub data Steps : World → World → Type 0 where
  start : (m : World) → Steps m m
  step : (m m1 m2 : World) → Steps m m1 → Step m1 m2 → Steps m m2

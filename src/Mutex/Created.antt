-- ===== src/Mutex/Created.antt =====
-- A mutex from its creation on, and its release.
use phlox.Common.{
  ℕ, ◌+◌, ◌<◌, ◌≡◌, ◌≢◌, ◌⊎◌, refl, sym, ap, ◌∙◌, inl, inr, Bool, true, false, Option, none, some,
  List, [], ◌∷◌, ◌==◌, arith, inc32, dec32, u32_mod, Bool-cases, ==_iff,
}
use mathlib.Core.Path.{subst}
use phlox.Sem.{Sems, sem_create}
use phlox.Sem.Valid.{IsSems}
use phlox.Sem.Keep.{sem_create_ex-IsSems}
use phlox.Sem.Created.{Created, sem_create_ex-Created}
use phlox.Mutex.{
  MutexStatus, no_error, not_an_owner, Mutex, mutex_create, mutex_unlock, sem_of, created, after_up,
  rlock_tried, rtrylock_tried, Rmutex, rmutex_trylock, rmutex_lock, rmutex_unlock, deeper, Call,
  returned,
}
use phlox.Sem.Down.{fill_wcb}
use phlox.Mutex.Count.{SemHas, sem_down_ex-try}
use phlox.Mutex.World.{World, IsWorld, Holds, Steps, left}
use phlox.Mutex.Exclusion.{Steps-IsWorld, release_sem-IsWorld}

-- Nobody is inside and the mutex has no holder, or its holder is inside, and nobody else.
abbrev pub Exclusive : World → Type 0
Exclusive m = ((m.inside ≡ []) × (m.mutex.holder ≡ 0)) ⊎ (m.inside ≡ m.mutex.holder ∷ [])

Holds-Exclusive :
    (holder count : ℕ) (inside : List ℕ)
    → Holds holder inside count
    → ((inside ≡ []) × (holder ≡ 0)) ⊎ (inside ≡ holder ∷ [])
Holds-Exclusive holder count [] (e, c) = inl (refl, e)
Holds-Exclusive holder count (t ∷ []) (e, nz, c) = inr (ap (λ v. v ∷ []) (sym e))
Holds-Exclusive holder count (t ∷ u ∷ more) h = elim h [ ]

-- The new mutex, where its semaphore was made, and nobody in it.
abbrev pub fresh_mutex : MutexStatus × Mutex × Sems → World
fresh_mutex (status, mutex, sems) = record { mutex = mutex; sems = sems; inside = [] }

fresh_mutex-IsWorld :
    (proc : ℕ) (s : Sems) (made : Option ℕ × Sems)
    → Created s proc 1 1 made
    → IsSems made.1
    → created (sem_of made.0) ≡ no_error
    → IsWorld
        (record { mutex = record { holder = 0; sem = sem_of made.0 }; sems = made.1; inside = [] })
fresh_mutex-IsWorld proc s (none, s') h is e = ground (arith, e)
fresh_mutex-IsWorld proc s (some id, s') (nz, free, (sem, found, a, b, c, d)) is e = record {
  count = 1;
  sems = is;
  sem = (sem, found, b, c);
  holds = (refl, refl);
}

-- After mutex_create returns NO_ERROR in a table of semaphores where each has its slot, and any
-- sequence of mutex_lock, its continuation after a wait for a count of 1, mutex_trylock and
-- mutex_unlock by threads whose ids are not 0, with control blocks that do not wait there, either
-- no thread is inside and the mutex has no holder, or its holder is the one thread inside.
pub Steps-Exclusive :
    (s : Sems) (name_length : Option ℕ) (got_struct : Bool) (proc : ℕ) (added : Bool) (m : World)
    → IsSems s
    → (mutex_create s name_length got_struct proc added).0 ≡ no_error
    → Steps (fresh_mutex (mutex_create s name_length got_struct proc added)) m
    → Exclusive m
unfolding mutex_create sem_create
Steps-Exclusive s name_length got_struct proc added m is e run =
    let made =
      fresh_mutex-IsWorld proc s (sem_create s name_length got_struct proc added 1 1)
        (sem_create_ex-Created s name_length got_struct proc added 1 1)
        (sem_create_ex-IsSems s name_length got_struct (some proc) added 1 1 is) e in
    let end = Steps-IsWorld _ m run made in
    Holds-Exclusive m.mutex.holder end.count m.inside end.holds

-- What mutex_unlock does for a thread: it lets go where the thread is the holder.
abbrev pub Unlocked :
    World → (thread : ℕ) → (owns : Bool) → Option (MutexStatus × Mutex × Sems) → Type 0
Unlocked m thread owns none = ⊥
Unlocked m thread true (some (status, mutex, s)) =
    (status ≡ no_error) × (mutex.holder ≡ 0) × IsWorld (left m thread (no_error, mutex, s))
Unlocked m thread false (some (status, mutex, s)) =
    (status ≡ not_an_owner) × (mutex ≡ m.mutex) × (s ≡ m.sems)

-- For a mutex whose semaphore has an id that is not 0 and a count of 1, without a holder or a
-- thread inside, or of 0 with its holder the one thread inside, in a table of semaphores where
-- each has its slot, mutex_unlock by a thread whose id is not 0 terminates: by the holder it
-- returns NO_ERROR and leaves a mutex without holder and without a thread inside, its semaphore
-- counting 1; by another it returns ERR_MTX_NOT_AN_OWNER and changes nothing.
pub mutex_unlock-Unlocked :
    (m : World) (thread : ℕ)
    → IsWorld m
    → thread ≢ 0
    → m.mutex.sem ≢ 0
    → Unlocked m thread (m.mutex.holder == thread) (mutex_unlock m.sems m.mutex thread)
unfolding mutex_unlock
mutex_unlock-Unlocked m thread is nz valid =
    let has_sem : (m.mutex.sem == 0) ≡ false = ground (arith, valid) in
    elim (Bool-cases (m.mutex.holder == thread)) [
      | inr g ↦ rw (mutex_unlock, has_sem, g) (refl, refl, refl)
      | inl own ↦
          let (s', up, is') =
            release_sem-IsWorld m is thread m.inside is.holds refl nz
              ((==_iff m.mutex.holder thread).0 own) in
          let done_by : mutex_unlock m.sems m.mutex thread
              ≡ some (no_error, record m.mutex { holder = 0 }, s') =
            rw (mutex_unlock, has_sem, own) (ap (after_up (record m.mutex { holder = 0 })) up) in
          subst (λ v. Unlocked m thread v (mutex_unlock m.sems m.mutex thread)) (sym own)
            (subst (Unlocked m thread true) (sym done_by) (refl, refl, is'))
    ]

-- A recursive mutex that its holder takes once more: the attempt to take the semaphore fails, since
-- its count is 0.
abbrev pub Nested : Rmutex → (thread : ℕ) → Call × Rmutex × Sems → Type 0
Nested mtx thread (call, mtx', s) =
    (call ≡ returned no_error)
    × (mtx' ≡ deeper mtx)
    × (rmutex_unlock s mtx' thread ≡ some (no_error, mtx, s))

nested :
    (mtx : Rmutex) (thread : ℕ) (s : Sems)
    → mtx.sem ≢ 0
    → mtx.holder ≡ thread
    → 0 < mtx.recurs
    → mtx.recurs + 1 < u32_mod
    → rmutex_unlock s (deeper mtx) thread ≡ some (no_error, mtx, s)
unfolding rmutex_unlock
nested mtx thread s valid own nz lt =
    let has_sem : (mtx.sem == 0) ≡ false = ground (arith, valid) in
    let owns : (mtx.holder == thread) ≡ true = (==_iff mtx.holder thread).1 own in
    let back : dec32 (inc32 mtx.recurs) ≡ mtx.recurs = omega (arith, lt) in
    let left_some : (dec32 (inc32 mtx.recurs) == 0) ≡ false = ground (arith, lt, nz) in
    rw (rmutex_unlock, has_sem, owns, left_some)
      (ap (λ v. some (no_error, record mtx { recurs = v }, s)) back)

-- For a recursive mutex whose semaphore has an id that is not 0 and a count of 0 of at most 1, and
-- whose holder is the thread, at a depth above 0 that stays below 2 ^ 32, rmutex_lock and
-- rmutex_trylock return NO_ERROR at once and make the depth one more, and rmutex_unlock after it
-- gives the mutex back as it was, with no change of the semaphores.
pub rmutex_lock-Nested :
    (s : Sems) (mtx : Rmutex) (w thread : ℕ) (runnable : Bool)
    → SemHas s mtx.sem 0
    → mtx.sem ≢ 0
    → mtx.holder ≡ thread
    → 0 < mtx.recurs
    → mtx.recurs + 1 < u32_mod
    → Nested mtx thread (rmutex_lock s mtx w thread runnable)
      × Nested mtx thread (rmutex_trylock s mtx w thread runnable)
unfolding rmutex_lock rmutex_trylock
rmutex_lock-Nested s mtx w thread runnable has valid own nz lt =
    let owns : (mtx.holder == thread) ≡ true = (==_iff mtx.holder thread).1 own in
    let failed = sem_down_ex-try s mtx.sem w thread runnable has in
    let back = nested mtx thread (fill_wcb s w thread 1) valid own nz lt in
    let locked : rmutex_lock s mtx w thread runnable
        ≡ (returned no_error, deeper mtx, fill_wcb s w thread 1) =
      ap (rlock_tried mtx w thread runnable) failed ∙ rw owns refl in
    let tried : rmutex_trylock s mtx w thread runnable
        ≡ (returned no_error, deeper mtx, fill_wcb s w thread 1) =
      ap (rtrylock_tried mtx thread) failed ∙ rw owns refl in
    (
      subst (Nested mtx thread) (sym locked) (refl, refl, back),
      subst (Nested mtx thread) (sym tried) (refl, refl, back),
    )

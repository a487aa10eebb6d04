-- ===== src/Mutex/Exclusion.antt =====
-- The threads that are between an acquisition and a release of a mutex.
use phlox.Common.{
  ℕ, ◌≤◌, ◌≡◌, ◌≢◌, refl, sym, ap, ◌∙◌, inl, inr, true, false, some, List, [], ◌∷◌, ◌==◌, arith,
  Bool-cases, ==_iff,
}
use mathlib.Core.Path.{subst}
use mathlib.Core.Option.{some_inj}
use phlox.Sem.{Sems, SemStatus, sem_up}
use phlox.Sem.Down.{Outcome, done, waits, retries, lost, sem_down, is_no_error}
use phlox.Sem.Valid.{IsSems}
use phlox.Sem.Keep.{sem_up-IsSems}
use phlox.Sem.Steps.{sem_down_ex-IsSems, woken_up-IsSems}
use phlox.Mutex.{
  MutexStatus, no_error, Mutex, returned, lock_end, trylock_end, try_status, mutex_lock,
  mutex_lock_woken, mutex_trylock, mutex_unlock, after_up, release_sem,
}
use phlox.Mutex.Count.{
  SemHas, Ended, Acquired, sem_down_ex-Acquired, woken_up-Acquired, sem_up-SemHas,
}
use phlox.Mutex.World.{
  World, IsWorld, Holds, is_success, after_call, without_thread, left, Step, lock, go_on, trylock,
  unlock, Steps, start, step,
}

Holds-le : (holder count : ℕ) (inside : List ℕ) → Holds holder inside count → count ≤ 1
Holds-le holder count [] (e, c) = omega (arith, c)
Holds-le holder count (t ∷ []) (e, nz, c) = omega (arith, c)
Holds-le holder count (t ∷ u ∷ more) h = elim h [ ]

Holds-enter :
    (holder thread count : ℕ) (inside : List ℕ)
    → thread ≢ 0
    → count ≡ 1
    → Holds holder inside count
    → Holds thread (thread ∷ inside) 0
Holds-enter holder thread count [] nz one h = (refl, nz, refl)
Holds-enter holder thread count (t ∷ []) nz one (e, tz, c) = omega (arith, one, c)
Holds-enter holder thread count (t ∷ u ∷ more) nz one h = elim h [ ]

lock_end-IsWorld :
    (m : World) (is : IsWorld m) (thread : ℕ) (outcome : Outcome) (s : Sems)
    → thread ≢ 0
    → IsSems s
    → Acquired m.mutex.sem is.count false (outcome, s)
    → IsWorld (after_call m thread (lock_end m.mutex thread (outcome, s)))
lock_end-IsWorld m is thread (done status) s nz ok h = elim (Bool-cases (is_no_error status)) [
  | inl t ↦
      let taken : Ended m.mutex.sem is.count true s = rw t at h in
      rw t (record {
        count = 0;
        sems = ok;
        sem = taken.1;
        holds = Holds-enter m.mutex.holder thread is.count m.inside nz taken.0 is.holds;
      })
  | inr f ↦
      let same : Ended m.mutex.sem is.count false s = rw f at h in
      rw f (record { count = is.count; sems = ok; sem = same; holds = is.holds })
]
lock_end-IsWorld m is thread waits s nz ok (e, has) = record {
  count = is.count;
  sems = ok;
  sem = has;
  holds = is.holds;
}
lock_end-IsWorld m is thread retries s nz ok (e, has) = record {
  count = is.count;
  sems = ok;
  sem = has;
  holds = is.holds;
}
lock_end-IsWorld m is thread lost s nz ok h = elim h [ ]

-- An error of mutex_trylock is no success.
try_status-fails :
    (status : SemStatus)
    → is_no_error status ≡ false
    → is_success (returned (try_status status)) ≡ false
try_status-fails SemStatus.no_error e = ground (arith, e)
try_status-fails SemStatus.sem_try_failed e = refl
try_status-fails SemStatus.sem_general e = refl
try_status-fails SemStatus.sem_invalid_handle e = refl
try_status-fails SemStatus.sem_invalid_value e = refl
try_status-fails SemStatus.sem_deleted e = refl
try_status-fails SemStatus.sem_timeout e = refl
try_status-fails SemStatus.mt_invalid_handle e = refl

trylock_end-IsWorld :
    (m : World) (is : IsWorld m) (thread : ℕ) (outcome : Outcome) (s : Sems)
    → thread ≢ 0
    → IsSems s
    → Acquired m.mutex.sem is.count true (outcome, s)
    → IsWorld (after_call m thread (trylock_end m.mutex thread (outcome, s)))
trylock_end-IsWorld m is thread (done status) s nz ok h = elim (Bool-cases (is_no_error status)) [
  | inl t ↦
      let taken : Ended m.mutex.sem is.count true s = rw t at h in
      rw t (record {
        count = 0;
        sems = ok;
        sem = taken.1;
        holds = Holds-enter m.mutex.holder thread is.count m.inside nz taken.0 is.holds;
      })
  | inr f ↦
      let same : Ended m.mutex.sem is.count false s = rw f at h in
      let fails = try_status-fails status f in
      rw f (rw fails (record { count = is.count; sems = ok; sem = same; holds = is.holds }))
]
trylock_end-IsWorld m is thread waits s nz ok (e, has) = ground (arith, e)
trylock_end-IsWorld m is thread retries s nz ok (e, has) = ground (arith, e)
trylock_end-IsWorld m is thread lost s nz ok h = elim h [ ]

-- The release by the thread inside.
pub release_sem-IsWorld :
    (m : World) (is : IsWorld m) (thread : ℕ) (inside : List ℕ)
    → Holds m.mutex.holder inside is.count
    → m.inside ≡ inside
    → thread ≢ 0
    → m.mutex.holder ≡ thread
    → (s' : Sems) × (sem_up m.sems m.mutex.sem 1 ≡ some (SemStatus.no_error, s'))
      × IsWorld (left m thread (no_error, record m.mutex { holder = 0 }, s'))
release_sem-IsWorld m is thread [] (free, c) e nz own = ground (arith, free, own, nz)
release_sem-IsWorld m is thread (t ∷ []) (held, tz, c) e nz own =
    let (s', up, has) =
      sem_up-SemHas m.sems m.mutex.sem is.sems (subst (SemHas m.sems m.mutex.sem) c is.sem) in
    let same : (t == thread) ≡ true = ground (arith, held, own) in
    let empty : without_thread thread m.inside ≡ [] = ap (without_thread thread) e ∙ rw same refl in
    (
      s',
      up,
      record {
        count = 1;
        sems = sem_up-IsSems m.sems s' m.mutex.sem 1 SemStatus.no_error up is.sems;
        sem = has;
        holds = subst (λ v. Holds 0 v 1) (sym empty) (refl, refl);
      },
    )
release_sem-IsWorld m is thread (t ∷ u ∷ more) h e nz own = elim h [ ]

unlock-IsWorld :
    (m : World) (thread : ℕ) (result : MutexStatus × Mutex × Sems)
    → thread ≢ 0
    → mutex_unlock m.sems m.mutex thread ≡ some result
    → IsWorld m
    → IsWorld (left m thread result)
unfolding mutex_unlock
unlock-IsWorld m thread result nz e is = elim (Bool-cases (m.mutex.sem == 0)) [
  | inl t ↦
      let same : (MutexStatus.invalid_mutex, m.mutex, m.sems) ≡ result =
        some_inj.0 (rw (t, mutex_unlock) at e) in
      subst (λ v. IsWorld (left m thread v)) same is
  | inr f ↦ elim (Bool-cases (m.mutex.holder == thread)) [
    | inr g ↦
        let same : (MutexStatus.not_an_owner, m.mutex, m.sems) ≡ result =
          some_inj.0 (rw (f, g, mutex_unlock) at e) in
        subst (λ v. IsWorld (left m thread v)) same is
    | inl own ↦
        let (s', up, is') =
          release_sem-IsWorld m is thread m.inside is.holds refl nz
            ((==_iff m.mutex.holder thread).0 own) in
        let released : release_sem m.sems m.mutex.sem (record m.mutex { holder = 0 })
            ≡ some result =
          rw (f, own, mutex_unlock) at e in
        let same : (no_error, record m.mutex { holder = 0 }, s') ≡ result =
          some_inj.0 (sym (ap (after_up (record m.mutex { holder = 0 })) up) ∙ released) in
        subst (λ v. IsWorld (left m thread v)) same is'
  ]
]

Step-IsWorld : (m m' : World) → Step m m' → IsWorld m → IsWorld m'
unfolding mutex_lock mutex_lock_woken mutex_trylock sem_down
Step-IsWorld _ _ (lock m w thread runnable nz fresh) is = elim (Bool-cases (m.mutex.sem == 0)) [
  | inl t ↦ rw (t, mutex_lock) is
  | inr f ↦
      rw (f, mutex_lock)
        (lock_end-IsWorld m is thread _ _ nz
          (sem_down_ex-IsSems m.sems m.mutex.sem w thread 1 0 false false runnable true is.sems
            fresh)
          (sem_down_ex-Acquired m.sems m.mutex.sem w thread is.count false runnable is.sem
            (Holds-le m.mutex.holder is.count m.inside is.holds)))
]
Step-IsWorld _ _ (go_on m w thread runnable nz fresh one) is =
    lock_end-IsWorld m is thread _ _ nz
      (woken_up-IsSems m.sems m.mutex.sem w false false runnable true is.sems fresh)
      (woken_up-Acquired m.sems m.mutex.sem w is.count runnable is.sem
        (Holds-le m.mutex.holder is.count m.inside is.holds) one)
Step-IsWorld _ _ (trylock m w thread runnable nz fresh) is = elim (Bool-cases (m.mutex.sem == 0)) [
  | inl t ↦ rw (t, mutex_trylock) is
  | inr f ↦
      rw (f, mutex_trylock)
        (trylock_end-IsWorld m is thread _ _ nz
          (sem_down_ex-IsSems m.sems m.mutex.sem w thread 1 0 true false runnable true is.sems
            fresh)
          (sem_down_ex-Acquired m.sems m.mutex.sem w thread is.count true runnable is.sem
            (Holds-le m.mutex.holder is.count m.inside is.holds)))
]
Step-IsWorld _ _ (unlock m thread result nz e) is = unlock-IsWorld m thread result nz e is

-- The laws of a world hold in each one that steps lead to.
pub Steps-IsWorld : (m m' : World) → Steps m m' → IsWorld m → IsWorld m'
Steps-IsWorld _ _ (start m) is = is
Steps-IsWorld _ _ (step m m1 m' before last) is =
    Step-IsWorld m1 m' last (Steps-IsWorld m m1 before is)

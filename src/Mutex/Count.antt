-- ===== src/Mutex/Count.antt =====
-- The count of a mutex's semaphore through the calls of the semaphores.
use phlox.Common.{
  ℕ, ◌+◌, ◌-◌, ◌%◌, ◌≤◌, ◌≡◌, refl, sym, ◌∙◌, inl, inr, Bool, true, false, some, [], ◌∷◌, ◌++◌,
  ◌==◌, leb, ltb, arith, Bool-cases, ==_iff, u32_mod,
}
use mathlib.Core.Path.{subst}
use phlox.Sem.{Sems, Semaphore, SemStatus, sem_idx, put_sem, get_sem_by_id, sem_up}
use phlox.Sem.Down.{
  Outcome, done, waits, retries, lost, fill_wcb, acquire_from, acquire, sem_down_ex, woken_up,
  is_no_error,
}
use phlox.Sem.Valid.{IsSems, found_in, found-IsSemaphore}
use phlox.Sem.Wake.{served_by, serve, sem_up-serve}

-- The semaphore of a mutex, with a count.
abbrev pub SemHas : Sems → (id count : ℕ) → Type 0
SemHas s id count =
    (sem : Semaphore) × (get_sem_by_id s id ≡ some sem) × (sem.max_count ≡ 1) × (sem.count ≡ count)

SemHas-put_sem :
    (s : Sems) (id count : ℕ) (sem : Semaphore)
    → sem.id ≡ id
    → sem.max_count ≡ 1
    → sem.count ≡ count
    → SemHas (put_sem s (sem_idx id) (some sem)) id count
unfolding get_sem_by_id
SemHas-put_sem s id count sem own max e =
    let slot : (sem_idx id == sem_idx id) ≡ true = (==_iff (sem_idx id) (sem_idx id)).1 refl in
    let same : (sem.id == id) ≡ true = (==_iff sem.id id).1 own in
    (sem, rw (slot, get_sem_by_id) (rw same refl), max, e)

-- What an attempt to take the count comes to: it is taken where it succeeds.
abbrev pub Ended : (id count : ℕ) (success : Bool) → Sems → Type 0
Ended id count true s = (count ≡ 1) × SemHas s id 0
Ended id count false s = SemHas s id count

abbrev pub Acquired : (id count : ℕ) (flag_try : Bool) → Outcome × Sems → Type 0
Acquired id count flag_try (done status, s) = Ended id count (is_no_error status) s
Acquired id count flag_try (waits, s) = (flag_try ≡ false) × SemHas s id count
Acquired id count flag_try (retries, s) = (flag_try ≡ false) × SemHas s id count
Acquired id count flag_try (lost, s) = ⊥

pub acquire-Acquired :
    (s : Sems) (id w thread count : ℕ) (flag_try runnable : Bool)
    → SemHas s id count
    → count ≤ 1
    → Acquired id count flag_try (acquire s id w thread 1 flag_try false runnable true)
unfolding acquire acquire_from get_sem_by_id
acquire-Acquired s id w thread count flag_try runnable (sem, found, max, e) le =
    let own = (found_in s id sem found).1 in
    elim (Bool-cases (leb 1 sem.count)) [
      | inl t ↦
          rw (acquire, found, acquire_from)
            (rw t (
              ground (arith, t, e, le),
              SemHas-put_sem (fill_wcb s w thread 1) id 0 (record sem { count = sem.count - 1 }) own
                  max (ground (arith, t, e, le)),
            ))
      | inr f ↦ elim (Bool-cases flag_try) [
        | inl t ↦ rw (acquire, found, acquire_from) (rw (f, t) (sem, found, max, e))
        | inr g ↦ elim (Bool-cases runnable) [
          | inl r ↦
              rw (acquire, found, acquire_from)
                (rw (f, g, r)
                  (
                    refl,
                    SemHas-put_sem (fill_wcb s w thread 1) id count
                        (record sem { waiters = sem.waiters ++ w ∷ [] }) own max e,
                  ))
          | inr r ↦ rw (acquire, found, acquire_from) (rw (f, g, r) (refl, (sem, found, max, e)))
        ]
      ]
    ]

pub sem_down_ex-Acquired :
    (s : Sems) (id w thread count : ℕ) (flag_try runnable : Bool)
    → SemHas s id count
    → count ≤ 1
    → Acquired id count flag_try (sem_down_ex s id w thread 1 0 flag_try false runnable true)
unfolding sem_down_ex
sem_down_ex-Acquired s id w thread count flag_try runnable (sem, found, max, e) le =
    let within : ltb sem.max_count 1 ≡ false = ground (arith, max) in
    rw (sem_down_ex, found)
      (rw within (acquire-Acquired s id w thread count flag_try runnable (sem, found, max, e) le))

pub woken_up-Acquired :
    (s : Sems) (id w count : ℕ) (runnable : Bool)
    → SemHas s id count
    → count ≤ 1
    → (s.wcbs w).count ≡ 1
    → Acquired id count false (woken_up s id w false false runnable true)
unfolding woken_up
woken_up-Acquired s id w count runnable has le one =
    elim (Bool-cases (is_no_error (s.wcbs w).err)) [
      | inl t ↦ rw t (
          subst
            (λ v.
              Acquired id count false
                (acquire s id w (s.wcbs w).thread v false false runnable true))
            (sym one) (acquire-Acquired s id w (s.wcbs w).thread count false runnable has le))
      | inr f ↦ rw f (rw f has)
    ]

-- The semaphores after a release by its holder.
pub sem_up-SemHas :
    (s : Sems) (id : ℕ)
    → IsSems s
    → SemHas s id 0
    → (s' : Sems) × (sem_up s id 1 ≡ some (SemStatus.no_error, s')) × SemHas s' id 1
unfolding get_sem_by_id
sem_up-SemHas s id is (sem, found, max, e) =
    let own = (found_in s id sem found).1 in
    let once = (found-IsSemaphore s id sem is found).once in
    let sum : (sem.count + 1) % u32_mod ≡ 1 = omega (arith, e) in
    let within : ltb sem.max_count ((sem.count + 1) % u32_mod) ≡ false = ground (arith, max, sum) in
    let raised = record sem { count = (sem.count + 1) % u32_mod } in
    (
      served_by s (sem_idx id) raised,
      sem_up-serve s id 1 sem found once ∙ rw within refl,
      SemHas-put_sem s id 1 (record raised { waiters = (serve s.wcbs sem.waiters raised.count).0 })
          own max sum,
    )

-- Without a count an attempt that does not wait fails, and fills in its control block only.
pub sem_down_ex-try :
    (s : Sems) (id w thread : ℕ) (runnable : Bool)
    → SemHas s id 0
    → sem_down_ex s id w thread 1 0 true false runnable true
      ≡ (done SemStatus.sem_try_failed, fill_wcb s w thread 1)
unfolding sem_down_ex acquire acquire_from
sem_down_ex-try s id w thread runnable (sem, found, max, e) =
    let within : ltb sem.max_count 1 ≡ false = ground (arith, max) in
    let none_left : leb 1 sem.count ≡ false = ground (arith, e) in
    rw (sem_down_ex, found) (rw within (rw (acquire, found) (rw (acquire_from, none_left) refl)))

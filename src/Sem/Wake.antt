-- ===== src/Sem/Wake.antt =====
-- The loop of sem_up is a single pass over the waiters.
use phlox.Common.{
  ℕ, suc, ◌+◌, ◌-◌, ◌%◌, ◌≡◌, ◌∙◌, ap, refl, inl, inr, true, false, ◌==◌, ltb, leb, if◌then◌else◌,
  arith, Bool-cases, some, u32_mod, List, [], ◌∷◌, ◌++◌, length, length-append, ◌∉◌, Distinct,
  Distinct-middle, List-cases,
}
use mathlib.Core.List.{append-nil, append_assoc}
use phlox.Sem.{
  Sems, Semaphore, Wcb, no_error, sem_invalid_value, sem_idx, put_sem, get_sem_by_id, wake_loop,
  last_waiter, wake_waiters, sem_up,
}

-- The reference: who is left and who is woken up, first come first served as the count goes.
unfoldable pub serve : (wcbs : ℕ → Wcb) → List ℕ → (curr_count : ℕ) → List ℕ × List ℕ
serve wcbs [] curr = ([], [])
serve wcbs (w ∷ ws) curr =
    let rest = serve wcbs ws (if leb (wcbs w).count curr then curr - (wcbs w).count else curr) in
    if leb (wcbs w).count curr then (rest.0, (wcbs w).thread ∷ rest.1) else (w ∷ rest.0, rest.1)

-- The steps of the loop and of the reference, at a waiter that is not the last one.
module _ (wcbs : ℕ → Wcb) (w : ℕ) (curr : ℕ) where
  loop_wakes :
      (n : ℕ) (ws : List ℕ) (last : ℕ) (woken : List ℕ)
      → leb (wcbs w).count curr ≡ true
      → (w == last) ≡ false
      → wake_loop (suc n) wcbs (w ∷ ws) last curr woken
        ≡ wake_loop n wcbs ws last (curr - (wcbs w).count) (woken ++ (wcbs w).thread ∷ [])
  unfolding wake_loop
  loop_wakes n ws last woken e d = rw (d, e) refl

  loop_keeps :
      (n : ℕ) (ws : List ℕ) (last : ℕ) (woken : List ℕ)
      → leb (wcbs w).count curr ≡ false
      → (w == last) ≡ false
      → wake_loop (suc n) wcbs (w ∷ ws) last curr woken
        ≡ wake_loop n wcbs (ws ++ w ∷ []) last curr woken
  unfolding wake_loop
  loop_keeps n ws last woken e d = rw (d, e) refl

  serve_wakes :
      (ws : List ℕ)
      → leb (wcbs w).count curr ≡ true
      → serve wcbs (w ∷ ws) curr ≡ (
        (serve wcbs ws (curr - (wcbs w).count)).0,
        (wcbs w).thread ∷ (serve wcbs ws (curr - (wcbs w).count)).1,
      )
  unfolding serve
  serve_wakes ws e = rw e refl

  serve_keeps :
      (ws : List ℕ)
      → leb (wcbs w).count curr ≡ false
      → serve wcbs (w ∷ ws) curr ≡ (w ∷ (serve wcbs ws curr).0, (serve wcbs ws curr).1)
  unfolding serve
  serve_keeps ws e = rw e refl

append_middle : (xs : List ℕ) (x : ℕ) (ys : List ℕ) → (xs ++ x ∷ []) ++ ys ≡ xs ++ x ∷ ys
append_middle xs x ys = append_assoc xs (x ∷ []) ys

-- The loop, with the waiters `front` before the last one to look at and the kept ones `k` behind it.
wake_loop-serve :
    (wcbs : ℕ → Wcb) (front : List ℕ) (last : ℕ) (k : List ℕ) (curr : ℕ) (woken : List ℕ)
    → last ∉ front
    → wake_loop (length front + 1) wcbs (front ++ last ∷ k) last curr woken
      ≡ some (
        k ++ (serve wcbs (front ++ last ∷ []) curr).0,
        woken ++ (serve wcbs (front ++ last ∷ []) curr).1,
      )
unfolding wake_loop serve
wake_loop-serve wcbs [] last k curr woken out =
    let same : (last == last) ≡ true = ground arith in
    elim (Bool-cases (leb (wcbs last).count curr)) [
      | inl e ↦ rw (same, e) (rw (append-nil k) refl)
      | inr e ↦ rw (same, e) (rw (append-nil woken) refl)
    ]
wake_loop-serve wcbs (w ∷ f) last k curr woken out =
    let differs : (w == last) ≡ false = ground (arith, out) in
    let out' : last ∉ f = ground (arith, out) in
    let fuel : length (w ∷ f) + 1 ≡ suc (length f + 1) = omega arith in
    elim (Bool-cases (leb (wcbs w).count curr)) [
      | inl e ↦
          let curr' = curr - (wcbs w).count in
          let woken' = woken ++ (wcbs w).thread ∷ [] in
          let served = serve_wakes wcbs w curr (f ++ last ∷ []) e in
          let rest = wake_loop-serve wcbs f last k curr' woken' out' in
          rw (fuel, served)
            (loop_wakes wcbs w curr (length f + 1) (f ++ last ∷ k) last woken e differs
              ∙ rest
              ∙ ap (λ x. some (k ++ (serve wcbs (f ++ last ∷ []) curr').0, x))
                  (append_middle woken (wcbs w).thread (serve wcbs (f ++ last ∷ []) curr').1))
      | inr e ↦
          let served = serve_keeps wcbs w curr (f ++ last ∷ []) e in
          let rest = wake_loop-serve wcbs f last (k ++ w ∷ []) curr woken out' in
          let behind =
            ap (λ ws. wake_loop (length f + 1) wcbs ws last curr woken)
              (append_assoc f (last ∷ k) (w ∷ [])) in
          rw (fuel, served)
            (loop_keeps wcbs w curr (length f + 1) (f ++ last ∷ k) last woken e differs
              ∙ behind
              ∙ rest
              ∙ ap (λ x. some (x, woken ++ (serve wcbs (f ++ last ∷ []) curr).1))
                  (append_middle k w (serve wcbs (f ++ last ∷ []) curr).0))
    ]

-- A sequence that is not empty has a last element.
last_waiter-split :
    (w : ℕ) (ws : List ℕ)
    → (front : List ℕ) × (last : ℕ) × (last_waiter (w ∷ ws) ≡ some last)
      × (w ∷ ws ≡ front ++ last ∷ [])
unfolding last_waiter
last_waiter-split w [] = ([], w, refl, refl)
last_waiter-split w (v ∷ ws) =
    let (front, last, run, whole) = last_waiter-split v ws in
    (w ∷ front, last, rw run refl, ap (λ xs. w ∷ xs) whole)

-- The semaphore in the table, and the threads that were woken up, after the pass.
abbrev pub served_by : Sems → (slot : ℕ) → Semaphore → Sems
served_by s slot sem =
    let served = serve s.wcbs sem.waiters sem.count in
    record (put_sem s slot (some (record sem { waiters = served.0 }))) {
      woken = s.woken ++ served.1;
    }

-- Where the last one stands once, the loop looks at all of them.
whole_loop :
    (wcbs : ℕ → Wcb) (ws front : List ℕ) (last curr : ℕ) (woken : List ℕ)
    → ws ≡ front ++ last ∷ []
    → Distinct ws
    → wake_loop (length ws) wcbs ws last curr woken
      ≡ some ((serve wcbs ws curr).0, woken ++ (serve wcbs ws curr).1)
whole_loop wcbs ws front last curr woken whole once =
    let once' : Distinct (front ++ last ∷ []) = rw whole at once in
    let fuel : length (front ++ last ∷ []) ≡ length front + 1 = length-append front (last ∷ []) in
    rw (whole, fuel)
      (wake_loop-serve wcbs front last [] curr woken (Distinct-middle front last [] once').0)

wake_waiters-serve :
    (s : Sems) (slot : ℕ) (sem : Semaphore)
    → Distinct sem.waiters
    → wake_waiters s slot sem ≡ some (served_by s slot sem)
unfolding wake_waiters serve last_waiter
wake_waiters-serve s slot sem once = elim (List-cases sem.waiters) [
  | inl e ↦
      rw (e, wake_waiters)
        (rw (append-nil s.woken)
          (ap (λ ws. some (put_sem s slot (some (record sem { waiters = ws })))) e))
  | inr (w, ws, e) ↦
      let (front, last, run, whole) = last_waiter-split w ws in
      let run' : last_waiter sem.waiters ≡ some last = rw e run in
      let loop = whole_loop s.wcbs sem.waiters front last sem.count s.woken (e ∙ whole) once in
      rw (run', loop, wake_waiters) refl
]

-- sem_up on a semaphore nobody waits for twice, with a sum of counts (modulo 2 ^ 32) above the
-- limit, returns ERR_SEM_INVALID_VALUE and changes nothing; with a count of 0 it changes nothing;
-- otherwise it terminates and does what a single pass in the order of waiting does: a thread that
-- the count left over suffices for is woken up and its count spent, the others keep their order.
pub sem_up-serve :
    (s : Sems) (id count : ℕ) (sem : Semaphore)
    → get_sem_by_id s id ≡ some sem
    → Distinct sem.waiters
    → sem_up s id count ≡ (
        if ltb sem.max_count ((sem.count + count) % u32_mod)
        then some (sem_invalid_value, s)
        else if count == 0
        then some (no_error, s)
        else some (
          no_error,
          served_by s (sem_idx id) (record sem { count = (sem.count + count) % u32_mod }),
        ))
unfolding sem_up
sem_up-serve s id count sem found once =
    let woken =
      wake_waiters-serve s (sem_idx id) (record sem { count = (sem.count + count) % u32_mod })
        once in
    rw (found, woken, sem_up) refl

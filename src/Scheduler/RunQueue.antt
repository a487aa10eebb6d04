-- ===== src/Scheduler/RunQueue.antt =====
-- When the run queue is consistent, and that its routines keep it so.
use phlox.Common.{
  ℕ, ◌+◌, ◌<◌, ◌≡◌, refl, sym, ◌∙◌, inl, inr, true, false, List, [], ◌∷◌, ◌++◌, length,
  length-append, length-erase, erase, has, has-erase_self, ◌∈◌, ◌∉◌, Distinct, Distinct-erase,
  Distinct-append_one, ◌||◌, ◌==◌, ==_iff, arith, u32_mod, Bool-cases,
}
use phlox.Common.Total.{total, put, total-put, length-le-total}
use phlox.Common.Int.{pos}
use phlox.Scheduler.{
  Scheduler, Thread, ready, priority_levels, set_thread, rq_extract_thread, rq_put_thread,
}

-- A thread of a priority queue has that dynamic priority, is ready and stands there once; the count
-- is that of the threads in all queues.
pub record IsRunQueue (s : Scheduler) : Type 0 where
  pub placed :
      (p th : ℕ)
      → th ∈ s.queue p
      → (p < priority_levels) × ((s.threads th).d_prio ≡ pos p) × ((s.threads th).state ≡ ready)
  pub distinct : (p : ℕ) → Distinct (s.queue p)
  pub count : s.total_count ≡ total priority_levels s.queue
  pub small : total priority_levels s.queue < u32_mod

-- The thread is in no queue.
abbrev pub Away : Scheduler → ℕ → Type 0
Away s th = (p : ℕ) → th ∉ s.queue p

-- Writing a thread that is in no queue.
pub set_thread-IsRunQueue :
    (s : Scheduler) (th : ℕ) (t : Thread)
    → IsRunQueue s
    → Away s th
    → IsRunQueue (set_thread s th t)
set_thread-IsRunQueue s th t is away = record {
  placed = λ p x i.
      let other : (x == th) ≡ false = ground (arith, i, away p, ==_iff x th) in
      rw other (is.placed p x i);
  distinct = is.distinct;
  count = is.count;
  small = is.small;
}

-- The queue that an update leaves at a priority.
put_self : (queue : ℕ → List ℕ) (p : ℕ) (ths : List ℕ) → put queue p ths p ≡ ths
put_self queue p ths = ground arith

put_other :
    (queue : ℕ → List ℕ) (p q : ℕ) (ths : List ℕ) → (q == p) ≡ false → put queue p ths q ≡ queue q
put_other queue p q ths e = rw e refl

-- A queue that is replaced, with the count and the threads that are in it.
IsRunQueue-put :
    (s s' : Scheduler) (p : ℕ) (ths : List ℕ)
    → IsRunQueue s
    → p < priority_levels
    → s'.queue ≡ put s.queue p ths
    → Distinct ths
    → ((x : ℕ) → x ∈ ths → ((s'.threads x).d_prio ≡ pos p) × ((s'.threads x).state ≡ ready))
    → ((q x : ℕ)
        → (q == p) ≡ false
        → x ∈ s.queue q
        → ((s'.threads x).d_prio ≡ (s.threads x).d_prio)
          × ((s'.threads x).state ≡ (s.threads x).state))
    → s'.total_count + length (s.queue p) ≡ s.total_count + length ths
    → s'.total_count < u32_mod
    → IsRunQueue s'
IsRunQueue-put s s' p ths is lt eq once there others count small =
    let totals = (total-put priority_levels p s.queue ths lt).0 in
    let counted : s'.total_count ≡ total priority_levels s'.queue =
      rw eq (omega (arith, totals, count, is.count)) in
    record {
      placed = λ q x i. elim (Bool-cases (q == p)) [
        | inl e ↦
            let same : q ≡ p = (==_iff q p).0 e in
            let i' : x ∈ ths = rw (eq, e) at i in
            let (a, b) = there x i' in (omega (arith, same, lt), rw same a, b)
        | inr e ↦
            let i' : x ∈ s.queue q = rw (eq, e) at i in
            let (a, b) = others q x e i' in let (l, c, d) = is.placed q x i' in (l, a ∙ c, b ∙ d)
      ];
      distinct = λ q. elim (Bool-cases (q == p)) [
        | inl e ↦ rw (eq, e) once
        | inr e ↦ rw (eq, e) (is.distinct q)
      ];
      count = counted;
      small = rw (sym counted) small;
    }

in-erase : (x th : ℕ) (ths : List ℕ) → x ∈ erase th ths → x ∈ ths
in-erase x th [] i = i
in-erase x th (y ∷ ths) i = ground (arith, i, in-erase x th ths)

has-append_one : (x th : ℕ) (ths : List ℕ) → has x (ths ++ th ∷ []) ≡ (has x ths || (x == th))
has-append_one x th [] = ground (arith)
has-append_one x th (y ∷ ths) = ground (arith, has-append_one x th ths)

-- The threads that run are not the business of the run queue's routines.
pub runs_put :
    (s : Scheduler) (th : ℕ)
    → ((rq_put_thread s th).idle_thread ≡ s.idle_thread)
      × ((rq_put_thread s th).current ≡ s.current)
unfolding rq_put_thread
runs_put s th = (refl, refl)

-- Putting a ready thread that is in no queue.
module _ (s : Scheduler) (th p : ℕ) (is : IsRunQueue s) (away : Away s th)
    (lt : p < priority_levels) (d : (s.threads th).d_prio ≡ pos p) where
  queue_put : (rq_put_thread s th).queue ≡ put s.queue p (s.queue p ++ th ∷ [])
  unfolding rq_put_thread
  queue_put = rw d refl

  fields_put :
      (x : ℕ)
      → (((rq_put_thread s th).threads x).d_prio ≡ (s.threads x).d_prio)
        × (((rq_put_thread s th).threads x).state ≡ (s.threads x).state)
  unfolding rq_put_thread
  fields_put x = ground (arith)

  pub total_count-rq_put_thread :
      s.total_count + 1 < u32_mod → (rq_put_thread s th).total_count ≡ s.total_count + 1
  unfolding rq_put_thread
  total_count-rq_put_thread room = omega (arith, room)

  pub rq_put_thread-IsRunQueue :
      (s.threads th).state ≡ ready → s.total_count + 1 < u32_mod → IsRunQueue (rq_put_thread s th)
  rq_put_thread-IsRunQueue r room =
      let counted = total_count-rq_put_thread room in
      IsRunQueue-put s (rq_put_thread s th) p (s.queue p ++ th ∷ []) is lt queue_put
        (Distinct-append_one th (s.queue p) (is.distinct p) (away p))
        (λ x i. elim (Bool-cases (x == th)) [
          | inl e ↦
              let same : x ≡ th = (==_iff x th).0 e in
              ((fields_put x).0 ∙ rw same d, (fields_put x).1 ∙ rw same r)
          | inr e ↦
              let i' : x ∈ s.queue p = ground (arith, i, e, has-append_one x th (s.queue p)) in
              let (l, a, b) = is.placed p x i' in ((fields_put x).0 ∙ a, (fields_put x).1 ∙ b)
        ])
        (λ q x e i. fields_put x) (omega (arith, counted, length-append (s.queue p) (th ∷ [])))
        (omega (arith, counted, room))

  pub rq_put_thread-Away : (x : ℕ) → (x == th) ≡ false → Away s x → Away (rq_put_thread s th) x
  rq_put_thread-Away x e ax q = rw queue_put (elim (Bool-cases (q == p)) [
    | inl f ↦ rw f (has-append_one x th (s.queue p) ∙ rw (ax p, e) refl)
    | inr f ↦ rw f (ax q)
  ])

  pub rq_put_thread-in : th ∈ (rq_put_thread s th).queue p
  rq_put_thread-in =
      let same : (p == p) ≡ true = ground arith in
      rw (queue_put, same) (has-append_one th th (s.queue p) ∙ ground arith)

-- Taking a thread out of its queue.
module _ (s : Scheduler) (th p : ℕ) (is : IsRunQueue s) (there : th ∈ s.queue p) where
  queue_extract : (rq_extract_thread s th).queue ≡ put s.queue p (erase th (s.queue p))
  unfolding rq_extract_thread
  queue_extract = rw (is.placed p th there).1 refl

  pub total_count-rq_extract_thread : (rq_extract_thread s th).total_count + 1 ≡ s.total_count
  unfolding rq_extract_thread
  total_count-rq_extract_thread = omega (
    arith,
    is.count,
    is.small,
    length-erase th (s.queue p) there,
    length-le-total priority_levels p s.queue (is.placed p th there).0,
  )

  pub rq_extract_thread-IsRunQueue : IsRunQueue (rq_extract_thread s th)
  unfolding rq_extract_thread
  rq_extract_thread-IsRunQueue =
      IsRunQueue-put s (rq_extract_thread s th) p (erase th (s.queue p)) is (is.placed p th there).0
        queue_extract (Distinct-erase th (s.queue p) (is.distinct p))
        (λ x i. let (l, a, b) = is.placed p x (in-erase x th (s.queue p) i) in (a, b))
        (λ q x e i. (refl, refl))
        (omega (arith, total_count-rq_extract_thread, length-erase th (s.queue p) there))
        (omega (arith, total_count-rq_extract_thread, is.small, is.count))

  pub rq_extract_thread-Away : Away (rq_extract_thread s th) th
  rq_extract_thread-Away q = rw queue_extract (elim (Bool-cases (q == p)) [
    | inl e ↦ rw e (has-erase_self th (s.queue p) (is.distinct p))
    | inr e ↦ rw e (elim (Bool-cases (has th (s.queue q))) [
      | inl i ↦ absurd (ground (arith, (is.placed q th i).1, (is.placed p th there).1, e))
      | inr o ↦ o
    ])
  ])

  pub rq_extract_thread-Away_other : (x : ℕ) → Away s x → Away (rq_extract_thread s th) x
  rq_extract_thread-Away_other x ax q = rw queue_extract (elim (Bool-cases (q == p)) [
    | inl e ↦ rw e (elim (Bool-cases (has x (erase th (s.queue p)))) [
      | inl i ↦ absurd (ground (arith, in-erase x th (s.queue p) i, ax p))
      | inr o ↦ o
    ])
    | inr e ↦ rw e (ax q)
  ])

-- ===== src/Scheduler/Choice.antt =====
-- Which thread the search of the queues chooses.
use phlox.Common.{
  ℕ, zero, suc, ◌<◌, ◌≤◌, ◌≡◌, ◌⊎◌, refl, sym, ◌∙◌, ap, inl, inr, true, List, [], ◌∷◌, length,
  erase, take, ◌∈◌, ◌==◌, ==_iff, ltb, arith, Bool-cases, List-cases, none, some,
}
use mathlib.Core.Path.{subst}
use phlox.Scheduler.{Scheduler, rq_extract_thread, rq_pop_head_thread}
use phlox.Scheduler.Switch.{policy_level, significant_thread, most_significant, take_from, choose}
use phlox.Scheduler.RunQueue.{IsRunQueue}

-- The level of a thread's policy.
abbrev pub level : Scheduler → ℕ → ℕ
level s th = policy_level (s.threads th)

significant_thread-level :
    (s : Scheduler) (t1 t2 : ℕ)
    → ((significant_thread s t1 t2 ≡ t1) ⊎ (significant_thread s t1 t2 ≡ t2))
      × (level s t1 ≤ level s (significant_thread s t1 t2))
      × (level s t2 ≤ level s (significant_thread s t1 t2))
unfolding significant_thread
significant_thread-level s t1 t2 = elim (Bool-cases (ltb (level s t1) (level s t2))) [
  | inl e ↦ rw e (inr refl, ground (arith, e), omega arith)
  | inr e ↦ rw e (inl refl, omega arith, ground (arith, e))
]

-- The thread of one's own is in the sequence that it starts.
in-head : (x : ℕ) (ths : List ℕ) → x ∈ x ∷ ths
in-head x ths = ground arith

in-cases : (x y : ℕ) (ths : List ℕ) → x ∈ y ∷ ths → (x ≡ y) ⊎ (x ∈ ths)
in-cases x y ths i = elim (Bool-cases (x == y)) [
  | inl e ↦ inl ((==_iff x y).0 e)
  | inr e ↦ inr (ground (arith, i, e))
]

in-tail : (x y : ℕ) (ths : List ℕ) → x ∈ ths → x ∈ y ∷ ths
in-tail x y ths i = ground (arith, i)

in-alone : (x y : ℕ) → x ∈ y ∷ [] → x ≡ y
in-alone x y i = ground (arith, i)

-- The most significant thread is one of those that are looked at, and none of them has a higher policy.
pub most_significant-maximal :
    (n : ℕ) (s : Scheduler) (best : ℕ) (ths : List ℕ)
    → (most_significant n s best ths ∈ best ∷ take n ths)
      × ((x : ℕ) → x ∈ best ∷ take n ths → level s x ≤ level s (most_significant n s best ths))
unfolding most_significant
most_significant-maximal zero s best ths =
    (in-head best [], λ x i. rw (in-alone x best i) (omega arith))
most_significant-maximal (suc n) s best [] =
    (in-head best [], λ x i. rw (in-alone x best i) (omega arith))
most_significant-maximal (suc n) s best (th ∷ ths) =
    let m = significant_thread s best th in
    let r = most_significant n s m ths in
    let (which, a, b) = significant_thread-level s best th in
    let (inside, most) = most_significant-maximal n s m ths in
    let least : level s m ≤ level s r = most m (in-head m (take n ths)) in
    (
      elim (in-cases r m (take n ths) inside) [
        | inr i ↦ in-tail r best (th ∷ take n ths) (in-tail r th (take n ths) i)
        | inl e ↦ elim which [
          | inl w ↦
              subst (λ v. v ∈ best ∷ th ∷ take n ths) (sym (e ∙ w)) (in-head best (th ∷ take n ths))
          | inr w ↦
              subst (λ v. v ∈ best ∷ th ∷ take n ths) (sym (e ∙ w))
                (in-tail th best (th ∷ take n ths) (in-head th (take n ths)))
        ]
      ],
      λ x i. elim (in-cases x best (th ∷ take n ths) i) [
        | inl e ↦ rw e (omega (arith, a, least))
        | inr j ↦ elim (in-cases x th (take n ths) j) [
          | inl e ↦ rw e (omega (arith, b, least))
          | inr k ↦ most x (in-tail x m (take n ths) k)
        ]
      ],
    )

-- The head of a queue is taken out as any other thread of it.
pub pop-extract :
    (s : Scheduler) (p th : ℕ) (rest : List ℕ)
    → IsRunQueue s
    → s.queue p ≡ th ∷ rest
    → rq_pop_head_thread s p rest ≡ rq_extract_thread s th
unfolding rq_pop_head_thread rq_extract_thread
pop-extract s p th rest is eq =
    let there : th ∈ s.queue p = rw eq (ground arith) in
    let (l, d, r) = is.placed p th there in
    let head : erase th (th ∷ rest) ≡ rest = ground arith in rw (d, eq, head) refl

-- Where the search of the queues below `n` takes a thread from: the highest queue with a thread.
pub record Choice (s : Scheduler) (n next : ℕ) : Type 0 where
  pub prio : ℕ
  pub head : ℕ
  pub rest : List ℕ
  pub below : prio < n
  pub queued : s.queue prio ≡ head ∷ rest
  pub highest : (q : ℕ) → prio < q → q < n → s.queue q ≡ []
  pub looked_at : next ∈ head ∷ take 9 rest
  pub most : (x : ℕ) → x ∈ head ∷ take 9 rest → level s x ≤ level s next

take_from-extract :
    (s : Scheduler) (p th : ℕ) (rest : List ℕ)
    → IsRunQueue s
    → s.queue p ≡ th ∷ rest
    → take_from s p th rest
      ≡ (most_significant 9 s th rest, rq_extract_thread s (most_significant 9 s th rest))
unfolding take_from most_significant
take_from-extract s p th [] is eq = ap (λ s'. (th, s')) (pop-extract s p th [] is eq)
take_from-extract s p th (x ∷ rest) is eq =
    let many : ltb 1 (length (th ∷ x ∷ rest)) ≡ true = ground arith in rw many refl

-- A queue below `suc n` is the queue `n` or below that.
empty_up_to :
    (queue : ℕ → List ℕ) (n q : ℕ)
    → queue n ≡ []
    → (q < n → queue q ≡ [])
    → q < suc n
    → queue q ≡ []
empty_up_to queue n q eq all lt = elim (Bool-cases (q == n)) [
  | inl e ↦ rw ((==_iff q n).0 e) eq
  | inr e ↦ all (ground (arith, e, lt))
]

pub choose-Choice :
    (n : ℕ) (s : Scheduler)
    → IsRunQueue s
    → ((choose n s ≡ none) × ((q : ℕ) → q < n → s.queue q ≡ []))
      ⊎ ((next : ℕ) × (choose n s ≡ some (next, rq_extract_thread s next)) × Choice s n next)
unfolding choose
choose-Choice zero s is = inl (refl, λ q lt. absurd (omega arith))
choose-Choice (suc n) s is = elim (List-cases (s.queue n)) [
  | inr (th, rest, eq) ↦
      let (inside, most) = most_significant-maximal 9 s th rest in
      inr (
        most_significant 9 s th rest,
        rw (eq, choose) (ap some (take_from-extract s n th rest is eq)),
        record {
          prio = n;
          head = th;
          rest = rest;
          below = omega arith;
          queued = eq;
          highest = λ q lo hi. absurd (omega arith);
          looked_at = inside;
          most = most;
        },
      )
  | inl eq ↦ elim (choose-Choice n s is) [
    | inl (nothing, all) ↦
        inl (rw (eq, choose) nothing, λ q lt. empty_up_to s.queue n q eq (all q) lt)
    | inr (next, run, c) ↦ inr (
      next,
      rw (eq, choose) run,
      record {
        prio = c.prio;
        head = c.head;
        rest = c.rest;
        below = omega (arith, c.below);
        queued = c.queued;
        highest = λ q lo hi. empty_up_to s.queue n q eq (c.highest q lo) hi;
        looked_at = c.looked_at;
        most = c.most;
      },
    )
  ]
]

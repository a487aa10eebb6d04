-- ===== src/SinglyQueue/Refines.antt =====
-- The queue is the sequence of its elements, oldest first.
use phlox.Common.{
  Distinct-append_one, ℕ, suc, ◌<◌, ◌≡◌, ◌≢◌, ◌⊎◌, sym, inl, inr, refl, arith, true, false, List,
  [], ◌∷◌, ◌++◌, length, length-append, ◌∉◌, Distinct, ◌==◌, u32_mod,
}
use mathlib.Core.Path.{subst}
use phlox.Common.Chains.{
  null, link, Run, last_of, last_of-in, has_at, last_of-append, Run-snoc, last_ne_null,
}
use phlox.SinglyQueue.{Queue, queue_enqueue, queue_dequeue}

pub record IsQueue (q : Queue) (xs : List ℕ) : Type 0 where
  pub run : Run q.next q.head xs
  pub tail : q.tail ≡ last_of null xs
  pub distinct : Distinct xs
  pub count : q.count ≡ length xs
  pub small : length xs < u32_mod

-- queue_enqueue of an element that is not NULL and not in a well-formed queue gives the well-
-- formed queue of the same elements with the new one last, if the count stays a 32-bit number.
pub queue_enqueue-IsQueue :
    (q : Queue) (xs : List ℕ) (e : ℕ)
    → IsQueue q xs
    → e ≢ null
    → e ∉ xs
    → suc (length xs) < u32_mod
    → IsQueue (queue_enqueue q e) (xs ++ e ∷ [])
unfolding queue_enqueue
queue_enqueue-IsQueue q [] e is nz new room =
    let empty : (q.tail == null) ≡ true = ground (arith, is.tail) in
    rw empty (record {
      run = (refl, nz, ground arith);
      tail = refl;
      distinct = (refl, tt);
      count = omega (arith, is.count);
      small = omega arith;
    })
queue_enqueue-IsQueue q (x ∷ xs) e is nz new room =
    let not_null = last_ne_null q.next q.head x xs is.run in
    let full : (q.tail == null) ≡ false = ground (arith, is.tail, not_null) in
    rw full (record {
      run =
          subst (λ t. Run (link (link q.next t e) e null) q.head (x ∷ xs ++ e ∷ [])) (sym is.tail)
            (Run-snoc q.next q.head x xs e nz new is.distinct is.run);
      tail = sym (last_of-append x e xs);
      distinct = Distinct-append_one e (x ∷ xs) is.distinct new;
      count = omega (arith, is.count, length-append (x ∷ xs) (e ∷ []));
      small = omega (arith, length-append (x ∷ xs) (e ∷ []));
    })

-- queue_dequeue of a well-formed queue returns NULL where it is empty, and it stays empty;
-- otherwise it returns the oldest element and leaves the well-formed queue of the others, with no
-- link written.
pub queue_dequeue-IsQueue :
    (q : Queue) (xs : List ℕ)
    → IsQueue q xs
    → ((xs ≡ []) × ((queue_dequeue q).0 ≡ null) × IsQueue (queue_dequeue q).1 [])
      ⊎ ((x : ℕ) × (ys : List ℕ) × (xs ≡ x ∷ ys)
          × ((queue_dequeue q).0 ≡ x)
          × IsQueue (queue_dequeue q).1 ys
          × ((queue_dequeue q).1.next ≡ q.next))
unfolding queue_dequeue
queue_dequeue-IsQueue q [] is =
    let e : (q.head == null) ≡ true = ground (arith, is.run) in
    let f : (q.tail == q.head) ≡ true = ground (arith, is.run, is.tail) in
    inl (
      refl,
      is.run,
      rw (e, f)
          (record { run = is.run; tail = refl; distinct = tt; count = is.count; small = is.small }),
    )
queue_dequeue-IsQueue q (x ∷ []) is =
    let (at, nx, end) = is.run in
    let e : (q.head == null) ≡ false = ground (arith, at, nx) in
    let f : (q.tail == q.head) ≡ true = ground (arith, at, is.tail) in
    inr (
      x,
      [],
      refl,
      at,
      rw (e, f)
          (record {
            run = subst (λ p. q.next p ≡ null) (sym at) end;
            tail = refl;
            distinct = tt;
            count = omega (arith, is.count);
            small = omega arith;
          }),
      rw (e, f) refl,
    )
queue_dequeue-IsQueue q (x ∷ y ∷ ys) is =
    let (at, nx, r) = is.run in
    let (new, d) = is.distinct in
    let e : (q.head == null) ≡ false = ground (arith, at, nx) in
    let f : (q.tail == q.head) ≡ false =
      ground (arith, at, is.tail, has_at x (last_of y ys) (y ∷ ys) new (last_of-in y ys)) in
    inr (
      x,
      y ∷ ys,
      refl,
      at,
      rw (e, f)
          (record {
            run = subst (λ p. Run q.next (q.next p) (y ∷ ys)) (sym at) r;
            tail = is.tail;
            distinct = d;
            count = omega (arith, is.count, is.small);
            small = omega (arith, is.small);
          }),
      rw (e, f) refl,
    )

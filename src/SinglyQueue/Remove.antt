-- ===== src/SinglyQueue/Remove.antt =====
-- `queue_remove` takes one element out of the sequence.
use phlox.Common.{
  ℕ, zero, suc, ◌+◌, ◌<◌, ◌≡◌, ◌⊎◌, ◌∙◌, sym, refl, inl, inr, true, false, some, List, [], ◌∷◌,
  ◌++◌, length, length-append, ◌∈◌, ◌∉◌, Distinct-middle, has, has-append, erase, ◌==◌,
  if◌then◌else◌, arith, dec32, Bool-cases, Distinct-remove,
}
use mathlib.Core.List.{append-nil}
use phlox.Common.Chains.{
  null, link, Run, Run-link, last_of, last_of-in, has_at, Run-not_null, Run-unlink, first_split,
}
use phlox.SinglyQueue.{Queue, unlink, remove_from, queue_remove}
use phlox.SinglyQueue.Refines.{IsQueue}

remove_from-split :
    (n : ℕ) (q : Queue) (last p e : ℕ) (before after : List ℕ)
    → Run q.next p (before ++ e ∷ after)
    → e ∉ before
    → length (before ++ e ∷ after) < n
    → remove_from n q last p e ≡ some (true, unlink q (last_of last before) e e)
unfolding remove_from
remove_from-split zero q last p e before after r out lt = absurd (omega arith)
remove_from-split (suc n) q last p e [] after (at, ne, r) out lt =
    let more : (p == null) ≡ false = ground (arith, at, ne) in
    let mine : (e == e) ≡ true = ground arith in rw (more, at, mine) refl
remove_from-split (suc n) q last p e (x ∷ before) after (at, nx, r) out lt =
    let more : (p == null) ≡ false = ground (arith, at, nx) in
    let other : (x == e) ≡ false = ground (arith, out) in
    rw (more, at, other)
      (remove_from-split n q x (q.next x) e before after r (ground (arith, out)) (omega arith))

remove_from-none :
    (n : ℕ) (q : Queue) (last p e : ℕ) (xs : List ℕ)
    → Run q.next p xs
    → e ∉ xs
    → length xs < n
    → remove_from n q last p e ≡ some (false, q)
unfolding remove_from
remove_from-none zero q last p e xs r out lt = absurd (omega arith)
remove_from-none (suc n) q last p e [] r out lt =
    let end : (p == null) ≡ true = ground (arith, r) in rw end refl
remove_from-none (suc n) q last p e (x ∷ xs) (at, nx, r) out lt =
    let more : (p == null) ≡ false = ground (arith, at, nx) in
    let other : (x == e) ≡ false = ground (arith, out) in
    rw (more, at, other)
      (remove_from-none n q x (q.next x) e xs r (ground (arith, out)) (omega arith))

last_of-behind : (d y : ℕ) (xs ys : List ℕ) → last_of d (xs ++ y ∷ ys) ≡ last_of y ys
last_of-behind d y [] ys = refl
last_of-behind d y (x ∷ xs) ys = last_of-behind x y xs ys

-- The last of the elements that are left.
tail_left :
    (d e : ℕ) (before after : List ℕ)
    → e ∉ after
    → last_of d (before ++ after)
      ≡ (if last_of e after == e then last_of d before else last_of e after)
tail_left d e before [] out =
    let mine : (e == e) ≡ true = ground arith in rw (append-nil, mine) refl
tail_left d e before (y ∷ ys) out =
    let other : (last_of y ys == e) ≡ false =
      ground (arith, has_at e (last_of y ys) (y ∷ ys) out (last_of-in y ys)) in
    rw other (last_of-behind d y before ys)

module _ (q : Queue) (e : ℕ) (before after : List ℕ) (is : IsQueue q (before ++ e ∷ after)) where
  out_of_rest : (e ∉ before) × (e ∉ after)
  out_of_rest = Distinct-middle before e after is.distinct

  -- The two writes that are left once the element is out of the chain.
  settled :
      (q1 : Queue)
      → Run q1.next q1.head (before ++ after)
      → (q1.tail ≡ q.tail) × (q1.count ≡ q.count)
      → IsQueue
          (let q2 : Queue = if q1.tail == e then record q1 { tail = last_of null before } else q1 in
            record q2 { count = dec32 q2.count; next = link q2.next e null })
          (before ++ after)
  settled q1 r (tail, count) =
      let (out_b, out_a) = out_of_rest in
      let gone : e ∉ before ++ after = ground (arith, has-append e before after, out_b, out_a) in
      let run = Run-link q1.next e null q1.head (before ++ after) gone r in
      let len = length-append before after in
      let len' = length-append before (e ∷ after) in
      let last : q1.tail ≡ last_of e after = tail ∙ is.tail ∙ last_of-behind null e before after in
      let left = tail_left null e before after out_a in
      elim (Bool-cases (q1.tail == e)) [
        | inl c ↦
            let c' : (last_of e after == e) ≡ true = rw last at c in
            rw c (record {
              run = run;
              tail = sym (left ∙ rw c' refl);
              distinct = Distinct-remove before e after is.distinct;
              count = omega (arith, count, is.count, is.small, len, len');
              small = omega (arith, is.small, len, len');
            })
        | inr c ↦
            let c' : (last_of e after == e) ≡ false = rw last at c in
            rw c (record {
              run = run;
              tail = last ∙ sym (left ∙ rw c' refl);
              distinct = Distinct-remove before e after is.distinct;
              count = omega (arith, count, is.count, is.small, len, len');
              small = omega (arith, is.small, len, len');
            })
      ]

unlink-IsQueue :
    (q : Queue) (e : ℕ) (before after : List ℕ)
    → IsQueue q (before ++ e ∷ after)
    → IsQueue (unlink q (last_of null before) e e) (before ++ after)
unfolding unlink
unlink-IsQueue q e [] after is =
    settled q e [] after is (record q { head = q.next e }) (is.run.2) (refl, refl)
unlink-IsQueue q e (x ∷ zs) after is =
    let l = last_of x zs in
    let here : l ∈ x ∷ zs ++ e ∷ after =
      has-append l (x ∷ zs) (e ∷ after) ∙ ground (arith, last_of-in x zs) in
    let nz : (l == null) ≡ false =
      ground (arith, Run-not_null q.next q.head (x ∷ zs ++ e ∷ after) l is.run here) in
    rw nz (
      settled q e (x ∷ zs) after is (record q { next = link q.next l (q.next e) })
        (Run-unlink q.next q.head x zs e after is.distinct is.run) (refl, refl))

-- queue_remove on a well-formed queue: where the element is in the queue, it is taken out, the
-- others staying in their order, and the result is 1; otherwise nothing changes and the result is
-- 0. The search terminates.
pub queue_remove-IsQueue :
    (q : Queue) (xs : List ℕ) (e : ℕ)
    → IsQueue q xs
    → ((e ∈ xs) × ((q' : Queue) × (queue_remove q e ≡ some (true, q')) × IsQueue q' (erase e xs)))
      ⊎ ((e ∉ xs) × (queue_remove q e ≡ some (false, q)))
unfolding queue_remove
queue_remove-IsQueue q xs e is =
    let enough : length xs < q.count + 1 = omega (arith, is.count) in
    elim (Bool-cases (has e xs)) [
      | inr out ↦ inr (out, remove_from-none (q.count + 1) q null q.head e xs is.run out enough)
      | inl there ↦
          let (before, after, whole, first, rest) = first_split e xs there in
          let is' : IsQueue q (before ++ e ∷ after) = rw whole at is in
          inl (
            there,
            (
              unlink q (last_of null before) e e,
              remove_from-split (q.count + 1) q null q.head e before after is'.run first
                  (rw whole at enough),
              rw rest (unlink-IsQueue q e before after is'),
            ),
          )
    ]

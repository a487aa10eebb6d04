-- ===== src/HashTable/Remove.antt =====
-- Removal keeps the table well-formed, and takes out the element and no other.
use phlox.Common.{
  ℕ, zero, suc, ◌+◌, ◌<◌, ◌≡◌, ◌⊎◌, ◌∙◌, ap, sym, refl, inl, inr, true, false, some, List, [], ◌∷◌,
  ◌++◌, length, ◌∈◌, ◌∉◌, Distinct, has, has-append, erase, ◌==◌, ==_iff, if◌then◌else◌, arith,
  dec32, Bool-cases, length-append, Distinct-remove,
}
use mathlib.Core.Path.{subst}
use phlox.Common.Chains.{
  null, link, Run, Run-link, last_of, last_of-in, Run-not_null, Run-unlink, first_split,
}
use phlox.HashTable.{HashTable, hash_elem, unlink_elem, remove_from, hash_table_remove}
use phlox.Common.Total.{one_if_used, put, total-put, used-le-total, length-le-total}
use phlox.HashTable.Valid.{IsTable}
use phlox.HashTable.Change.{not_in_others, used_head}

-- The loop stops at the first occurrence of the element, with its predecessor.
remove_from-split :
    (n : ℕ) (t : HashTable) (h last p e : ℕ) (before after : List ℕ)
    → Run t.next p (before ++ e ∷ after)
    → e ∉ before
    → length (before ++ e ∷ after) < n
    → remove_from n t h last p e ≡ some (true, unlink_elem t h (last_of last before) e)
unfolding remove_from
remove_from-split zero t h last p e before after r out lt = absurd (omega arith)
remove_from-split (suc n) t h last p e [] after (at, ne, r) out lt =
    let more : (p == null) ≡ false = ground (arith, at, ne) in
    let mine : (e == e) ≡ true = ground arith in rw (more, at, mine) refl
remove_from-split (suc n) t h last p e (x ∷ before) after (at, nx, r) out lt =
    let more : (p == null) ≡ false = ground (arith, at, nx) in
    let other : (x == e) ≡ false = ground (arith, out) in
    rw (more, at, other)
      (remove_from-split n t h x (t.next x) e before after r (ground (arith, out)) (omega arith))

remove_from-none :
    (n : ℕ) (t : HashTable) (h last p e : ℕ) (xs : List ℕ)
    → Run t.next p xs
    → e ∉ xs
    → length xs < n
    → remove_from n t h last p e ≡ some (false, t)
unfolding remove_from
remove_from-none zero t h last p e xs r out lt = absurd (omega arith)
remove_from-none (suc n) t h last p e [] r out lt =
    let end : (p == null) ≡ true = ground (arith, r) in rw end refl
remove_from-none (suc n) t h last p e (x ∷ xs) (at, nx, r) out lt =
    let more : (p == null) ≡ false = ground (arith, at, nx) in
    let other : (x == e) ≡ false = ground (arith, out) in
    rw (more, at, other)
      (remove_from-none n t h x (t.next x) e xs r (ground (arith, out)) (omega arith))

module _ (t : HashTable) (chains : ℕ → List ℕ) (h e : ℕ) (after : List ℕ) (is : IsTable t chains)
    (lt : h < t.table_size) where
  -- The chains that are not changed, and the counts, whichever link is written.
  removed-IsTable :
      (before : List ℕ) (t' : HashTable)
      → chains h ≡ before ++ e ∷ after
      → Run t'.next (t'.table h) (before ++ after)
      → ((k : ℕ) → k < t.table_size → (k == h) ≡ false → Run t'.next (t'.table k) (chains k))
      → (t'.table_size ≡ t.table_size)
        × (t'.hash_func ≡ t.hash_func)
        × (t'.num_elems ≡ dec32 t.num_elems)
        × (t'.num_buckets ≡ (if t'.table h == null then dec32 t.num_buckets else t.num_buckets))
      → IsTable t' (put chains h (before ++ after))
  removed-IsTable before t' whole mine others (size, hash, elems, buckets) =
      let counts = total-put t.table_size h chains (before ++ after) lt in
      let len : length (chains h) ≡ suc (length (before ++ after)) =
        rw whole (omega (arith, length-append before after, length-append before (e ∷ after))) in
      let le = used-le-total t.table_size (put chains h (before ++ after)) in
      let one : one_if_used (chains h) ≡ 1 = ground (arith, len) in
      let same_hash : (a : ℕ) → hash_elem t' a ≡ hash_elem t a = λ a.
        ap (λ (f : ℕ → ℕ → ℕ → ℕ). f a null t'.table_size) hash
        ∙ ap (λ s. t.hash_func a null s) size in
      record {
        hashed = λ a. rw (same_hash a, size) (is.hashed a);
        run = λ k k_lt. elim (Bool-cases (k == h)) [
          | inl eq ↦ rw eq (
              subst (λ j. Run t'.next (t'.table j) (before ++ after)) (sym ((==_iff k h).0 eq))
                mine)
          | inr ne ↦ rw ne (others k (rw size at k_lt) ne)
        ];
        distinct = λ k k_lt. elim (Bool-cases (k == h)) [
          | inl eq ↦ rw eq (Distinct-remove before e after (rw whole at (is.distinct h lt)))
          | inr ne ↦ rw ne (is.distinct k (rw size at k_lt))
        ];
        placed = λ k a k_lt i. same_hash a ∙ (elim (Bool-cases (k == h)) [
          | inl eq ↦
              let here : a ∈ before ++ after = rw eq at i in
              let there : a ∈ chains h = rw whole (
                ground (arith, here, has-append a before after, has-append a before (e ∷ after))) in
              is.placed h a lt there ∙ sym ((==_iff k h).0 eq)
          | inr ne ↦ is.placed k a (rw size at k_lt) (rw ne at i)
        ]);
        num_elems = rw size (omega (arith, elems, is.num_elems, is.small, counts, len));
        num_buckets = rw size (
            ground (
              arith,
              buckets,
              is.num_buckets,
              is.small,
              counts,
              one,
              le,
              len,
              used_head t'.next (t'.table h) (before ++ after) mine,
            ));
        small = rw size (omega (arith, is.small, counts, len));
      }

  -- Other chains keep their links when one of an element of this chain is written.
  others_kept :
      (l v k : ℕ)
      → l ∈ chains h
      → k < t.table_size
      → (k == h) ≡ false
      → Run (link t.next l v) (t.table k) (chains k)
  others_kept l v k there k_lt ne =
      let at : hash_elem t l ≡ h = is.placed h l lt there in
      Run-link t.next l v (t.table k) (chains k) (not_in_others t chains l k is k_lt (rw at ne))
        (is.run k k_lt)

  unlink_elem-IsTable :
      (before : List ℕ)
      → chains h ≡ before ++ e ∷ after
      → IsTable (unlink_elem t h (last_of null before) e) (put chains h (before ++ after))
  unfolding unlink_elem
  unlink_elem-IsTable [] whole =
      let r : Run t.next (t.table h) (e ∷ after) = rw whole at (is.run h lt) in
      let head : link t.table h (t.next e) h ≡ t.next e = ground arith in
      removed-IsTable [] (unlink_elem t h null e) whole
        (subst (λ p. Run t.next p after) (sym head) r.2) (λ k k_lt ne. rw ne (is.run k k_lt))
        (refl, refl, refl, refl)
  unlink_elem-IsTable (x ∷ zs) whole =
      let r : Run t.next (t.table h) (x ∷ zs ++ e ∷ after) = rw whole at (is.run h lt) in
      let d : Distinct (x ∷ zs ++ e ∷ after) = rw whole at (is.distinct h lt) in
      let l = last_of x zs in
      let here : l ∈ x ∷ zs ++ e ∷ after =
        has-append l (x ∷ zs) (e ∷ after) ∙ ground (arith, last_of-in x zs) in
      let not_null = Run-not_null t.next (t.table h) (x ∷ zs ++ e ∷ after) l r here in
      let nz : (l == null) ≡ false = ground (arith, not_null) in
      let there : l ∈ chains h = rw whole here in
      let t' : HashTable = record t {
        next = link t.next l (t.next e);
        num_buckets = if t.table h == null then dec32 t.num_buckets else t.num_buckets;
        num_elems = dec32 t.num_elems;
      } in
      rw nz (
        removed-IsTable (x ∷ zs) t' whole (Run-unlink t.next (t.table h) x zs e after d r)
          (λ k k_lt ne. others_kept l (t.next e) k there k_lt ne) (refl, refl, refl, refl))

-- hash_table_remove in a well-formed table: where the element is in the table, it is taken out of
-- its chain, the others staying in their order, the counts of elements and of used buckets follow,
-- and the result is 0; otherwise nothing changes and the result is 1. The search terminates.
pub hash_table_remove-IsTable :
    (t : HashTable) (chains : ℕ → List ℕ) (e : ℕ)
    → IsTable t chains
    → ((e ∈ chains (hash_elem t e))
        × ((t' : HashTable) × (hash_table_remove t e ≡ some (true, t'))
            × IsTable t' (put chains (hash_elem t e) (erase e (chains (hash_elem t e))))))
      ⊎ ((e ∉ chains (hash_elem t e)) × (hash_table_remove t e ≡ some (false, t)))
unfolding hash_table_remove
hash_table_remove-IsTable t chains e is =
    let h = hash_elem t e in
    let lt = is.hashed e in
    let enough : length (chains h) < t.num_elems + 1 =
      omega (arith, is.num_elems, length-le-total t.table_size h chains lt) in
    elim (Bool-cases (has e (chains h))) [
      | inr out ↦ inr (
        out,
        remove_from-none (t.num_elems + 1) t h null (t.table h) e (chains h) (is.run h lt) out
            enough,
      )
      | inl there ↦
          let (before, after, whole, first, rest) = first_split e (chains h) there in
          inl (
            there,
            (
              unlink_elem t h (last_of null before) e,
              remove_from-split (t.num_elems + 1) t h null (t.table h) e before after
                  (rw whole at (is.run h lt)) first (rw whole at enough),
              rw rest (unlink_elem-IsTable t chains h e after is lt before whole),
            ),
          )
    ]

-- ===== src/HashTable/Change.antt =====
-- Insertion, removal and search keep the table well-formed, and do what they say of its elements.
use phlox.Common.{
  ℕ, zero, suc, ◌+◌, ◌<◌, ◌≡◌, ◌≢◌, ◌⊎◌, ◌∙◌, ap, sym, refl, inl, inr, Bool, true, false, Option,
  none, some, List, [], ◌∷◌, ◌++◌, length, ◌∈◌, ◌∉◌, has, ◌==◌, ==_iff, if◌then◌else◌, arith,
  u32_mod, Bool-cases, has-append,
}
use phlox.Common.Chains.{null, Run, Run-link}
use phlox.HashTable.{
  HashTable, hash_elem, prepend, hash_table_insert, search_chain, hash_table_insert_safe,
  hash_table_find,
}
use phlox.Common.Total.{one_if_used, put, total-put, used-le-total, length-le-total}
use phlox.HashTable.Valid.{IsTable}

-- An element is in no chain but that of its hash.
pub not_in_others :
    (t : HashTable) (chains : ℕ → List ℕ) (e h : ℕ)
    → IsTable t chains
    → h < t.table_size
    → (h == hash_elem t e) ≡ false
    → e ∉ chains h
not_in_others t chains e h is lt other = elim (Bool-cases (has e (chains h))) [
  | inl i ↦ absurd (ground (arith, is.placed h e lt i, other))
  | inr o ↦ o
]

-- A bucket is used where its chain is not empty.
pub used_head :
    (next : ℕ → ℕ) (p : ℕ) (xs : List ℕ)
    → Run next p xs
    → one_if_used xs ≡ (if p == null then 0 else 1)
used_head next p [] r = ground arith
used_head next p (x ∷ xs) (at, nz, r) = ground (arith, at, nz)

prepend-IsTable :
    (t : HashTable) (chains : ℕ → List ℕ) (e h : ℕ)
    → IsTable t chains
    → hash_elem t e ≡ h
    → h < t.table_size
    → e ≢ null
    → e ∉ chains h
    → t.num_elems + 1 < u32_mod
    → IsTable (prepend t h e) (put chains h (e ∷ chains h))
unfolding prepend
prepend-IsTable t chains e h is at lt nz new room =
    let counts = total-put t.table_size h chains (e ∷ chains h) lt in
    let le = used-le-total t.table_size chains in
    let old = is.run h lt in
    record {
      hashed = is.hashed;
      run = λ k k_lt. elim (Bool-cases (k == h)) [
        | inl eq ↦ rw eq (
          refl,
          nz,
          (let mine : (e == e) ≡ true = ground arith in
              rw mine (Run-link t.next e (t.table h) (t.table h) (chains h) new old)),
        )
        | inr ne ↦ rw ne (
            Run-link t.next e (t.table h) (t.table k) (chains k)
              (not_in_others t chains e k is k_lt (rw at ne)) (is.run k k_lt))
      ];
      distinct = λ k k_lt. elim (Bool-cases (k == h)) [
        | inl eq ↦ rw eq (new, is.distinct h lt)
        | inr ne ↦ rw ne (is.distinct k k_lt)
      ];
      placed = λ k a k_lt i. elim (Bool-cases (k == h)) [
        | inl eq ↦
            let same : k ≡ h = (==_iff k h).0 eq in
            let here : a ∈ e ∷ chains h = rw eq at i in
            elim (Bool-cases (a == e)) [
              | inl f ↦ ap (λ y. hash_elem t y) ((==_iff a e).0 f) ∙ at ∙ sym same
              | inr f ↦ is.placed h a lt (ground (arith, here, f)) ∙ sym same
            ]
        | inr ne ↦ is.placed k a k_lt (rw ne at i)
      ];
      num_elems = omega (arith, is.num_elems, counts, room);
      num_buckets = ground (
        arith,
        is.num_buckets,
        is.num_elems,
        counts,
        le,
        room,
        used_head t.next (t.table h) (chains h) old,
      );
      small = omega (arith, is.num_elems, counts, room);
    }

-- hash_table_insert of an element that is not NULL and not in a well-formed table, which stays
-- below 2 ^ 32 elements, puts it at the head of the chain of its hash, and the table stays well-
-- formed.
pub hash_table_insert-IsTable :
    (t : HashTable) (chains : ℕ → List ℕ) (e : ℕ)
    → IsTable t chains
    → e ≢ null
    → e ∉ chains (hash_elem t e)
    → t.num_elems + 1 < u32_mod
    → IsTable (hash_table_insert t e) (put chains (hash_elem t e) (e ∷ chains (hash_elem t e)))
unfolding hash_table_insert
hash_table_insert-IsTable t chains e is nz new room =
    prepend-IsTable t chains e (hash_elem t e) is refl (is.hashed e) nz new room

-- What a search of a chain returns: the first element that passes the test.
pub Searched : List ℕ → (ℕ → Bool) → Option (Option ℕ) → Type 0
Searched xs test r =
    ((r ≡ some none) × ((a : ℕ) → a ∈ xs → test a ≡ false))
    ⊎ ((a : ℕ) × (before : List ℕ) × (after : List ℕ) × (r ≡ some (some a))
        × (xs ≡ before ++ a ∷ after)
        × (test a ≡ true)
        × ((b : ℕ) → b ∈ before → test b ≡ false))

search_chain-Searched :
    (n : ℕ) (next : ℕ → ℕ) (p : ℕ) (xs : List ℕ) (test : ℕ → Bool)
    → Run next p xs
    → length xs < n
    → Searched xs test (search_chain n next p test)
unfolding search_chain Searched
search_chain-Searched zero next p xs test r lt = absurd (omega arith)
search_chain-Searched (suc n) next p [] test r lt =
    let end : (p == null) ≡ true = ground (arith, r) in inl (rw end refl, λ a i. absurd (cc))
search_chain-Searched (suc n) next p (x ∷ xs) test (at, nz, r) lt =
    let more : (p == null) ≡ false = ground (arith, at, nz) in
    elim (Bool-cases (test x)) [
      | inl hit ↦ inr (x, [], xs, rw (more, at, hit) refl, refl, hit, λ b i. absurd (cc))
      | inr miss ↦ elim (search_chain-Searched n next (next x) xs test r (omega arith)) [
        | inl (run, all) ↦ inl (
          rw (more, at, miss) run,
          λ a i. elim (Bool-cases (a == x)) [
            | inl e ↦ ap test ((==_iff a x).0 e) ∙ miss
            | inr e ↦ all a (ground (arith, i, e))
          ],
        )
        | inr (a, before, after, run, whole, hit, first) ↦ inr (
          a,
          x ∷ before,
          after,
          rw (more, at, miss) run,
          ap (λ l. x ∷ l) whole,
          hit,
          λ b i. elim (Bool-cases (b == x)) [
            | inl e ↦ ap test ((==_iff b x).0 e) ∙ miss
            | inr e ↦ first b (ground (arith, i, e))
          ],
        )
      ]
    ]

search-Searched :
    (t : HashTable) (chains : ℕ → List ℕ) (h : ℕ) (test : ℕ → Bool)
    → IsTable t chains
    → h < t.table_size
    → Searched (chains h) test (search_chain (t.num_elems + 1) t.next (t.table h) test)
search-Searched t chains h test is lt =
    search_chain-Searched (t.num_elems + 1) t.next (t.table h) (chains h) test (is.run h lt)
      (omega (arith, is.num_elems, length-le-total t.table_size h chains lt))

-- hash_table_find in a well-formed table terminates and returns the element where the table has
-- it, and NULL where it does not.
pub hash_table_find-IsTable :
    (t : HashTable) (chains : ℕ → List ℕ) (e : ℕ)
    → IsTable t chains
    → hash_table_find t e ≡ some (if has e (chains (hash_elem t e)) then some e else none)
unfolding hash_table_find Searched
hash_table_find-IsTable t chains e is =
    elim (search-Searched t chains (hash_elem t e) (λ i. i == e) is (is.hashed e)) [
      | inl (run, all) ↦ elim (Bool-cases (has e (chains (hash_elem t e)))) [
        | inl i ↦ absurd (ground (arith, all e i))
        | inr o ↦ rw o run
      ]
      | inr (a, before, after, run, whole, hit, first) ↦
          let same : a ≡ e = (==_iff a e).0 hit in
          let there : has e (chains (hash_elem t e)) ≡ true =
            rw whole (has-append e before (a ∷ after) ∙ ground (arith, same)) in
          rw there (run ∙ ap (λ x. some (some x)) same)
    ]

-- hash_table_insert_safe in a well-formed table with room below 2 ^ 32 elements: where the
-- element, which is not NULL, is in the table already, nothing changes and the result is 1;
-- otherwise it becomes the head of the chain of its hash, the table stays well-formed and the
-- result is 0.
pub hash_table_insert_safe-IsTable :
    (t : HashTable) (chains : ℕ → List ℕ) (e : ℕ)
    → IsTable t chains
    → e ≢ null
    → t.num_elems + 1 < u32_mod
    → ((e ∈ chains (hash_elem t e)) × (hash_table_insert_safe t e ≡ some (false, t)))
      ⊎ ((t' : HashTable) × (hash_table_insert_safe t e ≡ some (true, t'))
          × IsTable t' (put chains (hash_elem t e) (e ∷ chains (hash_elem t e))))
unfolding hash_table_insert_safe Searched
hash_table_insert_safe-IsTable t chains e is nz room =
    elim (search-Searched t chains (hash_elem t e) (λ i. i == e) is (is.hashed e)) [
      | inl (run, all) ↦ elim (Bool-cases (has e (chains (hash_elem t e)))) [
        | inl i ↦ absurd (ground (arith, all e i))
        | inr o ↦ inr (
          prepend t (hash_elem t e) e,
          rw (run, hash_table_insert_safe) refl,
          prepend-IsTable t chains e (hash_elem t e) is refl (is.hashed e) nz o room,
        )
      ]
      | inr (a, before, after, run, whole, hit, first) ↦
          let same : a ≡ e = (==_iff a e).0 hit in
          let there : has e (chains (hash_elem t e)) ≡ true =
            rw whole (has-append e before (a ∷ after) ∙ ground (arith, same)) in
          inl (there, rw (run, hash_table_insert_safe) refl)
    ]

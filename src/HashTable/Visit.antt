-- ===== src/HashTable/Visit.antt =====
-- The iterator visits every element once, bucket after bucket and each chain in its order.
use phlox.Common.{
  ℕ, zero, suc, ◌+◌, ◌-◌, ◌%◌, ◌≤◌, ◌<◌, ◌≡◌, ◌≢◌, ◌⊎◌, ◌∙◌, ap, sym, refl, inl, inr, true, false,
  Option, some, List, [], ◌∷◌, ◌++◌, length, length-append, List-cases, ◌==◌, ◌&&◌, ltb, arith,
  u32_mod,
}
use mathlib.Core.Path.{subst}
use phlox.Common.Chains.{null, Run}
use phlox.HashTable.{HashTable}
use phlox.HashTable.Iterate.{
  Iterator, hash_table_rewind, scan_buckets, advance, next_loop, hash_table_next, foreach_from,
  hash_table_foreach,
}
use phlox.Common.Total.{total}
use phlox.HashTable.Valid.{IsTable}

-- The elements of `n` chains from `h` on.
unfoldable pub elems : ℕ → (ℕ → List ℕ) → (h : ℕ) → List ℕ
elems zero chains h = []
elems (suc n) chains h = chains h ++ elems n chains (h + 1)

-- What the scan finds: a used bucket `j`, behind unused ones, or no more elements.
abbrev Scanned : (n : ℕ) (next table : ℕ → ℕ) → (ℕ → List ℕ) → (i index : ℕ) → List ℕ → Type 0
Scanned n next table chains i index es =
    ((index ≡ i + n) × (es ≡ []))
    ⊎ ((j : ℕ) × (k : ℕ) × (z : ℕ) × (zs : List ℕ) × (index ≡ j)
        × (j + 1 + k ≡ i + n)
        × (table j ≡ z)
        × (z ≢ null)
        × Run next (next z) zs
        × (es ≡ z ∷ zs ++ elems k chains (j + 1)))

scan_buckets-Scanned :
    (n : ℕ) (next table : ℕ → ℕ) (chains : ℕ → List ℕ) (i : ℕ)
    → ((h : ℕ) → h < i + n → Run next (table h) (chains h))
    → Scanned n next table chains i (scan_buckets n table i) (elems n chains i)
unfolding scan_buckets elems
scan_buckets-Scanned zero next table chains i r = inl (omega arith, refl)
scan_buckets-Scanned (suc n) next table chains i r =
    let here = r i (omega arith) in
    elim (List-cases (chains i)) [
      | inl e ↦
          let unused : (table i == null) ≡ true =
            let q : Run next (table i) [] = rw e at here in ground (arith, q) in
          elim (scan_buckets-Scanned n next table chains (i + 1) (λ h lt. r h (omega arith))) [
            | inl (at, none_left) ↦ inl (rw unused (omega (arith, at)), rw (e, none_left) refl)
            | inr (j, k, z, zs, at, count, head, nz, run, whole) ↦
                inr (j, k, z, zs, rw unused at, omega arith, head, nz, run, rw (e, whole) refl)
          ]
      | inr (z, zs, e) ↦
          let q : Run next (table i) (z ∷ zs) = rw e at here in
          let (head, nz, run) = q in
          let is_used : (table i == null) ≡ false = ground (arith, head, nz) in
          inr (i, n, z, zs, rw is_used refl, omega arith, head, nz, run, rw e refl)
    ]

module _ (t : HashTable) (chains : ℕ → List ℕ) (is : IsTable t chains)
    (small : t.table_size < u32_mod) where
  -- The elements that are still to come, behind the node of an iterator.
  Ahead : Iterator → List ℕ → Type 0
  Ahead i es =
      ((i.node ≡ null)
        × ((i.bucket + 1) % u32_mod ≤ t.table_size)
        × (es ≡ elems (t.table_size - (i.bucket + 1) % u32_mod) chains ((i.bucket + 1) % u32_mod)))
      ⊎ ((ys : List ℕ) × (i.node ≢ null)
          × (i.bucket < t.table_size)
          × Run t.next (t.next i.node) ys
          × (es ≡ ys ++ elems (t.table_size - (i.bucket + 1)) chains (i.bucket + 1)))

  -- What one call returns: the first of them, or NULL where there is none.
  Stepped : List ℕ → Option Iterator → Type 0
  Stepped es r =
      ((i' : Iterator) × (r ≡ some i') × (i'.node ≡ null) × (es ≡ []))
      ⊎ ((i' : Iterator) × (e : ℕ) × (rest : List ℕ) × (r ≡ some i')
          × (i'.node ≡ e)
          × (e ≢ null)
          × (es ≡ e ∷ rest)
          × Ahead i' rest)

  -- The loop ends after a round that finds an element, or no more buckets.
  stops :
      (n : ℕ) (i i' : Iterator)
      → advance t i ≡ i'
      → ((i'.node == null) && ltb i'.bucket t.table_size) ≡ false
      → next_loop (suc n) t i ≡ some i'
  unfolding next_loop
  stops n i i' adv out = rw (adv, out) refl

  -- From the end of a chain: the scan for the next bucket.
  scanned :
      (n : ℕ) (i : Iterator) (es : List ℕ)
      → i.node ≡ null
      → (i.bucket + 1) % u32_mod ≤ t.table_size
      → es ≡ elems (t.table_size - (i.bucket + 1) % u32_mod) chains ((i.bucket + 1) % u32_mod)
      → Stepped es (next_loop (suc n) t i)
  unfolding Stepped Ahead advance
  scanned n i es at_end low whole =
      let start = (i.bucket + 1) % u32_mod in
      let rounds = t.table_size - start in
      let null_node : (i.node == null) ≡ true = ground (arith, at_end) in
      elim (scan_buckets-Scanned rounds t.next t.table chains start
        (λ h lt. is.run h (omega (arith, low)))) [
          | inl (at, none_left) ↦
              let i' : Iterator = record { node = i.node; bucket = t.table_size } in
              let last : scan_buckets rounds t.table start ≡ t.table_size =
                omega (arith, at, low) in
              let out : ltb t.table_size t.table_size ≡ false = ground arith in
              let adv : advance t i ≡ i' = rw (null_node, last, out) refl in
              inl (i', stops n i i' adv (rw out (ground arith)), at_end, whole ∙ none_left)
          | inr (j, k, z, zs, at, count, head, nz, run, found) ↦
              let i' : Iterator = record { node = t.table j; bucket = j } in
              let inside : ltb j t.table_size ≡ true = ground (arith, count, low) in
              let adv : advance t i ≡ i' = rw (null_node, at, inside) refl in
              let used_bucket : (t.table j == null) ≡ false = ground (arith, head, nz) in
              let left : t.table_size - (j + 1) ≡ k = omega (arith, count, low) in
              inr (
                i',
                z,
                zs ++ elems k chains (j + 1),
                stops n i i' adv (rw used_bucket refl),
                head,
                nz,
                whole ∙ found,
                inr (
                  zs,
                  subst (λ y. y ≢ null) (sym head) nz,
                  omega (arith, count, low),
                  subst (λ y. Run t.next (t.next y) zs) (sym head) run,
                  rw left refl,
                ),
              )
        ]

  goes_on :
      (n : ℕ) (i i' : Iterator)
      → advance t i ≡ i'
      → ((i'.node == null) && ltb i'.bucket t.table_size) ≡ true
      → next_loop (suc n) t i ≡ next_loop n t i'
  unfolding next_loop
  goes_on n i i' adv more = rw (adv, more) refl

  hash_table_next-Stepped :
      (i : Iterator) (es : List ℕ) → Ahead i es → Stepped es (hash_table_next t i)
  unfolding hash_table_next Ahead Stepped advance
  hash_table_next-Stepped i es (inl (at_end, low, whole)) = scanned 1 i es at_end low whole
  hash_table_next-Stepped i es (inr ([], nz, inside, run, whole)) =
      let not_end : (i.node == null) ≡ false = ground (arith, nz) in
      let i' : Iterator = record i { node = t.next i.node } in
      let adv : advance t i ≡ i' = rw not_end refl in
      let over : ((i'.node == null) && ltb i'.bucket t.table_size) ≡ true =
        ground (arith, run, inside) in
      let start : (i.bucket + 1) % u32_mod ≡ i.bucket + 1 = omega (arith, inside, small) in
      subst (λ r. Stepped es r) (sym (goes_on 1 i i' adv over))
        (scanned 0 i' es run (omega (arith, inside, start)) (rw start whole))
  hash_table_next-Stepped i es (inr (y ∷ ys, nz, inside, (at, ny, run), whole)) =
      let not_end : (i.node == null) ≡ false = ground (arith, nz) in
      let i' : Iterator = record i { node = t.next i.node } in
      let adv : advance t i ≡ i' = rw not_end refl in
      let more : (t.next i.node == null) ≡ false = ground (arith, at, ny) in
      inr (
        i',
        y,
        ys ++ elems (t.table_size - (i.bucket + 1)) chains (i.bucket + 1),
        stops 1 i i' adv (rw more refl),
        at,
        ny,
        whole,
        inr (
          ys,
          subst (λ z. z ≢ null) (sym at) ny,
          inside,
          subst (λ z. Run t.next (t.next z) ys) (sym at) run,
          refl,
        ),
      )

  foreach_from-Ahead :
      (n : ℕ) (i : Iterator) (es : List ℕ)
      → Ahead i es
      → length es < n
      → foreach_from n t i ≡ some es
  unfolding foreach_from Stepped
  foreach_from-Ahead zero i es a lt = absurd (omega arith)
  foreach_from-Ahead (suc n) i es a lt = elim (hash_table_next-Stepped i es a) [
    | inl (i', run, at_end, none_left) ↦
        let end : (i'.node == null) ≡ true = ground (arith, at_end) in
        rw (run, foreach_from) (rw (end, none_left) refl)
    | inr (i', e, rest, run, at, nz, whole, later) ↦
        let more : (i'.node == null) ≡ false = ground (arith, at, nz) in
        let fewer : length rest < n =
          let len : length es ≡ suc (length rest) = ap (λ l. length l) whole in
          omega (arith, len, lt) in
        rw (run, foreach_from)
          (rw (more, foreach_from-Ahead n i' rest later fewer, whole)
            (ap (λ y. some (y ∷ rest)) at))
  ]

length-elems :
    (n : ℕ) (chains : ℕ → List ℕ) (h : ℕ)
    → length (elems n chains h) + total h chains ≡ total (h + n) chains
unfolding elems total
length-elems zero chains h = let at : h + 0 ≡ h = omega arith in rw at (omega arith)
length-elems (suc n) chains h =
    let later = length-elems n chains (h + 1) in
    let at : h + 1 + n ≡ h + suc n = omega arith in
    let one : h + 1 ≡ suc h = omega arith in
    let step : total (h + 1) chains ≡ total h chains + length (chains h) = rw one refl in
    omega (arith, rw at at later, step, length-append (chains h) (elems n chains (h + 1)))

-- hash_table_foreach on a well-formed table of less than 2 ^ 32 buckets calls the callback for
-- exactly its elements, once each: bucket after bucket, and each chain from its head on; fuel of
-- one more than the number of elements is enough.
pub hash_table_foreach-elems :
    (t : HashTable) (chains : ℕ → List ℕ)
    → IsTable t chains
    → t.table_size < u32_mod
    → hash_table_foreach t ≡ some (elems t.table_size chains 0)
unfolding hash_table_foreach hash_table_rewind total Ahead
hash_table_foreach-elems t chains is small =
    let len = length-elems t.table_size chains 0 in
    let at : 0 + t.table_size ≡ t.table_size = omega arith in
    let start : (u32_mod - 1 + 1) % u32_mod ≡ 0 = omega arith in
    foreach_from-Ahead t chains is small (t.num_elems + 1) hash_table_rewind
      (elems t.table_size chains 0)
      (inl (
        refl,
        omega (arith, start),
        rw (start, (let same : t.table_size - 0 ≡ t.table_size = omega arith in same)) refl,
      ))
      (omega (arith, rw at at len, is.num_elems))

-- ===== src/Heap/Malloc.antt =====
-- `kmalloc` gives a block that no live block shares an address with.
use phlox.Common.{
  ℕ, ◌+◌, ◌-◌, ◌/◌, ◌<◌, ◌≤◌, ◌≡◌, ◌⊎◌, refl, ◌∙◌, inl, inr, true, Option, none, some, List, [],
  ◌∷◌, ◌∉◌, ◌==◌, inc32, arith, Bool-cases, ==_iff, List-cases,
}
use mathlib.Core.Path.{subst}
use phlox.Heap.{
  Heap, HeapBin, HeapPage, element_size, grow_size, page_size, bin_count, page_of, put_bin, carve,
  some_raw, take_block, find_bin, kmalloc, counted, count_down, count_pages,
}
use phlox.Heap.Owner.{Owner, raw, block, IsBin, IsHeap}
use phlox.Heap.Sizes.{find_bin-first, raw_blocks-pos}
use phlox.Heap.Claim.{set_live, claim}
use phlox.Heap.Table.{count_pages-bin}
use phlox.Heap.Alloc.{pop-IsHeap}
use phlox.Heap.Grow.{carve-IsHeap, raw_alloc-some, grown, grown-IsHeap}

-- The heap has room for the raw blocks of a bin.
abbrev pub Overgrown : Heap → (bin_index : ℕ) → Type 0
Overgrown h b = h.base + h.size < h.base_ptr + grow_size b

-- A block of a bin is given, and nothing else changes hands.
abbrev pub Given : (live : ℕ → List ℕ) → (bin_index address : ℕ) → Heap → Type 0
Given live b address h =
    (address ∉ live b) × ((owner : ℕ → Owner) × IsHeap owner (set_live live b (address ∷ live b)) h)

-- A bin without a block, and a heap without room for the next.
abbrev pub Exhausted : Heap → (bin_index : ℕ) → Type 0
Exhausted h b = ((h.bins b).free_list ≡ []) × ((h.bins b).raw_count ≡ 0) × Overgrown h b

abbrev pub Taken : (live : ℕ → List ℕ) → Heap → (bin_index : ℕ) → Option (ℕ × Heap) → Type 0
Taken live h b none = Exhausted h b
Taken live h b (some (address, h')) = Given live b address h'

carved :
    (owner : ℕ → Owner) (live : ℕ → List ℕ) (h h0 : Heap) (b : ℕ)
    → IsHeap owner live h
    → b < bin_count
    → 0 < (h.bins b).raw_count
    → Taken live h0 b (some (carve h b))
carved owner live h h0 b is lt nz =
    let made = carve-IsHeap owner live h b is lt nz in
    (
      made.0,
      (
        claim owner (h.bins b).raw_list ((h.bins b).raw_list + element_size b)
            (block b (h.bins b).raw_list),
        made.1,
      ),
    )

some_raw-Taken :
    (owner : ℕ → Owner) (live : ℕ → List ℕ) (h : Heap) (b : ℕ)
    → IsHeap owner live h
    → b < bin_count
    → (h.bins b).free_list ≡ []
    → Taken live h b (elim (some_raw h b) [ none ↦ none | some h' ↦ some (carve h' b) ])
some_raw-Taken owner live h b is lt empty = elim (Bool-cases ((h.bins b).raw_count == 0)) [
  | inr f ↦ rw f (carved owner live h h b is lt (ground (arith, f)))
  | inl t ↦ elim (raw_alloc-some owner live h b is lt) [
    | inr (e, over) ↦ rw t (rw e (empty, ground (arith, t), over))
    | inl (e, room) ↦
        let self : (b == b) ≡ true = (==_iff b b).1 refl in
        let some_blocks : 0 < ((grown h b).bins b).raw_count = rw self (raw_blocks-pos b).0 in
        rw t (
          rw e (
            carved (claim owner h.base_ptr (h.base_ptr + grow_size b) (raw b)) live (grown h b) h b
              (grown-IsHeap owner live h b is lt room) lt some_blocks))
  ]
]

take_block-Taken :
    (owner : ℕ → Owner) (live : ℕ → List ℕ) (h : Heap) (b : ℕ)
    → IsHeap owner live h
    → b < bin_count
    → Taken live h b (take_block h b)
unfolding take_block
take_block-Taken owner live h b is lt = elim (List-cases (h.bins b).free_list) [
  | inl e ↦ rw (take_block, e) (some_raw-Taken owner live h b is lt e)
  | inr (a, rest, e) ↦
      let popped = pop-IsHeap owner live h b a rest is lt e in
      rw (take_block, e) (popped.0, (owner, popped.1))
]

-- The counts of the table are not the bins of its pages.
pub counts-IsHeap :
    (owner : ℕ → Owner) (live : ℕ → List ℕ) (h : Heap) (f : HeapPage → HeapPage) (n page : ℕ)
    → ((p : HeapPage) → (f p).bin_index ≡ p.bin_index)
    → IsHeap owner live h
    → IsHeap owner live (record h { alloc_table = count_pages f n page h.alloc_table })
counts-IsHeap owner live h f n page keeps is = record {
  is_bin = is.is_bin;
  within = is.within;
  paged = λ x. elim (is.paged x) [
    | inl n ↦ inl n
    | inr at ↦ inr (count_pages-bin f n page h.alloc_table (page_of h x) keeps ∙ at.0, at.1)
  ];
  page_base = is.page_base;
  page_ptr = is.page_ptr;
  low = is.low;
  base_le = is.base_le;
  ptr_le = is.ptr_le;
  top = is.top;
}

count-IsBin :
    (owner : ℕ → Owner) (b : ℕ) (live : List ℕ) (bin : HeapBin) (count : ℕ)
    → IsBin owner b live bin
    → IsBin owner b live (record bin { alloc_count = count })
count-IsBin owner b live bin count is = record {
  free_owned = is.free_owned;
  live_owned = is.live_owned;
  raw_owned = is.raw_owned;
  raw_aligned = is.raw_aligned;
  raw_small = is.raw_small;
  distinct_free = is.distinct_free;
  distinct_live = is.distinct_live;
  apart = is.apart;
}

pub counted-IsHeap :
    (owner : ℕ → Owner) (live : ℕ → List ℕ) (h : Heap) (b address : ℕ)
    → IsHeap owner live h
    → IsHeap owner live (counted h b address)
counted-IsHeap owner live h b address is =
    let bin = record (h.bins b) { alloc_count = inc32 (h.bins b).alloc_count } in
    counts-IsHeap owner live (put_bin h b bin) count_down (1 + (element_size b / page_size - 1))
      (page_of h address) (λ p. refl)
      (record {
        is_bin = λ i lt. elim (Bool-cases (i == b)) [
          | inl e ↦
              let same = (==_iff i b).0 e in
              rw e (
                subst
                  (λ v.
                    IsBin owner i (live i)
                      (record (h.bins v) { alloc_count = inc32 (h.bins v).alloc_count }))
                  same
                  (count-IsBin owner i (live i) (h.bins i) (inc32 (h.bins i).alloc_count)
                    (is.is_bin i lt)))
          | inr e ↦ rw e (is.is_bin i lt)
        ];
        within = is.within;
        paged = is.paged;
        page_base = is.page_base;
        page_ptr = is.page_ptr;
        low = is.low;
        base_le = is.base_le;
        ptr_le = is.ptr_le;
        top = is.top;
      })

-- What kmalloc comes to: a panic for a size above the bins, or where the first bin that is large
-- enough has no block and the heap no room for more of them; or a block of that bin.
abbrev pub Allocated : (live : ℕ → List ℕ) → Heap → (size : ℕ) → Option (ℕ × Heap) → Type 0
Allocated live h size none =
    (element_size (bin_count - 1) < size)
    ⊎ ((b : ℕ) × (b < bin_count)
        × (size ≤ element_size b)
        × ((i : ℕ) → i < b → element_size i < size)
        × Exhausted h b)
Allocated live h size (some (address, h')) =
    (b : ℕ) × (b < bin_count)
    × (size ≤ element_size b)
    × ((i : ℕ) → i < b → element_size i < size)
    × Given live b address h'

-- In a well-formed heap, kmalloc stops the system only where the size is above the largest bin, or
-- where the first bin whose blocks have the size has no free and no raw block and the heap has no
-- room for its next raw blocks; otherwise it returns a block, live nowhere before, of the first
-- bin whose blocks have the size, and the heap with that block live is well-formed.
pub kmalloc-Allocated :
    (owner : ℕ → Owner) (live : ℕ → List ℕ) (h : Heap) (size : ℕ)
    → IsHeap owner live h
    → Allocated live h size (kmalloc h size)
unfolding kmalloc
kmalloc-Allocated owner live h size is =
    let found = find_bin-first bin_count 0 size in
    elim (Bool-cases (find_bin bin_count 0 size == bin_count)) [
      | inl t ↦ rw (kmalloc, t) (inl (found.1 (bin_count - 1) (omega arith) (ground (arith, t))))
      | inr f ↦
          rw (kmalloc, f)
            (of_taken (find_bin bin_count 0 size) (ground (arith, f, found.2))
              (elim found.0 [ inl all ↦ ground (arith, f, all) | inr fits ↦ fits ])
              (λ i lt. found.1 i (omega arith) lt) (take_block h (find_bin bin_count 0 size))
              (take_block-Taken owner live h (find_bin bin_count 0 size) is
                (ground (arith, f, found.2))))
    ]
  where
    of_taken :
        (b : ℕ)
        → b < bin_count
        → size ≤ element_size b
        → ((i : ℕ) → i < b → element_size i < size)
        → (taken : Option (ℕ × Heap)) → Taken live h b taken
        → Allocated live h size
            (elim taken [ none ↦ none | some (address, h') ↦ some (address, counted h' b address) ])
    of_taken b lt fits first none out = inr (b, lt, fits, first, out)
    of_taken b lt fits first (some (address, h')) (fresh, (owner', is')) = (
      b,
      lt,
      fits,
      first,
      (
        fresh,
        (owner', counted-IsHeap owner' (set_live live b (address ∷ live b)) h' b address is'),
      ),
    )

-- ===== src/Heap/Init.antt =====
-- The heap that `heap_init` makes.
use phlox.Common.{ℕ, ◌+◌, ◌-◌, ◌*◌, ◌/◌, ◌%◌, ◌<◌, ◌≤◌, ◌≡◌, refl, inl, [], u32_mod, arith}
use phlox.Heap.{Heap, grow_size, page_size, bin_count, heap_init}
use phlox.Heap.Owner.{nobody, IsHeap}

-- The numbers of heap_init for pages: k pages in all, s for the heap.
sizes :
    (size s : ℕ)
    → size % page_size ≡ 0
    → s ≡ size * 2048 / 2049 / page_size * page_size
    → (s + (s / 2048 + 4095) / page_size * page_size ≤ size)
      × (s % page_size ≡ 0)
      × (s / page_size * 2 ≤ (s / 2048 + 4095) / page_size * page_size)
sizes size s whole e = (omega (arith, whole, e), omega (arith, e), omega (arith, e))

abbrev pub FitsIn : (new_heap_base new_heap_size : ℕ) → Heap → Type 0
FitsIn new_heap_base new_heap_size h =
    (h.base + h.size ≤ new_heap_base + new_heap_size)
    × (new_heap_base + h.size / page_size * 2 ≤ h.base)

made_fits :
    (start size s base : ℕ)
    → start % page_size ≡ 0
    → size % page_size ≡ 0
    → 0 < start
    → start + size + grow_size (bin_count - 1) < u32_mod
    → s ≡ size * 2048 / 2049 % u32_mod / page_size * page_size
    → base ≡ (start + (s / 2048 + 4095) / page_size * page_size) % u32_mod
    → (0 < base)
      × (base % page_size ≡ 0)
      × (base + s ≤ start + size)
      × (start + s / page_size * 2 ≤ base)
made_fits start size s base page pages nz top e e' =
    let less : size * 2048 / 2049 % u32_mod ≡ size * 2048 / 2049 = omega (arith, top) in
    let same : s ≡ size * 2048 / 2049 / page_size * page_size = rw (← less) e in
    let fit = sizes size s pages same in
    let whole : base ≡ start + (s / 2048 + 4095) / page_size * page_size =
      omega (arith, e', fit.0, top) in
    (
      omega (arith, whole, nz),
      omega (arith, whole, page),
      omega (arith, whole, fit.0),
      omega (arith, whole, fit.2),
    )

-- For a region of whole pages that starts above 0 and ends at least the largest bin below 2 ^ 32,
-- heap_init makes a well-formed heap without blocks that ends in the region, with a table before
-- it that has two bytes for each page of the heap.
pub heap_init-IsHeap :
    (new_heap_base new_heap_size : ℕ)
    → new_heap_base % page_size ≡ 0
    → new_heap_size % page_size ≡ 0
    → 0 < new_heap_base
    → new_heap_base + new_heap_size + grow_size (bin_count - 1) < u32_mod
    → IsHeap (λ x. nobody) (λ b. []) (heap_init new_heap_base new_heap_size)
      × FitsIn new_heap_base new_heap_size (heap_init new_heap_base new_heap_size)
unfolding heap_init
heap_init-IsHeap start size page pages nz top =
    let h = heap_init start size in
    let made = made_fits start size h.size h.base page pages nz top (omega arith) (omega arith) in
    (
      record {
        is_bin = λ b lt. record {
          free_owned = λ address t. ground (arith, t);
          live_owned = λ address t. ground (arith, t);
          raw_owned = λ x lo hi. ground (arith, lo, hi);
          raw_aligned = inl refl;
          raw_small = omega arith;
          distinct_free = tt;
          distinct_live = tt;
          apart = λ address t. refl;
        };
        within = λ x. inl refl;
        paged = λ x. inl refl;
        page_base = made.1;
        page_ptr = made.1;
        low = made.0;
        base_le = omega arith;
        ptr_le = omega arith;
        top = omega (arith, made.2, top);
      },
      (made.2, made.3),
    )

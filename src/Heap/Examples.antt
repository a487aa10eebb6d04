-- ===== src/Heap/Examples.antt =====
-- The theorems of the heap at one of a megabyte, with a block of 128 bytes.
use phlox.Common.{ℕ, ◌+◌, ◌≤◌, ◌≡◌, ◌⊎◌, refl, Option, none, some, List, [], ◌∷◌, ◌∈◌, arith}
use phlox.Heap.{
  Heap, element_size, grow_size, heap_init, carve, counted, kmalloc, kfree, find_bin, take_block,
  mark_raw_pages, count_pages, same_bin,
}
use phlox.Heap.Owner.{Owner, nobody, raw, block, IsHeap}
use phlox.Heap.Claim.{set_live, claim}
use phlox.Heap.Grow.{grown, grown-IsHeap, carve-IsHeap}
use phlox.Heap.Apart.{kmalloc-apart}
use phlox.Heap.Malloc.{Allocated, kmalloc-Allocated, counted-IsHeap}
use phlox.Heap.Free.{Freed, kfree-Freed, kfree-twice}
use phlox.Heap.Init.{FitsIn, heap_init-IsHeap}

heap_init-IsHeap_example :
    IsHeap (λ x. nobody) (λ b. []) (heap_init 0x100000 0x100000)
    × FitsIn 0x100000 0x100000 (heap_init 0x100000 0x100000)
heap_init-IsHeap_example = heap_init-IsHeap 0x100000 0x100000 refl refl (omega arith) (omega arith)

-- The heap that heap_init gives there.
abbrev start : ℕ
start = 0x101000

abbrev empty : Heap
empty = record (heap_init 0x100000 0x100000) { base = start; base_ptr = start; size = 0xff000 }

empty-IsHeap : IsHeap (λ x. nobody) (λ b. []) empty
unfolding heap_init
empty-IsHeap = (heap_init-IsHeap 0x100000 0x100000 refl refl (omega arith) (omega arith)).0

kmalloc-Allocated_example : Allocated (λ b. []) empty 100 (kmalloc empty 100)
kmalloc-Allocated_example = kmalloc-Allocated (λ x. nobody) (λ b. []) empty 100 empty-IsHeap

-- The heap with the block, its owners and its live blocks.
abbrev owner_raw : ℕ → Owner
owner_raw = claim (λ x. nobody) start (start + grow_size 3) (raw 3)

abbrev owner_one : ℕ → Owner
owner_one = claim owner_raw start (start + element_size 3) (block 3 start)

abbrev live_one : ℕ → List ℕ
live_one = set_live (λ b. []) 3 (start ∷ [])

abbrev one : Heap
one = counted (carve (grown empty 3) 3).1 3 start

one-IsHeap : IsHeap owner_one live_one one
unfolding heap_init
one-IsHeap =
    counted-IsHeap owner_one live_one (carve (grown empty 3) 3).1 3 start
      (carve-IsHeap owner_raw (λ b. []) (grown empty 3) 3
        (grown-IsHeap (λ x. nobody) (λ b. []) empty 3 empty-IsHeap (omega arith) (omega arith))
        (omega arith) (omega arith)).1

abbrev after_second : Option (ℕ × Heap) → Heap
after_second none = one
after_second (some (address, h)) = h

kmalloc-apart_example : (start + 128 + 100 ≤ start) ⊎ (start + element_size 3 ≤ start + 128)
unfolding kmalloc find_bin take_block heap_init
kmalloc-apart_example =
    kmalloc-apart owner_one live_one one (after_second (kmalloc one 100)) 100 (start + 128) 3 start
      one-IsHeap refl (omega arith) refl

kfree-Freed_example : Freed owner_one live_one 3 start (kfree one start)
kfree-Freed_example = kfree-Freed owner_one live_one one 3 start one-IsHeap (omega arith) refl

abbrev after_free : Option Heap → Heap
after_free none = one
after_free (some h) = h

freed-IsHeap : IsHeap owner_one (set_live live_one 3 []) (after_free (kfree one start))
unfolding kfree heap_init mark_raw_pages count_pages same_bin
freed-IsHeap = kfree-Freed owner_one live_one one 3 start one-IsHeap (omega arith) refl

is_free : start ∈ ((after_free (kfree one start)).bins 3).free_list
unfolding kfree heap_init mark_raw_pages count_pages same_bin
is_free = refl

kfree-twice_example : kfree (after_free (kfree one start)) start ≡ none
kfree-twice_example =
    kfree-twice owner_one (set_live live_one 3 []) (after_free (kfree one start)) 3 start
      freed-IsHeap (omega arith) is_free

-- The count of free blocks of the page is 32, then 31, and stays there once the block is free.
count_stays_down :
    ((one.alloc_table 0).free_count ≡ 31)
    × (((after_free (kfree one start)).alloc_table 0).free_count ≡ 31)
unfolding kfree heap_init mark_raw_pages count_pages same_bin
count_stays_down = (refl, refl)

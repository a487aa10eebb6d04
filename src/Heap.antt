-- ===== src/Heap.antt =====
-- phlox/kernel/heap.c: the heap of the kernel, in bins by the size of a block. The free list of a
-- bin, whose links the free blocks hold, is the sequence of those blocks, and the sizes of the bins,
-- which no code changes, are functions of the index. `none` is a panic.
pub mod Owner
pub mod Sizes
pub mod Claim
pub mod Table
pub mod Alloc
pub mod Grow
pub mod Malloc
pub mod Apart
pub mod Free
pub mod Init
mod Examples
use phlox.Common.{
  ℕ, zero, suc, ◌+◌, ◌-◌, ◌*◌, ◌/◌, ◌%◌, ◌^◌, Bool, true, false, not, ◌&&◌, ◌||◌, Option, none,
  some, List, [], ◌∷◌, has, ◌==◌, ltb, leb, if◌then◌else◌, inc32, dec32, u32_mod,
}

abbrev pub page_size : ℕ
page_size = 4096

abbrev pub bin_count : ℕ
bin_count = 32

-- 16 bytes to 2 KB by powers of two, and then whole pages.
abbrev pub element_size : (bin_index : ℕ) → ℕ
element_size b = if ltb b 8 then 16 * 2 ^ b else page_size * (b - 7)

abbrev pub grow_size : (bin_index : ℕ) → ℕ
grow_size b = if ltb b 8 then page_size else page_size * (b - 7)

pub record HeapPage : Type 0 where
  pub bin_index : ℕ
  pub free_count : ℕ
  pub cleaning : Bool
  pub in_use : Bool

pub record HeapBin : Type 0 where
  pub alloc_count : ℕ
  pub free_list : List ℕ
  pub free_count : ℕ
  pub raw_list : ℕ
  pub raw_count : ℕ

pub record Heap : Type 0 where
  pub alloc_table : ℕ → HeapPage
  pub base_ptr : ℕ
  pub base : ℕ
  pub size : ℕ
  pub bins : ℕ → HeapBin

abbrev pub put_bin : Heap → (bin_index : ℕ) → HeapBin → Heap
put_bin h b bin = record h { bins = λ i. if i == b then bin else h.bins i }

abbrev pub put_page : (ℕ → HeapPage) → (page : ℕ) → HeapPage → ℕ → HeapPage
put_page table page entry i = if i == page then entry else table i

-- The number of the page at an address.
abbrev pub page_of : Heap → (address : ℕ) → ℕ
page_of h address = (address - h.base) / page_size

abbrev pub no_page : HeapPage
no_page = record { bin_index = 0; free_count = 0; cleaning = false; in_use = false }

abbrev pub no_bin : HeapBin
no_bin = record { alloc_count = 0; free_list = []; free_count = 0; raw_list = 0; raw_count = 0 }

-- An entry of the table has 2 bytes, so a page of the table is for 2048 pages. The bins are as their
-- static initialiser leaves them.
pub heap_init : (new_heap_base new_heap_size : ℕ) → Heap
heap_init new_heap_base new_heap_size =
    let entries = page_size / 2 in
    let size = new_heap_size * entries / (entries + 1) % u32_mod / page_size * page_size in
    let base =
      (new_heap_base + (size / entries + page_size - 1) / page_size * page_size) % u32_mod in
    record {
      alloc_table = λ i. no_page;
      base_ptr = base;
      base = base;
      size = size;
      bins = λ b. no_bin;
    }

-- The entry of a page that a bin takes.
abbrev pub taken_page : (bin_index : ℕ) → HeapPage
taken_page b = record {
  bin_index = b;
  free_count =
      if ltb b bin_count && ltb (element_size b) page_size then page_size / element_size b else 1;
  cleaning = false;
  in_use = true;
}

-- The loop of raw_alloc over `n` pages.
pub mark_raw_pages : (n page bin_index : ℕ) → (ℕ → HeapPage) → ℕ → HeapPage
mark_raw_pages zero page b table = table
mark_raw_pages (suc n) page b table =
    mark_raw_pages n (page + 1) b (put_page table page (taken_page b))

abbrev pub page_align : ℕ → ℕ
page_align size = (size + page_size - 1) / page_size * page_size

pub raw_alloc : Heap → (size bin_index : ℕ) → Option (ℕ × Heap)
unfolding mark_raw_pages
raw_alloc h size b =
    let new_ptr = (h.base_ptr + page_align size) % u32_mod in
    if ltb (h.base + h.size) new_ptr
    then none
    else some (
      h.base_ptr,
      record h {
        base_ptr = new_ptr;
        alloc_table =
            mark_raw_pages ((new_ptr - h.base_ptr) / page_size) (page_of h h.base_ptr) b
              h.alloc_table;
      },
    )

-- The search for a bin: `n` bins from `i` on.
pub find_bin : (n i size : ℕ) → ℕ
find_bin zero i size = i
find_bin (suc n) i size =
    let rest = find_bin n (i + 1) size in if leb size (element_size i) then i else rest

-- A block from the raw ones of a bin.
abbrev pub carve : Heap → (bin_index : ℕ) → ℕ × Heap
carve h b =
    let bin = h.bins b in
    (
      bin.raw_list,
      put_bin h b (record bin {
        raw_count = dec32 bin.raw_count;
        raw_list = (bin.raw_list + element_size b) % u32_mod;
      }),
    )

-- The bin gets raw blocks.
abbrev pub grow : Heap → (bin_index : ℕ) → Option Heap
grow h b = elim (raw_alloc h (grow_size b) b) [
  | none ↦ none
  | some (raw_list, h') ↦ some (
      put_bin h' b
        (record (h'.bins b) { raw_list = raw_list; raw_count = grow_size b / element_size b }))
]

abbrev pub some_raw : Heap → (bin_index : ℕ) → Option Heap
some_raw h b = if (h.bins b).raw_count == 0 then grow h b else some h

abbrev pub pop : Heap → (bin_index : ℕ) → (rest : List ℕ) → Heap
pop h b rest =
    let bin = h.bins b in
    put_bin h b (record bin { free_list = rest; free_count = dec32 bin.free_count })

-- A block of a bin.
pub take_block : Heap → (bin_index : ℕ) → Option (ℕ × Heap)
take_block h b = elim (h.bins b).free_list [
  | [] ↦ elim (some_raw h b) [ none ↦ none | some h' ↦ some (carve h' b) ]
  | address ∷ rest ↦ some (address, pop h b rest)
]

-- The count is in 9 bits.
abbrev pub count_down : HeapPage → HeapPage
count_down page = record page { free_count = (page.free_count + 511) % 512 }

abbrev pub count_up : HeapPage → HeapPage
count_up page = record page { free_count = (page.free_count + 1) % 512 }

-- The counts of `n` pages from a page on.
pub count_pages : (HeapPage → HeapPage) → (n page : ℕ) → (ℕ → HeapPage) → ℕ → HeapPage
count_pages f zero page table = table
count_pages f (suc n) page table = count_pages f n (page + 1) (put_page table page (f (table page)))

-- The counts of the bin and of the block's pages, the first one among them.
abbrev pub counted : Heap → (bin_index address : ℕ) → Heap
counted h b address =
    let bin = h.bins b in
    record (put_bin h b (record bin { alloc_count = inc32 bin.alloc_count })) {
      alloc_table =
          count_pages count_down (1 + (element_size b / page_size - 1)) (page_of h address)
            h.alloc_table;
    }

pub kmalloc : Heap → (size : ℕ) → Option (ℕ × Heap)
unfolding find_bin take_block
kmalloc h size =
    let b = find_bin bin_count 0 size in
    if b == bin_count then none else elim (take_block h b) [
      | none ↦ none
      | some (address, h') ↦ some (address, counted h' b address)
    ]

-- The pages of the block all have its bin.
pub same_bin : (n page bin_index : ℕ) → (ℕ → HeapPage) → Bool
same_bin zero page b table = true
same_bin (suc n) page b table =
    let rest = same_bin n (page + 1) b table in ((table page).bin_index == b) && rest

-- The block goes to the front of the bin's free list.
abbrev pub push : Heap → (bin_index address : ℕ) → Heap
push h b address =
    let bin = h.bins b in
    put_bin h b (record bin {
      free_list = address ∷ bin.free_list;
      alloc_count = dec32 bin.alloc_count;
      free_count = inc32 bin.free_count;
    })

pub kfree : Heap → (address : ℕ) → Option Heap
unfolding count_pages same_bin
kfree h address =
    let page = page_of h address in
    let b = (h.alloc_table page).bin_index in
    let n = element_size b / page_size in
    if address == 0
    then some h
    else if ltb address h.base || leb (h.base + h.size) address
    then none
    else if leb bin_count b
    then none
    else if leb (element_size b) page_size && not (address % element_size b == 0)
    then none
    else if not (same_bin n page b h.alloc_table)
    then none
    else if has address (h.bins b).free_list
    then none
    else some
        (record (push h b address) { alloc_table = count_pages count_up n page h.alloc_table })

-- The pointer is NULL after it.
pub kfree_and_null : Heap → (address : Option ℕ) → Option (Heap × Option ℕ)
unfolding kfree
kfree_and_null h none = some (h, none)
kfree_and_null h (some address) =
    if address == 0
    then some (h, some address)
    else elim (kfree h address) [ none ↦ none | some h' ↦ some (h', some 0) ]

pub kmalloc_pages : Heap → (npages : ℕ) → Option (ℕ × Heap)
unfolding kmalloc
kmalloc_pages h npages = kmalloc h (npages * page_size % u32_mod)

-- ===== src/Pages/BootArgs.antt =====
-- phlox/kernel/vm/vm_page.c: what reads the boot loader's tables of physical memory, before the
-- pages are set up. Sums of addresses are 32-bit.
use phlox.Common.{
  ℕ, ◌+◌, ◌-◌, ◌/◌, ◌%◌, Bool, false, not, ◌&&◌, ◌||◌, List, [], ◌∷◌, ltb, leb, ◌==◌, if◌then◌else◌,
  u32_mod,
}
use phlox.Pages.{Pages}
use phlox.Pages.Alloc.{page_size}
use phlox.Pages.Range.{AddrRange}

-- The number of the last page of the last range.
unfoldable pub last_page : (last_phys_page : ℕ) → List AddrRange → ℕ
last_page last_phys_page [] = last_phys_page
last_page last_phys_page (r ∷ rs) =
    last_page (((r.start + r.size) % u32_mod / page_size + u32_mod - 1) % u32_mod) rs

-- The first range is read apart from the others: `phys_mem_range[0]` exists, also if it is unused.
unfoldable pub vm_page_preinit : (first : AddrRange) → List AddrRange → Pages → Pages
vm_page_preinit first phys_mem_range s =
    let offset = first.start / page_size in
    record s {
      physical_page_offset = offset;
      total_pages_count = (last_page 0 phys_mem_range + u32_mod - offset + 1) % u32_mod;
      lists = record { free_list = []; clear_list = []; active_list = [] };
    }

unfoldable pub is_page_in_phys_range : List AddrRange → (paddr : ℕ) → Bool
is_page_in_phys_range [] paddr = false
is_page_in_phys_range (r ∷ rs) paddr =
    leb r.start paddr && ltb paddr ((r.start + r.size) % u32_mod) || is_page_in_phys_range rs paddr

-- Whether the page runs into the next allocated range.
abbrev pub collides : (next_page : ℕ) → List AddrRange → Bool
collides next_page [] = false
collides next_page (r ∷ rs) = not (r.size == 0) && leb r.start next_page

-- The number of the page, 0 if there is none, and the ranges after it.
unfoldable pub vm_alloc_ppage_from_kargs :
    (phys_mem_range phys_alloc_range : List AddrRange) → ℕ × List AddrRange
vm_alloc_ppage_from_kargs phys [] = (0, [])
vm_alloc_ppage_from_kargs phys (r ∷ rs) =
    let next_page = (r.start + r.size) % u32_mod in
    let size = (r.size + page_size) % u32_mod in
    let rest = vm_alloc_ppage_from_kargs phys rs in
    if not (collides next_page rs) && is_page_in_phys_range phys next_page
    then (
      ((r.start + size + u32_mod - page_size) % u32_mod) / page_size,
      record r { size = size } ∷ rs,
    )
    else (rest.0, r ∷ rest.1)

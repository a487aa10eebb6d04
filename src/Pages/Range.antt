-- ===== src/Pages/Range.antt =====
-- phlox/kernel/vm/vm_page.c: ranges of pages, and the pages that the boot loader hands out. Sums of
-- page numbers are 32-bit. A counted loop recurs on its rounds; the search of
-- `vm_page_alloc_range` runs on fuel.
use phlox.Common.{
  ℕ, zero, suc, ◌+◌, ◌-◌, ◌/◌, ◌%◌, Bool, true, false, ◌&&◌, ◌||◌, Option, none, some, List, [],
  ◌∷◌, ltb, leb, ◌==◌, if◌then◌else◌, inc32, u32_mod,
}
use phlox.Pages.{
  PageState, free, clear, busy, unused, same_state, free_pages_list, Pages, Outcome, returns, panic,
  out_of_fuel, ◌>>=◌, update, put_page_to_list, set_page_state, vm_page_lookup,
}
use phlox.Pages.Alloc.{page_size, clear_page, detach, occupy_from}

pub data Status : Type 0 where
  no_error err_invalid_args : Status

abbrev pub is_free_or_clear : PageState → Bool
is_free_or_clear st = same_state st free || same_state st clear

-- The loop of `vm_page_mark_range_inuse`; a page in another state is only reported.
unfoldable pub mark_pages : ℕ → Pages → ℕ → Outcome Pages
mark_pages zero s p = returns s
mark_pages (suc n) s p = do
  s' ← if is_free_or_clear (s.state p) then set_page_state s p unused else returns s
  mark_pages n s' (p + 1)

unfoldable pub vm_page_mark_range_inuse :
    Pages → (start_page len_pages : ℕ) → Outcome (Status × Pages)
vm_page_mark_range_inuse s start_page len_pages =
    if ltb start_page s.physical_page_offset
    then returns (err_invalid_args, s)
    else if leb s.total_pages_count ((start_page - s.physical_page_offset + len_pages) % u32_mod)
    then returns (err_invalid_args, s)
    else do
      s' ← mark_pages len_pages s (start_page - s.physical_page_offset)
      returns (no_error, s')

unfoldable pub vm_page_mark_page_inuse : Pages → ℕ → Outcome (Status × Pages)
unfolding vm_page_mark_range_inuse
vm_page_mark_page_inuse s page = vm_page_mark_range_inuse s page 1

-- The scan of `vm_page_alloc_range`: `some i` if the page before offset `i` is the first that is
-- neither free nor clear, `none` if there is none.
unfoldable pub scan_range : ℕ → Pages → (start i : ℕ) → Option ℕ
scan_range zero s start i = none
scan_range (suc n) s start i =
    let rest = scan_range n s start (i + 1) in
    if is_free_or_clear (s.state (start + i)) then rest else some (i + 1)

unfoldable pub set_busy : ℕ → Pages → ℕ → Outcome Pages
set_busy zero s p = returns s
set_busy (suc n) s p = do s' ← set_page_state s p busy; set_busy n s' (p + 1)

unfoldable pub search_range : ℕ → Pages → (npages start : ℕ) → Outcome (Option ℕ × Pages)
search_range zero s npages start = out_of_fuel
search_range (suc fuel) s npages start =
    let further = λ (i : ℕ). search_range fuel s npages ((start + i) % u32_mod) in
    if leb s.total_pages_count ((start + npages) % u32_mod)
    then returns (none, s)
    else elim (scan_range npages s start 0) [
      | none ↦ do s' ← set_busy npages s start; returns (some start, s')
      | some i ↦
          if leb s.total_pages_count ((start + i) % u32_mod) then returns (none, s) else further i
    ]

-- The routine does not read the page state that it is given.
unfoldable pub vm_page_alloc_range : Pages → PageState → (npages : ℕ) → Outcome (Option ℕ × Pages)
vm_page_alloc_range s page_state npages = search_range (s.total_pages_count + 1) s npages 0

-- `vm_page_alloc_specific_range`: the check of all pages, before any is touched.
unfoldable pub can_allocate : ℕ → Pages → (page_num : ℕ) → Bool
can_allocate zero s page_num = true
can_allocate (suc n) s page_num =
    elim (vm_page_lookup s page_num) [
      | none ↦ false
      | some p ↦ is_free_or_clear (s.state p) || same_state (s.state p) unused
    ]
    && can_allocate n s (page_num + 1)

-- The allocation of the pages, and whether one of them has to be cleared.
unfoldable pub claim_pages :
    ℕ → Pages → PageState → (p : ℕ) → (need_clear : Bool) → Outcome (Pages × Bool)
claim_pages zero s page_state p need_clear = returns (s, need_clear)
claim_pages (suc n) s page_state p need_clear = elim (detach (s.state p) s p) [
  | none ↦ panic
  | some s' ↦ claim_pages n (occupy_from (s.state p) s' p) page_state (p + 1) (
      need_clear
      || same_state page_state clear
        && (same_state (s.state p) free || same_state (s.state p) unused))
]

unfoldable pub clear_pages_from : ℕ → Pages → ℕ → Pages
unfolding clear_page
clear_pages_from zero s p = s
clear_pages_from (suc n) s p = clear_pages_from n (clear_page s p) (p + 1)

-- The rounds of `for(i = first; i < first + npages; i++)`.
abbrev pub rounds : (first npages : ℕ) → ℕ
rounds first npages = (first + npages) % u32_mod - first

unfoldable pub vm_page_alloc_specific_range :
    Pages → (first_page_num npages : ℕ) → PageState → Outcome (Option ℕ × Pages)
vm_page_alloc_specific_range s first_page_num npages page_state =
    if npages == 0
    then returns (none, s)
    else if can_allocate (rounds first_page_num npages) s first_page_num
    then (let first = (first_page_num + u32_mod - s.physical_page_offset) % u32_mod in
        do
          (s', need_clear) ← claim_pages (rounds first npages) s page_state first false
          returns (
            some first,
            if need_clear then clear_pages_from (rounds first npages) s' first else s',
          ))
    else returns (none, s)

-- A range of addresses of the kernel arguments.
pub record AddrRange : Type 0 where
  pub start : ℕ
  pub size : ℕ

-- The loop of `vm_page_init` over the pages.
unfoldable pub init_pages : ℕ → Pages → ℕ → Pages
unfolding put_page_to_list
init_pages zero s i = s
init_pages (suc n) s i =
    init_pages n
      (record s {
        state = update s.state i free;
        counters = record (s.counters) { free_pages = inc32 s.counters.free_pages };
        lists = put_page_to_list s.lists free_pages_list i;
      })
      (i + 1)

-- The loop over the ranges that are in use; the status of each call is dropped.
unfoldable pub mark_ranges : List AddrRange → Pages → Outcome Pages
mark_ranges [] s = returns s
mark_ranges (r ∷ rs) s = do
  (status, s') ← vm_page_mark_range_inuse s (r.start / page_size) (r.size / page_size)
  mark_ranges rs s'

unfoldable pub vm_page_init : List AddrRange → Pages → Outcome Pages
vm_page_init phys_alloc_range s = mark_ranges phys_alloc_range (init_pages s.total_pages_count s 0)

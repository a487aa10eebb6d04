-- ===== src/Pages/Alloc.antt =====
-- phlox/kernel/vm/vm_page.c: allocation of one page, by its state or by its number.
use phlox.Common.{
  ℕ, ◌+◌, ◌*◌, ◌%◌, ◌&&◌, ◌||◌, Option, none, some, ◌∷◌, if◌then◌else◌, inc32, dec32, u32_mod,
  length,
}
use phlox.Pages.{
  PageState, free, clear, busy, unused, same_state, Lists, ListName, free_pages_list,
  clear_pages_list, active_pages_list, same_list, Pages, Outcome, returns, panic, update,
  put_page_to_list, remove_page_from_list, get_page_from_list, vm_page_lookup,
}

abbrev pub page_size : ℕ
page_size = 4096

-- `clear_page(p->ppn * PAGE_SIZE)`; the physical number of a page is the offset and its index.
unfoldable pub clear_page : Pages → ℕ → Pages
clear_page s p = record s {
  cleared = ((s.physical_page_offset + p) * page_size % u32_mod) ∷ s.cleared;
}

-- A page from the list or, if that is empty, from the spare list, and the list it came from.
unfoldable pub take_page : Lists → (name spare : ListName) → Option (ℕ × Lists × ListName)
unfolding get_page_from_list
take_page l name spare = elim (get_page_from_list l name) [
  | some (p, l') ↦ some (p, l', name)
  | none ↦ elim (get_page_from_list l spare) [ some (p, l') ↦ some (p, l', spare) | none ↦ none ]
]

-- The page goes into state BUSY and to the active list.
unfoldable pub occupy : Pages → ℕ → Pages
unfolding put_page_to_list
occupy s p = record s {
  state = update s.state p busy;
  counters = record (s.counters) { busy_pages = inc32 s.counters.busy_pages };
  lists = put_page_to_list s.lists active_pages_list p;
}

unfoldable pub taken : Pages → Lists → ListName → Pages
taken s l source = record s {
  lists = l;
  counters =
      if same_list source free_pages_list
      then record (s.counters) { free_pages = dec32 s.counters.free_pages }
      else record (s.counters) { clear_pages = dec32 s.counters.clear_pages };
}

-- The rest of `vm_page_alloc`, from the page that was found; with none the system stops.
unfoldable pub hand_out :
    Pages → PageState → Option (ℕ × Lists × ListName) → Outcome (Option ℕ × Pages)
unfolding taken occupy clear_page
hand_out s page_state none = panic
hand_out s page_state (some (p, l, source)) =
    let s' = occupy (taken s l source) p in
    if same_state page_state clear && same_state (s.state p) free
    then returns (some p, clear_page s' p)
    else returns (some p, s')

-- `vm_page_alloc`, its source list and spare list chosen.
unfoldable pub alloc_from : Pages → PageState → (name spare : ListName) → Outcome (Option ℕ × Pages)
alloc_from s page_state name spare = hand_out s page_state (take_page s.lists name spare)

unfoldable pub vm_page_alloc : Pages → PageState → Outcome (Option ℕ × Pages)
unfolding alloc_from
vm_page_alloc s free = alloc_from s free free_pages_list clear_pages_list
vm_page_alloc s clear = alloc_from s clear clear_pages_list free_pages_list
vm_page_alloc s other = returns (none, s)

-- The switch of the allocators of specific pages: the page leaves its counter and its list, and
-- `none` is the default case.
unfoldable pub detach : PageState → Pages → ℕ → Option Pages
unfolding remove_page_from_list
detach free s p = some (record s {
  lists = remove_page_from_list s.lists free_pages_list p;
  counters = record (s.counters) { free_pages = dec32 s.counters.free_pages };
})
detach clear s p = some (record s {
  lists = remove_page_from_list s.lists clear_pages_list p;
  counters = record (s.counters) { clear_pages = dec32 s.counters.clear_pages };
})
detach unused s p =
    some
      (record s { counters = record (s.counters) { unused_pages = dec32 s.counters.unused_pages } })
detach other s p = none

-- State BUSY, and the active list unless the page is in it.
unfoldable pub occupy_from : PageState → Pages → ℕ → Pages
unfolding put_page_to_list
occupy_from old s p = record s {
  state = update s.state p busy;
  counters = record (s.counters) { busy_pages = inc32 s.counters.busy_pages };
  lists = if same_state old unused then s.lists else put_page_to_list s.lists active_pages_list p;
}

-- The rest of `vm_page_alloc_specific`, from what the switch left of page `p` in state `old`.
unfoldable pub take_specific :
    Pages → PageState → (old : PageState) → ℕ → Option Pages → Option ℕ × Pages
unfolding occupy_from clear_page
take_specific s page_state old p none = (none, s)
take_specific s page_state old p (some s') =
    let t = occupy_from old s' p in
    if same_state page_state clear && (same_state old free || same_state old unused)
    then (some p, clear_page t p)
    else (some p, t)

unfoldable pub vm_page_alloc_specific : Pages → ℕ → PageState → Option ℕ × Pages
vm_page_alloc_specific s page_num page_state = elim (vm_page_lookup s page_num) [
  | none ↦ (none, s)
  | some p ↦ take_specific s page_state (s.state p) p (detach (s.state p) s p)
]

unfoldable pub vm_page_pages_count : Pages → ℕ
vm_page_pages_count s = s.total_pages_count

-- The sum of the counts of two lists.
unfoldable pub vm_page_free_pages_count : Pages → ℕ
vm_page_free_pages_count s = (length s.lists.free_list + length s.lists.clear_list) % u32_mod

-- ===== src/Pages/Examples.antt =====
-- The theorems of the page allocator at a concrete memory of five pages.
use phlox.Pages.Range.{AddrRange}
use phlox.Common.{List, ◌≡◌, ◌⊎◌, ◌≤◌, ◌<◌, ◌+◌, ◌||◌, ℕ, refl, true, none, some, [], ◌∷◌, arith}
use phlox.Pages.{
  PageState, active, inactive, free, clear, wired, unused, busy, invalid, same_state, update, Pages,
  returns, panic, set_page_state,
}
use phlox.Pages.Alloc.{vm_page_alloc, vm_page_free_pages_count}
use phlox.Pages.Range.{
  search_range, scan_range, set_busy, no_error, err_invalid_args, is_free_or_clear,
  vm_page_mark_range_inuse, vm_page_alloc_range,
}
use phlox.Pages.BootArgs.{vm_alloc_ppage_from_kargs}
use phlox.Pages.BootPages.{Ordered, Stuck, Fresh, vm_alloc_ppage_from_kargs-Fresh}
use phlox.Pages.Invariant.{named, counter, IsConsistent}
use phlox.Pages.Tally.{tally}
use phlox.Pages.Transition.{Changed, set_page_state-Changed}
use phlox.Pages.Single.{Allocated}
use phlox.Pages.AnyPage.{vm_page_alloc-Allocated}
use phlox.Pages.Sweep.{Swept, vm_page_mark_range_inuse-Swept}
use phlox.Pages.FirstFit.{Blocked, FirstFit, vm_page_alloc_range-FirstFit}

-- Pages 0 and 1 are free, 2 is clear, 3 is wired and 4 is unused; their numbers start at 100.
abbrev memory : Pages
memory = record {
  physical_page_offset = 100;
  total_pages_count = 5;
  state = update (update (update (λ _. free) 2 clear) 3 wired) 4 unused;
  lists = record { free_list = 0 ∷ 1 ∷ []; clear_list = 2 ∷ []; active_list = 3 ∷ 4 ∷ [] };
  counters = record {
    active_pages = 0;
    inactive_pages = 0;
    wired_pages = 1;
    busy_pages = 0;
    clear_pages = 1;
    free_pages = 2;
    unused_pages = 1;
  };
  cleared = [];
}

memory_counted :
    (t : PageState) → named t ≡ true → counter memory.counters t ≡ tally 5 memory.state t
unfolding tally
memory_counted active h = refl
memory_counted inactive h = refl
memory_counted free h = refl
memory_counted clear h = refl
memory_counted wired h = refl
memory_counted busy h = refl
memory_counted unused h = refl
memory_counted (invalid n) h = absurd (cc)

memory-IsConsistent : IsConsistent memory
memory-IsConsistent = record {
  bounded = omega arith;
  valid = λ p h. ground arith;
  counted = memory_counted;
  listed = λ name p. ground arith;
  distinct = λ name. ground arith;
}

set_page_state-Changed_example :
    (s' : Pages) × (set_page_state memory 3 clear ≡ returns s')
    × Changed memory 3 clear s'
    × (s'.cleared ≡ [])
set_page_state-Changed_example =
    set_page_state-Changed memory 3 clear memory-IsConsistent (omega arith) refl

vm_page_alloc-Allocated_example :
    ((vm_page_free_pages_count memory ≡ 0) × (vm_page_alloc memory clear ≡ panic))
    ⊎ ((p : ℕ) × (s' : Pages) × (vm_page_alloc memory clear ≡ returns (some p, s'))
        × Allocated memory clear p s'
        × ((memory.state p ≡ clear)
            ⊎ ((memory.lists.clear_list ≡ [])
                × (same_state (memory.state p) free || same_state (memory.state p) clear ≡ true))))
vm_page_alloc-Allocated_example = vm_page_alloc-Allocated memory clear memory-IsConsistent refl

vm_page_mark_range_inuse-Swept_example :
    ((vm_page_mark_range_inuse memory 101 3 ≡ returns (err_invalid_args, memory))
      × ((101 < 100) ⊎ (100 + 5 ≤ 101 + 3)))
    ⊎ ((p : ℕ) × (s' : Pages) × (vm_page_mark_range_inuse memory 101 3 ≡ returns (no_error, s'))
        × (101 ≡ 100 + p)
        × (p + 3 < 5)
        × Swept memory p 3 is_free_or_clear unused s')
vm_page_mark_range_inuse-Swept_example =
    vm_page_mark_range_inuse-Swept memory 101 3 memory-IsConsistent (omega arith)

vm_page_alloc_range-FirstFit_example :
    ((vm_page_alloc_range memory clear 2 ≡ returns (none, memory))
      × ((b : ℕ) → b + 2 < 5 → Blocked memory 2 b))
    ⊎ ((start : ℕ) × (s' : Pages) × (vm_page_alloc_range memory clear 2 ≡ returns (some start, s'))
        × FirstFit memory 2 start s')
vm_page_alloc_range-FirstFit_example =
    vm_page_alloc_range-FirstFit memory clear 2 memory-IsConsistent (omega arith)

-- The first two pages are the first fit for two pages.
allocates_the_first_two : (s' : Pages) × (vm_page_alloc_range memory clear 2 ≡ returns (some 0, s'))
unfolding vm_page_alloc_range search_range scan_range set_busy set_page_state
allocates_the_first_two = (_, refl)

-- Memory of sixteen pages, of which the second and the fourth are allocated.
abbrev whole_memory : List AddrRange
whole_memory = record { start = 0; size = 65536 } ∷ []

abbrev allocated : List AddrRange
allocated = record { start = 4096; size = 4096 } ∷ record { start = 12288; size = 4096 } ∷ []

vm_alloc_ppage_from_kargs-Fresh_example :
    Ordered 4096 (vm_alloc_ppage_from_kargs whole_memory allocated).1
    × (((vm_alloc_ppage_from_kargs whole_memory allocated ≡ (0, allocated))
          × Stuck whole_memory allocated)
        ⊎ Fresh whole_memory 4096
            (vm_alloc_ppage_from_kargs whole_memory allocated).0
            allocated
            (vm_alloc_ppage_from_kargs whole_memory allocated).1)
vm_alloc_ppage_from_kargs-Fresh_example =
    vm_alloc_ppage_from_kargs-Fresh whole_memory 4096 allocated (refl, refl, omega arith, tt)
      (
        omega arith,
        refl,
        refl,
        omega arith,
        omega arith,
        (omega arith, refl, refl, omega arith, omega arith, tt),
      )

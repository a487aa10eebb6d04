-- ===== src/Pages/GivenRange.antt =====
-- `vm_page_alloc_specific_range`: all the pages of a given range, or none of them.
use phlox.Common.{ℕ, ◌+◌, ◌≤◌, ◌<◌, ◌≡◌, Bool, true, false, some, none, has, if◌then◌else◌, ◌||◌}
use phlox.Pages.{PageState, clear, busy, same_state, Pages, ◌>>=◌, vm_page_lookup}
use phlox.Pages.Invariant.{IsConsistent}
use phlox.Pages.Single.{page_address}
use phlox.Pages.GivenPage.{can_take}
use phlox.Pages.Sweep.{in_range}

-- Whether the page with a number exists and may be taken.
abbrev pub is_takeable : Pages → ℕ → Bool
is_takeable s page_num = elim (vm_page_lookup s page_num) [
  | none ↦ false
  | some p ↦ can_take (s.state p)
]

-- A range of pages that was free, clear or unused and is now busy. Where clear pages are wanted,
-- each of them was clear or has been cleared.
pub record RangeAllocated (s : Pages) (want : PageState) (p n : ℕ) (s' : Pages) : Type 0 where
  pub fits : p + n ≤ s.total_pages_count
  pub taken : (j : ℕ) → p ≤ j → j < p + n → can_take (s.state j) ≡ true
  pub consistent : IsConsistent s'
  pub state : (q : ℕ) → s'.state q ≡ (if in_range p n q then busy else s.state q)
  pub total : s'.total_pages_count ≡ s.total_pages_count
  pub clean :
      same_state want clear ≡ true
      → (j : ℕ) → p ≤ j
      → j < p + n
      → (same_state (s.state j) clear || has (page_address s j) s'.cleared) ≡ true

-- ===== src/Pages/AnyPage.antt =====
-- `vm_page_alloc`: which page it hands out, and in what state.
use phlox.Common.{
  List-cases, ℕ, ◌≡◌, ◌⊎◌, refl, true, false, arith, some, none, List, [], ◌∷◌, ◌||◌, inl, inr,
}
use phlox.Pages.{
  PageState, free, clear, same_state, Lists, ListName, free_pages_list, clear_pages_list,
  active_pages_list, same_list, list_at, set_list, Pages, returns, panic,
}
use phlox.Pages.Alloc.{take_page, hand_out, alloc_from, vm_page_alloc, vm_page_free_pages_count}
use phlox.Pages.Invariant.{list_of, IsConsistent}
use phlox.Pages.Single.{state_of, Allocated, hand_out-Allocated}

hand_out-none : (s : Pages) (want : PageState) → hand_out s want none ≡ panic
unfolding hand_out
hand_out-none s want = refl

-- Where `take_page` finds its page.
take_page-cases :
    (l : Lists) (name spare : ListName)
    → ((list_at l name ≡ []) × (list_at l spare ≡ []) × (take_page l name spare ≡ none))
      ⊎ ((p : ℕ) × (ps : List ℕ) × (source : ListName) × (take_page l name spare
            ≡ some (p, set_list l source ps, source))
          × (list_at l source ≡ p ∷ ps)
          × ((source ≡ name) ⊎ ((list_at l name ≡ []) × (source ≡ spare))))
unfolding take_page
take_page-cases l name spare = elim (List-cases (list_at l name)) [
  | inr (p, ps, e) ↦ inr (p, ps, name, ground (arith, e), e, inl refl)
  | inl e ↦ elim (List-cases (list_at l spare)) [
    | inr (p, ps, f) ↦ inr (p, ps, spare, ground (arith, e, f), f, inr (e, refl))
    | inl f ↦ inl (e, f, ground (arith, e, f))
  ]
]

-- Taking a page of either list, the given list first: it fails only if both are empty.
alloc_from-Allocated :
    (s : Pages) (want : PageState) (name spare : ListName)
    → IsConsistent s
    → same_list name active_pages_list ≡ false
    → same_list spare active_pages_list ≡ false
    → ((list_at s.lists name ≡ [])
        × (list_at s.lists spare ≡ [])
        × (alloc_from s want name spare ≡ panic))
      ⊎ ((p : ℕ) × (s' : Pages) × (alloc_from s want name spare ≡ returns (some p, s'))
          × Allocated s want p s'
          × ((s.state p ≡ state_of name)
              ⊎ ((list_at s.lists name ≡ []) × (s.state p ≡ state_of spare))))
unfolding alloc_from
alloc_from-Allocated s want name spare c h k = elim (take_page-cases s.lists name spare) [
  | inl (e, f, t) ↦ inl (e, f, rw t (hand_out-none s want))
  | inr (p, ps, source, t, e, why) ↦
      let source_ok : same_list source active_pages_list ≡ false = ground arith in
      let (s', run, got, is) = hand_out-Allocated s want source p ps c source_ok e in
      inr (p, s', rw t run, got, ground arith)
]

-- In a consistent page allocator, vm_page_alloc asked for a free or a clear page stops the system
-- only where the count of free and clear pages is 0; otherwise it returns a page of the array that
-- is now busy, the others unchanged and the allocator consistent; the page had the wanted state
-- or, only if the list of that state is empty, the other one of the two; where a clear page is
-- wanted it was clear or has just been cleared.
pub vm_page_alloc-Allocated :
    (s : Pages) (want : PageState)
    → IsConsistent s
    → (same_state want free || same_state want clear) ≡ true
    → ((vm_page_free_pages_count s ≡ 0) × (vm_page_alloc s want ≡ panic))
      ⊎ ((p : ℕ) × (s' : Pages) × (vm_page_alloc s want ≡ returns (some p, s'))
          × Allocated s want p s'
          × ((s.state p ≡ want)
              ⊎ ((list_at s.lists (list_of want) ≡ [])
                  × (same_state (s.state p) free || same_state (s.state p) clear ≡ true))))
unfolding vm_page_alloc vm_page_free_pages_count
vm_page_alloc-Allocated s free c h =
    elim (alloc_from-Allocated s free free_pages_list clear_pages_list c refl refl) [
      | inl (e, f, run) ↦ inl (rw (e, f) refl, run)
      | inr (p, s', run, got, why) ↦ inr (p, s', run, got, ground arith)
    ]
vm_page_alloc-Allocated s clear c h =
    elim (alloc_from-Allocated s clear clear_pages_list free_pages_list c refl refl) [
      | inl (e, f, run) ↦ inl (rw (e, f) refl, run)
      | inr (p, s', run, got, why) ↦ inr (p, s', run, got, ground arith)
    ]
vm_page_alloc-Allocated s other c h = absurd (ground arith)

-- Asked for a page in any other state it returns NULL and changes nothing.
pub vm_page_alloc-none :
    (s : Pages) (want : PageState)
    → (same_state want free || same_state want clear) ≡ false
    → vm_page_alloc s want ≡ returns (none, s)
unfolding vm_page_alloc
vm_page_alloc-none s free h = absurd (cc)
vm_page_alloc-none s clear h = absurd (cc)
vm_page_alloc-none s other h = refl

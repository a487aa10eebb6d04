-- ===== src/Pages/Single.antt =====
-- A page taken from the head of the free or the clear list, and what an allocation comes to.
use phlox.Common.{
  ℕ, ◌+◌, ◌*◌, ◌%◌, ◌<◌, ◌≡◌, ◌⊎◌, refl, true, false, arith, u32_mod, some, List, ◌∷◌, has, ◌&&◌,
  ◌||◌, Bool-cases, inl, inr,
}
use phlox.Pages.{
  PageState, active, free, clear, busy, same_state, ListName, free_pages_list, clear_pages_list,
  active_pages_list, same_list, list_at, set_list, Pages, returns, put_page_to_list,
}
use phlox.Pages.Alloc.{page_size, clear_page, occupy, taken, hand_out}
use phlox.Pages.Invariant.{list_of, IsConsistent, Moved, Moved-IsConsistent}
use phlox.Pages.Transition.{Changed}

-- The lists of pages that may be handed out.
abbrev pub state_of : ListName → PageState
state_of free_pages_list = free
state_of clear_pages_list = clear
state_of active_pages_list = active

free_of_list : (t : PageState) → same_list (list_of t) free_pages_list ≡ true → t ≡ free
free_of_list t h = ground arith

clear_of_list : (t : PageState) → same_list (list_of t) clear_pages_list ≡ true → t ≡ clear
clear_of_list t h = ground arith

-- The page at the head of the free or the clear list is in that state, and taking it is a step.
pub head-Moved :
    (s : Pages) (source : ListName) (p : ℕ) (ps : List ℕ)
    → IsConsistent s
    → same_list source active_pages_list ≡ false
    → list_at s.lists source ≡ p ∷ ps
    → (p < s.total_pages_count)
      × (s.state p ≡ state_of source)
      × Moved s p busy (occupy (taken s (set_list s.lists source ps) source) p)
unfolding occupy taken put_page_to_list
head-Moved s free_pages_list p ps c h e =
    let at = c.listed free_pages_list p in
    let here : has p s.lists.free_list ≡ true = rw e (ground arith) in
    let inside : p < s.total_pages_count = ground arith in
    let is : s.state p ≡ free = free_of_list (s.state p) (ground arith) in
    (
      inside,
      is,
      record {
        offset = refl;
        total = refl;
        state = refl;
        counters = λ t k. rw is (ground arith);
        lists = λ name. rw is (ground arith);
      },
    )
head-Moved s clear_pages_list p ps c h e =
    let at = c.listed clear_pages_list p in
    let here : has p s.lists.clear_list ≡ true = rw e (ground arith) in
    let inside : p < s.total_pages_count = ground arith in
    let is : s.state p ≡ clear = clear_of_list (s.state p) (ground arith) in
    (
      inside,
      is,
      record {
        offset = refl;
        total = refl;
        state = refl;
        counters = λ t k. rw is (ground arith);
        lists = λ name. rw is (ground arith);
      },
    )
head-Moved s active_pages_list p ps c h e = absurd (cc)

-- The address that `clear_page` is given for a page.
abbrev pub page_address : Pages → ℕ → ℕ
page_address s p = (s.physical_page_offset + p) * page_size % u32_mod

-- What an allocator of one page returns: a page of the array that was free or clear, which is now
-- busy; and where a clear page was wanted, one that was clear or has just been cleared.
pub record Allocated (s : Pages) (want : PageState) (p : ℕ) (s' : Pages) : Type 0 where
  pub inside : p < s.total_pages_count
  pub changed : Changed s p busy s'
  pub clean :
      same_state want clear ≡ true
      → (same_state (s.state p) clear ≡ true) ⊎ (s'.cleared ≡ page_address s p ∷ s.cleared)

-- The record of cleared pages does not matter to the invariant.
pub clear_page-IsConsistent : (s : Pages) (p : ℕ) → IsConsistent s → IsConsistent (clear_page s p)
unfolding clear_page
clear_page-IsConsistent s p c = record {
  bounded = c.bounded;
  valid = c.valid;
  counted = c.counted;
  listed = c.listed;
  distinct = c.distinct;
}

-- The page and its list, once `take_page` has chosen them.
pub hand_out-Allocated :
    (s : Pages) (want : PageState) (source : ListName) (p : ℕ) (ps : List ℕ)
    → IsConsistent s
    → same_list source active_pages_list ≡ false
    → list_at s.lists source ≡ p ∷ ps
    → (s' : Pages) × (hand_out s want (some (p, set_list s.lists source ps, source))
        ≡ returns (some p, s'))
      × Allocated s want p s'
      × (s.state p ≡ state_of source)
unfolding hand_out
hand_out-Allocated s want source p ps c h e =
    let (inside, is, m) = head-Moved s source p ps c h e in
    let s' = occupy (taken s (set_list s.lists source ps) source) p in
    let not_busy : same_state (s.state p) busy ≡ false = rw is (ground arith) in
    let c' : IsConsistent s' = Moved-IsConsistent p busy c m inside not_busy refl in
    let free_or_clear : (same_state (s.state p) free || same_state (s.state p) clear) ≡ true =
      rw is (ground arith) in
    elim (Bool-cases (same_state want clear && same_state (s.state p) free)) [
      | inl w ↦ (
        clear_page s' p,
        rw w refl,
        record {
          inside = inside;
          changed = record {
            consistent = clear_page-IsConsistent s' p c';
            state = m.state;
            total = m.total;
            offset = m.offset;
          };
          clean = λ k. inr refl;
        },
        is,
      )
      | inr w ↦ (
        s',
        rw w refl,
        record {
          inside = inside;
          changed = record { consistent = c'; state = m.state; total = m.total; offset = m.offset };
          clean = λ k. inl (ground arith);
        },
        is,
      )
    ]

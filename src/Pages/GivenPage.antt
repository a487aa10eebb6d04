-- ===== src/Pages/GivenPage.antt =====
-- `vm_page_alloc_specific`: when it hands out the page that it is asked for.
use phlox.Common.{
  ℕ, ◌+◌, ◌<◌, ◌≡◌, ◌⊎◌, refl, true, false, Bool, arith, some, none, ◌&&◌, ◌||◌, Bool-cases,
  Option-cases, inl, inr,
}
use phlox.Pages.{
  PageState, active, inactive, free, clear, wired, busy, unused, invalid, same_state, Pages,
  vm_page_lookup,
}
use phlox.Pages.Alloc.{clear_page, detach, occupy_from, take_specific, vm_page_alloc_specific}
use phlox.Pages.Invariant.{IsConsistent, Moved, Moved-IsConsistent}
use phlox.Pages.Single.{Allocated, clear_page-IsConsistent}

-- The states from which a given page may be taken.
abbrev pub can_take : PageState → Bool
can_take t = same_state t free || same_state t clear || same_state t unused

pub detach-none : (t : PageState) (s : Pages) (p : ℕ) → can_take t ≡ false → detach t s p ≡ none
unfolding detach
detach-none free s p h = absurd (cc)
detach-none clear s p h = absurd (cc)
detach-none unused s p h = absurd (cc)
detach-none other s p h = refl

-- Detaching a page and putting it into state BUSY together are a step.
pub detach-Moved :
    (t : PageState) (s : Pages) (p : ℕ)
    → s.state p ≡ t
    → can_take t ≡ true
    → (s' : Pages) × (detach t s p ≡ some s')
      × Moved s p busy (occupy_from t s' p)
      × (s'.cleared ≡ s.cleared)
unfolding detach occupy_from
detach-Moved free s p is h = (
  _,
  refl,
  record {
    offset = refl;
    total = refl;
    state = refl;
    counters = λ u k. rw is (ground arith);
    lists = λ name. rw is (ground arith);
  },
  refl,
)
detach-Moved clear s p is h = (
  _,
  refl,
  record {
    offset = refl;
    total = refl;
    state = refl;
    counters = λ u k. rw is (ground arith);
    lists = λ name. rw is (ground arith);
  },
  refl,
)
detach-Moved unused s p is h = (
  _,
  refl,
  record {
    offset = refl;
    total = refl;
    state = refl;
    counters = λ u k. rw is (ground arith);
    lists = λ name. rw is (ground arith);
  },
  refl,
)
detach-Moved active s p is h = absurd (cc)
detach-Moved inactive s p is h = absurd (cc)
detach-Moved wired s p is h = absurd (cc)
detach-Moved busy s p is h = absurd (cc)
detach-Moved (invalid n) s p is h = absurd (ground arith)

-- The page with a number, where there is one.
pub vm_page_lookup-some :
    (s : Pages) (page_num p : ℕ)
    → vm_page_lookup s page_num ≡ some p
    → (p < s.total_pages_count) × (page_num ≡ s.physical_page_offset + p)
unfolding vm_page_lookup
vm_page_lookup-some s page_num p h = ground arith

take_specific-none :
    (s : Pages) (want old : PageState) (p : ℕ) → take_specific s want old p none ≡ (none, s)
unfolding take_specific occupy_from clear_page
take_specific-none s want old p = refl

take_specific-Allocated :
    (s : Pages) (p : ℕ) (want : PageState)
    → IsConsistent s
    → p < s.total_pages_count
    → can_take (s.state p) ≡ true
    → (s' : Pages) × (take_specific s want (s.state p) p (detach (s.state p) s p) ≡ (some p, s'))
      × Allocated s want p s'
unfolding take_specific occupy_from clear_page
take_specific-Allocated s p want c inside can =
    let (d, e, m, kept) = detach-Moved (s.state p) s p refl can in
    let t = occupy_from (s.state p) d p in
    let not_busy : same_state (s.state p) busy ≡ false = ground arith in
    let c' : IsConsistent t = Moved-IsConsistent p busy c m inside not_busy refl in
    elim (Bool-cases
      (same_state want clear && (same_state (s.state p) free || same_state (s.state p) unused))) [
        | inl w ↦ (
          clear_page t p,
          rw e (rw w refl),
          record {
            inside = inside;
            changed = record {
              consistent = clear_page-IsConsistent t p c';
              state = m.state;
              total = m.total;
              offset = m.offset;
            };
            clean = λ k. inr (ground (arith, m.offset, kept));
          },
        )
        | inr w ↦ (
          t,
          rw e (rw w refl),
          record {
            inside = inside;
            changed = record {
              consistent = c';
              state = m.state;
              total = m.total;
              offset = m.offset;
            };
            clean = λ k. inl (ground arith);
          },
        )
      ]

-- In a consistent page allocator, vm_page_alloc_specific returns NULL and changes nothing where
-- there is no page with the number or it is not free, clear or unused; otherwise it returns that
-- page, now busy, the allocator consistent, and the page was clear or has just been cleared where
-- a clear page is wanted.
pub vm_page_alloc_specific-cases :
    (s : Pages) (page_num : ℕ) (want : PageState)
    → IsConsistent s
    → ((vm_page_alloc_specific s page_num want ≡ (none, s))
        × ((vm_page_lookup s page_num ≡ none)
            ⊎ ((p : ℕ) × (vm_page_lookup s page_num ≡ some p) × (can_take (s.state p) ≡ false))))
      ⊎ ((p : ℕ) × (s' : Pages) × (vm_page_alloc_specific s page_num want ≡ (some p, s'))
          × (page_num ≡ s.physical_page_offset + p)
          × (can_take (s.state p) ≡ true)
          × Allocated s want p s')
unfolding vm_page_alloc_specific
vm_page_alloc_specific-cases s page_num want c = elim (Option-cases (vm_page_lookup s page_num)) [
  | inl e ↦ inl (rw (e, vm_page_alloc_specific) refl, inl e)
  | inr (p, e) ↦ elim (Bool-cases (can_take (s.state p))) [
    | inr out ↦ inl (
      rw (e, vm_page_alloc_specific)
          (rw (detach-none (s.state p) s p out) (take_specific-none s want (s.state p) p)),
      inr (p, e, out),
    )
    | inl can ↦
        let (inside, number) = vm_page_lookup-some s page_num p e in
        let (s', run, got) = take_specific-Allocated s p want c inside can in
        inr (p, s', rw (e, vm_page_alloc_specific) run, number, can, got)
  ]
]

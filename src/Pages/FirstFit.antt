-- ===== src/Pages/FirstFit.antt =====
-- `vm_page_alloc_range` finds the first range of free or clear pages that its bound admits.
use phlox.Common.{
  ℕ, zero, suc, ◌+◌, ◌≤◌, ◌<◌, ◌%◌, ◌≡◌, ◌⊎◌, refl, true, false, arith, Bool-cases, ◌==◌, ==_iff,
  inl, inr, Option, some, none, u32_mod, leb,
}
use phlox.Pages.{PageState, busy, Pages, Outcome, returns}
use phlox.Pages.Range.{is_free_or_clear, scan_range, search_range, vm_page_alloc_range}
use phlox.Pages.Invariant.{IsConsistent}
use phlox.Pages.Sweep.{Swept, set_busy-Swept}

-- A page of the range of `n` pages from `b` on is neither free nor clear.
pub Blocked : Pages → (n b : ℕ) → Type 0
Blocked s n b = (j : ℕ) × (b ≤ j) × (j < b + n) × (is_free_or_clear (s.state j) ≡ false)

-- The range from `start` on, which lies below the last page and was free or clear, is now busy; no
-- earlier range of the size was free or clear throughout.
pub record FirstFit (s : Pages) (n start : ℕ) (s' : Pages) : Type 0 where
  pub fits : start + n < s.total_pages_count
  pub unblocked : (j : ℕ) → j < n → is_free_or_clear (s.state (start + j)) ≡ true
  pub first : (b : ℕ) → b < start → Blocked s n b
  pub swept : Swept s start n (λ _. true) busy s'

scan_range-cases :
    (n : ℕ) (s : Pages) (start i : ℕ)
    → ((scan_range n s start i ≡ none)
        × ((j : ℕ) → i ≤ j → j < i + n → is_free_or_clear (s.state (start + j)) ≡ true))
      ⊎ ((m : ℕ) × (scan_range n s start i ≡ some (m + 1))
          × (m < i + n)
          × (is_free_or_clear (s.state (start + m)) ≡ false))
unfolding scan_range
scan_range-cases zero s start i = inl (refl, λ j h k. absurd (omega arith))
scan_range-cases (suc n) s start i = elim (Bool-cases (is_free_or_clear (s.state (start + i)))) [
  | inr e ↦ inr (i, rw e refl, omega arith, e)
  | inl e ↦ elim (scan_range-cases n s start (i + 1)) [
    | inr (m, run, h, bad) ↦ inr (m, rw e run, omega (arith, h), bad)
    | inl (run, ok) ↦ inl (
      rw e run,
      λ j h k. elim (Bool-cases (j == i)) [
        | inl f ↦ ground (arith, (==_iff j i).0 f, e)
        | inr f ↦ ok j (ground arith) (omega arith)
      ],
    )
  ]
]

-- What the search returns from `start` on, if all the ranges before that are blocked.
Searched : Pages → (n : ℕ) → Outcome (Option ℕ × Pages) → Type 0
Searched s n r =
    ((r ≡ returns (none, s)) × ((b : ℕ) → b + n < s.total_pages_count → Blocked s n b))
    ⊎ ((start : ℕ) × (s' : Pages) × (r ≡ returns (some start, s')) × FirstFit s n start s')

search_range-Searched :
    (fuel : ℕ) (s : Pages) (n start : ℕ)
    → IsConsistent s
    → s.total_pages_count + n < u32_mod
    → start ≤ s.total_pages_count
    → s.total_pages_count < start + fuel
    → ((b : ℕ) → b < start → Blocked s n b)
    → Searched s n (search_range fuel s n start)
unfolding search_range Searched Blocked
search_range-Searched zero s n start c small low enough before = absurd (omega arith)
search_range-Searched (suc fuel) s n start c small low enough before =
    elim (Bool-cases (leb s.total_pages_count ((start + n) % u32_mod))) [
      | inl e ↦ inl (rw e refl, λ b h. before b (ground arith))
      | inr e ↦ elim (scan_range-cases n s start 0) [
        | inl (run, ok) ↦
            let fits : start + n < s.total_pages_count = ground arith in
            let (s', set, sw) = set_busy-Swept n s start c (omega arith) in
            inr (
              start,
              s',
              rw (e, run, set) refl,
              record {
                fits = fits;
                unblocked = λ j h. ok j (omega arith) (omega arith);
                first = before;
                swept = sw;
              },
            )
        | inr (m, run, h, bad) ↦
            let next : (b : ℕ) → b < start + (m + 1) → Blocked s n b = λ b k.
              elim (Bool-cases (leb start b)) [
                | inl f ↦ (start + m, omega arith, ground arith, bad)
                | inr f ↦ before b (ground arith)
              ] in
            elim (Bool-cases (leb s.total_pages_count ((start + (m + 1)) % u32_mod))) [
              | inl f ↦ inl (rw (e, run, f) refl, λ b k. next b (ground arith))
              | inr f ↦
                  let same : (start + (m + 1)) % u32_mod ≡ start + (m + 1) = ground arith in
                  rw (e, run, f, same)
                    (search_range-Searched fuel s n (start + (m + 1)) c small (ground arith)
                      (omega arith) next)
            ]
      ]
    ]

-- In a consistent page allocator, if the number of pages plus npages is a 32-bit number,
-- vm_page_alloc_range returns (fuel of one more than the number of pages suffices): either the
-- first range of npages free or clear pages that ends below the last page, all of them now busy,
-- the others unchanged, none cleared and the allocator consistent; or NULL with nothing changed,
-- and then every such range has a page that is neither free nor clear.
pub vm_page_alloc_range-FirstFit :
    (s : Pages) (page_state : PageState) (npages : ℕ)
    → IsConsistent s
    → s.total_pages_count + npages < u32_mod
    → ((vm_page_alloc_range s page_state npages ≡ returns (none, s))
        × ((b : ℕ) → b + npages < s.total_pages_count → Blocked s npages b))
      ⊎ ((start : ℕ) × (s' : Pages) × (vm_page_alloc_range s page_state npages
            ≡ returns (some start, s'))
          × FirstFit s npages start s')
unfolding vm_page_alloc_range Searched
vm_page_alloc_range-FirstFit s page_state npages c small =
    search_range-Searched (s.total_pages_count + 1) s npages 0 c small (omega arith) (omega arith)
      (λ b h. absurd (omega arith))

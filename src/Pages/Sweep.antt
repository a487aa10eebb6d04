-- ===== src/Pages/Sweep.antt =====
-- The loops over a range of pages: they change the states of the range alone, and never panic.
use phlox.Common.{
  ℕ, zero, suc, ◌+◌, ◌≤◌, ◌<◌, ◌≡◌, refl, ap, ◌∙◌, true, Bool, arith, if◌then◌else◌, ◌&&◌, ltb, leb,
  Bool-cases, inl, inr, ◌⊎◌, ◌-◌, ◌%◌, u32_mod,
}
use phlox.Pages.{PageState, busy, unused, Pages, returns}
use phlox.Pages.Range.{
  no_error, err_invalid_args, is_free_or_clear, set_busy, mark_pages, vm_page_mark_range_inuse,
}
use phlox.Pages.Invariant.{IsConsistent}
use phlox.Pages.Transition.{set_page_state-Changed}

-- Whether a page lies in the range of `n` pages from `p` on.
abbrev pub in_range : (p n q : ℕ) → Bool
in_range p n q = leb p q && ltb q (p + n)

-- The pages of a range that pass the test go to state `v`; nothing else changes.
pub record Swept (s : Pages) (p n : ℕ) (test : PageState → Bool) (v : PageState) (s' : Pages)
    : Type 0 where
  pub consistent : IsConsistent s'
  pub state : (q : ℕ) → s'.state q ≡ (if in_range p n q && test (s.state q) then v else s.state q)
  pub total : s'.total_pages_count ≡ s.total_pages_count
  pub offset : s'.physical_page_offset ≡ s.physical_page_offset
  pub cleared : s'.cleared ≡ s.cleared

pub set_busy-Swept :
    (n : ℕ) (s : Pages) (p : ℕ)
    → IsConsistent s
    → p + n ≤ s.total_pages_count
    → (s' : Pages) × (set_busy n s p ≡ returns s') × Swept s p n (λ _. true) busy s'
unfolding set_busy
set_busy-Swept zero s p c h = (
  s,
  refl,
  record { consistent = c; state = λ q. ground arith; total = refl; offset = refl; cleared = refl },
)
set_busy-Swept (suc n) s p c h =
    let (t, run, ch, kept) = set_page_state-Changed s p busy c (omega arith) refl in
    let (s', rest, sw) = set_busy-Swept n t (p + 1) ch.consistent (omega (arith, ch.total)) in
    let t_state = λ (q : ℕ). ap (λ (f : ℕ → PageState). f q) ch.state in
    (
      s',
      rw run rest,
      record {
        consistent = sw.consistent;
        state = λ q. ground (arith, sw.state q, t_state q);
        total = sw.total ∙ ch.total;
        offset = sw.offset ∙ ch.offset;
        cleared = sw.cleared ∙ kept;
      },
    )

pub mark_pages-Swept :
    (n : ℕ) (s : Pages) (p : ℕ)
    → IsConsistent s
    → p + n ≤ s.total_pages_count
    → (s' : Pages) × (mark_pages n s p ≡ returns s') × Swept s p n is_free_or_clear unused s'
unfolding mark_pages
mark_pages-Swept zero s p c h = (
  s,
  refl,
  record { consistent = c; state = λ q. ground arith; total = refl; offset = refl; cleared = refl },
)
mark_pages-Swept (suc n) s p c h = elim (Bool-cases (is_free_or_clear (s.state p))) [
  | inl e ↦
      let (t, run, ch, kept) = set_page_state-Changed s p unused c (omega arith) refl in
      let (s', rest, sw) = mark_pages-Swept n t (p + 1) ch.consistent (omega (arith, ch.total)) in
      let t_state = λ (q : ℕ). ap (λ (f : ℕ → PageState). f q) ch.state in
      (
        s',
        rw e (rw run rest),
        record {
          consistent = sw.consistent;
          state = λ q. ground (arith, sw.state q, t_state q);
          total = sw.total ∙ ch.total;
          offset = sw.offset ∙ ch.offset;
          cleared = sw.cleared ∙ kept;
        },
      )
  | inr e ↦
      let (s', rest, sw) = mark_pages-Swept n s (p + 1) c (omega arith) in
      (
        s',
        rw e rest,
        record {
          consistent = sw.consistent;
          state = λ q. ground (arith, sw.state q);
          total = sw.total;
          offset = sw.offset;
          cleared = sw.cleared;
        },
      )
]

-- In a consistent page allocator, on a range whose end is a 32-bit number,
-- vm_page_mark_range_inuse either reports an error with nothing changed, where the range starts
-- below the first page or ends at or above the last one, or sets exactly the free and the clear
-- pages of the range to UNUSED, the allocator staying consistent.
pub vm_page_mark_range_inuse-Swept :
    (s : Pages) (start_page len_pages : ℕ)
    → IsConsistent s
    → start_page + len_pages < u32_mod
    → ((vm_page_mark_range_inuse s start_page len_pages ≡ returns (err_invalid_args, s))
        × ((start_page < s.physical_page_offset)
            ⊎ (s.physical_page_offset + s.total_pages_count ≤ start_page + len_pages)))
      ⊎ ((p : ℕ) × (s' : Pages) × (vm_page_mark_range_inuse s start_page len_pages
            ≡ returns (no_error, s'))
          × (start_page ≡ s.physical_page_offset + p)
          × (p + len_pages < s.total_pages_count)
          × Swept s p len_pages is_free_or_clear unused s')
unfolding vm_page_mark_range_inuse
vm_page_mark_range_inuse-Swept s start_page len_pages c small =
    elim (Bool-cases (ltb start_page s.physical_page_offset)) [
      | inl e ↦ inl (rw e refl, inl (ground arith))
      | inr e ↦
          let p = start_page - s.physical_page_offset in
          elim (Bool-cases (leb s.total_pages_count ((p + len_pages) % u32_mod))) [
            | inl f ↦ inl (rw (e, f) refl, inr (ground arith))
            | inr f ↦
                let inside : p + len_pages < s.total_pages_count = ground arith in
                let (s', run, sw) = mark_pages-Swept len_pages s p c (omega arith) in
                inr (p, s', rw (e, f, run) refl, ground arith, inside, sw)
          ]
    ]

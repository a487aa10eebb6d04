-- ===== src/Pages/Claim.antt =====
-- The two loops of `vm_page_alloc_specific_range` that change pages: it claims them, and clears them.
use phlox.Common.{
  ℕ, zero, suc, ◌+◌, ◌≤◌, ◌<◌, ◌≡◌, refl, ap, ◌∙◌, Bool, true, false, arith, Bool-cases, ◌==◌,
  ==_iff, inl, inr, has, if◌then◌else◌, ◌&&◌, ◌||◌,
}
use phlox.Pages.{PageState, free, clear, busy, unused, same_state, Pages, returns}
use phlox.Pages.Alloc.{clear_page, occupy_from}
use phlox.Pages.Range.{claim_pages, clear_pages_from}
use phlox.Pages.Invariant.{IsConsistent, Moved-IsConsistent}
use phlox.Pages.Single.{page_address, clear_page-IsConsistent}
use phlox.Pages.GivenPage.{can_take, detach-Moved}
use phlox.Pages.Sweep.{Swept}

-- The pages of the range that have to be cleared where clear pages are wanted.
abbrev pub is_dirty : PageState → Bool
is_dirty t = same_state t free || same_state t unused

-- One round of `claim_pages`.
claim_pages-step :
    (s : Pages) (p : ℕ)
    → IsConsistent s
    → p < s.total_pages_count
    → can_take (s.state p) ≡ true
    → (t : Pages) × ((n : ℕ) (want : PageState) (b : Bool)
        → claim_pages (suc n) s want p b
          ≡ claim_pages n t want (p + 1) (b || same_state want clear && is_dirty (s.state p)))
      × Swept s p 1 (λ _. true) busy t
unfolding claim_pages occupy_from
claim_pages-step s p c inside here =
    let (d, e, m, kept) = detach-Moved (s.state p) s p refl here in
    let t = occupy_from (s.state p) d p in
    let not_busy : same_state (s.state p) busy ≡ false = ground arith in
    let t_state = λ (q : ℕ). ap (λ (f : ℕ → PageState). f q) m.state in
    (
      t,
      λ n want b. rw (e, claim_pages) refl,
      record {
        consistent = Moved-IsConsistent p busy c m inside not_busy refl;
        state = λ q. t_state q ∙ ap (λ (b : Bool). if b then busy else s.state q) (ground arith);
        total = m.total;
        offset = m.offset;
        cleared = kept;
      },
    )

-- Two ranges swept one after the other.
Swept-append :
    (s t s' : Pages) (p n : ℕ)
    → Swept s p 1 (λ _. true) busy t
    → Swept t (p + 1) n (λ _. true) busy s'
    → Swept s p (suc n) (λ _. true) busy s'
Swept-append s t s' p n a b = record {
  consistent = b.consistent;
  state = λ q. ground (arith, a.state q, b.state q);
  total = b.total ∙ a.total;
  offset = b.offset ∙ a.offset;
  cleared = b.cleared ∙ a.cleared;
}

Swept-outside :
    (s t : Pages) (p j : ℕ) → Swept s p 1 (λ _. true) busy t → p < j → t.state j ≡ s.state j
Swept-outside s t p j a h = ground (arith, a.state j)

-- No page of a range has to be cleared.
abbrev pub Clean : Pages → (want : PageState) (p n : ℕ) → Type 0
Clean s want p n =
    (j : ℕ) → p ≤ j → j < p + n → (same_state want clear && is_dirty (s.state j)) ≡ false

Clean-suc :
    (s t : Pages) (want : PageState) (p n : ℕ) (b : Bool)
    → Swept s p 1 (λ _. true) busy t
    → (b || same_state want clear && is_dirty (s.state p)) ≡ false
    → Clean t want (p + 1) n
    → (b ≡ false) × Clean s want p (suc n)
Clean-suc s t want p n b a g later = (
  ground arith,
  λ j k l. elim (Bool-cases (j == p)) [
    | inl i ↦ ground (arith, (==_iff j p).0 i, g)
    | inr i ↦
        let h : p < j = ground arith in
        ground (arith, later j (omega arith) (omega arith), Swept-outside s t p j a h)
  ],
)

pub claim_pages-Swept :
    (n : ℕ) (s : Pages) (want : PageState) (p : ℕ) (b : Bool)
    → IsConsistent s
    → p + n ≤ s.total_pages_count
    → ((j : ℕ) → p ≤ j → j < p + n → can_take (s.state j) ≡ true)
    → (s' : Pages) × (b' : Bool) × (claim_pages n s want p b ≡ returns (s', b'))
      × Swept s p n (λ _. true) busy s'
      × (b' ≡ false → (b ≡ false) × Clean s want p n)
unfolding claim_pages
claim_pages-Swept zero s want p b c h can = (
  s,
  b,
  refl,
  record { consistent = c; state = λ q. ground arith; total = refl; offset = refl; cleared = refl },
  λ e. (e, λ j k l. absurd (omega arith)),
)
claim_pages-Swept (suc n) s want p b c h can =
    let (t, step, a) = claim_pages-step s p c (omega arith) (can p (omega arith) (omega arith)) in
    let can' : (j : ℕ) → p + 1 ≤ j → j < p + 1 + n → can_take (t.state j) ≡ true =
      λ j k l. rw (Swept-outside s t p j a (omega arith)) (can j (omega arith) (omega arith)) in
    let (s', b', run, sw, dirty) =
      claim_pages-Swept n t want (p + 1) (b || same_state want clear && is_dirty (s.state p))
        a.consistent (omega (arith, a.total)) can' in
    (
      s',
      b',
      step n want b ∙ run,
      Swept-append s t s' p n a sw,
      λ f. let (g, later) = dirty f in Clean-suc s t want p n b a g later,
    )

-- The record of the cleared pages is all that `clear_pages_from` changes.
pub record ClearedFrom (s : Pages) (p n : ℕ) (s' : Pages) : Type 0 where
  pub consistent : IsConsistent s → IsConsistent s'
  pub state : s'.state ≡ s.state
  pub total : s'.total_pages_count ≡ s.total_pages_count
  pub offset : s'.physical_page_offset ≡ s.physical_page_offset
  pub kept : (a : ℕ) → has a s.cleared ≡ true → has a s'.cleared ≡ true
  pub all : (j : ℕ) → p ≤ j → j < p + n → has (page_address s j) s'.cleared ≡ true

pub clear_pages_from-ClearedFrom :
    (n : ℕ) (s : Pages) (p : ℕ) → ClearedFrom s p n (clear_pages_from n s p)
unfolding clear_pages_from clear_page
clear_pages_from-ClearedFrom zero s p = record {
  consistent = λ c. c;
  state = refl;
  total = refl;
  offset = refl;
  kept = λ a h. h;
  all = λ j h k. absurd (omega arith);
}
clear_pages_from-ClearedFrom (suc n) s p =
    let rest = clear_pages_from-ClearedFrom n (clear_page s p) (p + 1) in
    record {
      consistent = λ c. rest.consistent (clear_page-IsConsistent s p c);
      state = rest.state;
      total = rest.total;
      offset = rest.offset;
      kept = λ a h. rest.kept a (ground arith);
      all = λ j h k. elim (Bool-cases (j == p)) [
        | inl e ↦ rest.kept (page_address s j) (rw ((==_iff j p).0 e) (ground arith))
        | inr e ↦ rest.all j (ground arith) (omega arith)
      ];
    }

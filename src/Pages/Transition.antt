-- ===== src/Pages/Transition.antt =====
-- `set_page_state` and the allocators of one page are steps of the kind that Pages/Invariant
-- describes.
use phlox.Common.{
  ℕ, ◌<◌, ◌≡◌, refl, ap, ◌∙◌, true, arith, ◌==◌, if◌then◌else◌, inc32, dec32, Bool-cases, inl, inr,
  ==_iff,
}
use mathlib.Core.Path.{fun_ext, subst}
use phlox.Pages.{
  PageState, active, inactive, free, clear, wired, busy, unused, invalid, same_state, update,
  Counters, Lists, ListName, list_at, Pages, returns, panic, leave_state, enter_state,
  move_page_to_list, set_page_state,
}
use phlox.Pages.Tally.{eq_of_same_state}
use phlox.Pages.Invariant.{named, counter, list_of, moved, IsConsistent, Moved, Moved-IsConsistent}

leave_state-returns :
    (t : PageState) (c : Counters)
    → named t ≡ true
    → (c' : Counters) × (leave_state t c ≡ returns (c', list_of t))
      × ((u : PageState)
          → named u ≡ true
          → counter c' u ≡ (if same_state t u then dec32 (counter c u) else counter c u))
unfolding leave_state
leave_state-returns active c h = (_, refl, λ u k. ground arith)
leave_state-returns inactive c h = (_, refl, λ u k. ground arith)
leave_state-returns free c h = (_, refl, λ u k. ground arith)
leave_state-returns clear c h = (_, refl, λ u k. ground arith)
leave_state-returns wired c h = (_, refl, λ u k. ground arith)
leave_state-returns busy c h = (_, refl, λ u k. ground arith)
leave_state-returns unused c h = (_, refl, λ u k. ground arith)
leave_state-returns (invalid n) c h = absurd (cc)

enter_state-returns :
    (t : PageState) (c : Counters)
    → named t ≡ true
    → (c' : Counters) × (enter_state t c ≡ returns (c', list_of t))
      × ((u : PageState)
          → named u ≡ true
          → counter c' u ≡ (if same_state t u then inc32 (counter c u) else counter c u))
unfolding enter_state
enter_state-returns active c h = (_, refl, λ u k. ground arith)
enter_state-returns inactive c h = (_, refl, λ u k. ground arith)
enter_state-returns free c h = (_, refl, λ u k. ground arith)
enter_state-returns clear c h = (_, refl, λ u k. ground arith)
enter_state-returns wired c h = (_, refl, λ u k. ground arith)
enter_state-returns busy c h = (_, refl, λ u k. ground arith)
enter_state-returns unused c h = (_, refl, λ u k. ground arith)
enter_state-returns (invalid n) c h = absurd (cc)

move_page_to_list-moved :
    (l : Lists) (from to name : ListName) (p : ℕ)
    → list_at (move_page_to_list l from to p) name ≡ moved from to p name (list_at l name)
unfolding move_page_to_list
move_page_to_list-moved l from to name p = ground arith

-- What a routine that changes one page's state comes to.
pub record Changed (s : Pages) (p : ℕ) (v : PageState) (s' : Pages) : Type 0 where
  pub consistent : IsConsistent s'
  pub state : s'.state ≡ update s.state p v
  pub total : s'.total_pages_count ≡ s.total_pages_count
  pub offset : s'.physical_page_offset ≡ s.physical_page_offset

update_same :
    (f : ℕ → PageState) (p : ℕ) (v : PageState) → same_state (f p) v ≡ true → f ≡ update f p v
update_same f p v h = fun_ext λ q. elim (Bool-cases (q == p)) [
  | inl e ↦ rw e (ap f ((==_iff q p).0 e) ∙ eq_of_same_state (f p) v h)
  | inr e ↦ rw e
]

-- In a consistent page allocator, set_page_state on a page of the array to a state of the
-- enumeration returns, changes the state of that page alone, and keeps every counter the number of
-- pages in its state and every list the pages of its states, each once.
pub set_page_state-Changed :
    (s : Pages) (p : ℕ) (v : PageState)
    → IsConsistent s
    → p < s.total_pages_count
    → named v ≡ true
    → (s' : Pages) × (set_page_state s p v ≡ returns s')
      × Changed s p v s'
      × (s'.cleared ≡ s.cleared)
unfolding set_page_state
set_page_state-Changed s p v c inside h = elim (Bool-cases (same_state (s.state p) v)) [
  | inl e ↦ (
    s,
    rw e,
    record { consistent = c; state = update_same s.state p v e; total = refl; offset = refl },
    refl,
  )
  | inr e ↦
      let (c1, left, count1) = leave_state-returns (s.state p) s.counters (c.valid p inside) in
      let (c2, entered, count2) = enter_state-returns v c1 h in
      let s' : Pages = record s {
        counters = c2;
        lists = move_page_to_list s.lists (list_of (s.state p)) (list_of v) p;
        state = update s.state p v;
      } in
      let m : Moved s p v s' = record {
        offset = refl;
        total = refl;
        state = refl;
        counters = λ t k. ground (arith, count1 t k, count2 t k);
        lists = λ name. move_page_to_list-moved s.lists (list_of (s.state p)) (list_of v) name p;
      } in
      (
        s',
        rw (e, left, entered),
        record {
          consistent = Moved-IsConsistent p v c m inside e h;
          state = refl;
          total = refl;
          offset = refl;
        },
        refl,
      )
]

-- Any other target state stops the system, unless the page is in it already.
pub set_page_state-panic :
    (s : Pages) (p n : ℕ)
    → IsConsistent s
    → p < s.total_pages_count
    → set_page_state s p (invalid n) ≡ panic
unfolding set_page_state
set_page_state-panic s p n c inside =
    let (c1, left, count1) = leave_state-returns (s.state p) s.counters (c.valid p inside) in
    let valid = c.valid p inside in
    elim (Bool-cases (same_state (s.state p) (invalid n))) [
      | inl e ↦
          let bad : named (invalid n) ≡ true =
            subst (λ t. named t ≡ true) (eq_of_same_state (s.state p) (invalid n) e) valid in
          absurd (cc)
      | inr e ↦ rw (e, left, enter_state)
    ]

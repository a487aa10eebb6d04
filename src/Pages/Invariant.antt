-- ===== src/Pages/Invariant.antt =====
-- The invariant of the page allocator, and the one step that all its routines take: a page goes
-- from its state and list to another state and its list.
use phlox.Common.{
  has-erase_ne, has-erase_self, Distinct-erase, Distinct-append_one, ℕ, ◌<◌, ◌≡◌, true, false, Bool,
  arith, ◌==◌, if◌then◌else◌, inc32, dec32, u32_mod, List, [], ◌∷◌, ◌++◌, has, erase, Distinct,
  has-append, ◌&&◌, ltb, Bool-cases, inl, inr,
}
use phlox.Pages.{
  PageState, active, inactive, free, clear, wired, busy, unused, invalid, same_state, update,
  Counters, ListName, free_pages_list, clear_pages_list, active_pages_list, same_list, list_at,
  Pages,
}
use phlox.Pages.Tally.{tally, tally-le, tally_pos, tally-update}

-- The states of the enumeration.
abbrev pub named : PageState → Bool
named (invalid n) = false
named active = true
named inactive = true
named free = true
named clear = true
named wired = true
named busy = true
named unused = true

-- The counter of a state.
abbrev pub counter : Counters → PageState → ℕ
counter c active = c.active_pages
counter c inactive = c.inactive_pages
counter c free = c.free_pages
counter c clear = c.clear_pages
counter c wired = c.wired_pages
counter c busy = c.busy_pages
counter c unused = c.unused_pages
counter c (invalid n) = 0

-- The list that holds the pages of a state.
abbrev pub list_of : PageState → ListName
list_of free = free_pages_list
list_of clear = clear_pages_list
list_of active = active_pages_list
list_of inactive = active_pages_list
list_of wired = active_pages_list
list_of busy = active_pages_list
list_of unused = active_pages_list
list_of (invalid n) = active_pages_list

-- Each page has a state of the enumeration; each counter is the number of pages in its state; each
-- list holds exactly the pages whose state belongs to it, once.
pub record IsConsistent (s : Pages) : Type 0 where
  pub bounded : s.total_pages_count < u32_mod
  pub valid : (p : ℕ) → p < s.total_pages_count → named (s.state p) ≡ true
  pub counted :
      (t : PageState) → named t ≡ true → counter s.counters t ≡ tally s.total_pages_count s.state t
  pub listed :
      (name : ListName) (p : ℕ)
      → has p (list_at s.lists name)
        ≡ (ltb p s.total_pages_count && same_list (list_of (s.state p)) name)
  pub distinct : (name : ListName) → Distinct (list_at s.lists name)

-- What a list becomes when page `p` moves from one list to another.
abbrev pub moved : ListName → ListName → ℕ → ListName → List ℕ → List ℕ
moved from to p name xs =
    if same_list from to
    then xs
    else if same_list from name
    then erase p xs
    else if same_list to name
    then xs ++ p ∷ []
    else xs

same_list_trans :
    (a b n : ListName)
    → (same_list a b ≡ true → same_list a n ≡ same_list b n)
      × (same_list a n ≡ true → same_list b n ≡ true → same_list a b ≡ true)
same_list_trans a b n = ground arith

has-moved :
    (from to name : ListName) (p q : ℕ) (xs : List ℕ)
    → Distinct xs
    → has p xs ≡ same_list from name
    → has q (moved from to p name xs) ≡ (if q == p then same_list to name else has q xs)
has-moved from to name p q xs d at = ground (
  arith,
  same_list_trans from to name,
  has-erase_self p xs d,
  has-erase_ne q p xs,
  has-append q xs (p ∷ []),
)

Distinct-moved :
    (from to name : ListName) (p : ℕ) (xs : List ℕ)
    → Distinct xs
    → has p xs ≡ same_list from name
    → Distinct (moved from to p name xs)
Distinct-moved from to name p xs d at =
    ground (arith, same_list_trans from to name, Distinct-erase p xs d, Distinct-append_one p xs d)

-- Page `p` goes to state `v`: its state, the two counters and the two lists change, and no more.
pub record Moved (s : Pages) (p : ℕ) (v : PageState) (s' : Pages) : Type 0 where
  pub offset : s'.physical_page_offset ≡ s.physical_page_offset
  pub total : s'.total_pages_count ≡ s.total_pages_count
  pub state : s'.state ≡ update s.state p v
  pub counters :
      (t : PageState)
      → named t ≡ true
      → counter s'.counters t ≡ (
          let c =
            if same_state (s.state p) t
            then dec32 (counter s.counters t)
            else counter s.counters t in
          if same_state v t then inc32 c else c)
  pub lists :
      (name : ListName)
      → list_at s'.lists name
        ≡ moved (list_of (s.state p)) (list_of v) p name (list_at s.lists name)

module _ {s : Pages} (p : ℕ) (v : PageState) {s' : Pages} (c : IsConsistent s) (m : Moved s p v s')
    (inside : p < s.total_pages_count) (other : same_state (s.state p) v ≡ false)
    (name_v : named v ≡ true) where
  Moved-counted :
      (t : PageState)
      → named t ≡ true
      → counter s'.counters t ≡ tally s'.total_pages_count s'.state t
  Moved-counted t h =
      rw (m.total, m.state)
        (ground (
          arith,
          m.counters t h,
          c.counted t h,
          c.bounded,
          tally-update s.total_pages_count s.state p v t inside,
          tally-le s.total_pages_count s.state t,
          tally-le s.total_pages_count (update s.state p v) t,
          tally_pos s.total_pages_count s.state t p inside,
        ))

  Moved-listed :
      (name : ListName) (q : ℕ)
      → has q (list_at s'.lists name)
        ≡ (ltb q s'.total_pages_count && same_list (list_of (s'.state q)) name)
  Moved-listed name q =
      let at_p : has p (list_at s.lists name) ≡ same_list (list_of (s.state p)) name =
        ground (arith, c.listed name p) in
      rw
        (
          m.lists name,
          m.total,
          m.state,
          has-moved (list_of (s.state p)) (list_of v) name p q (list_at s.lists name)
              (c.distinct name) at_p,
        )
        (elim (Bool-cases (q == p)) [
          | inl e ↦ rw e (ground arith)
          | inr e ↦ rw e (c.listed name q)
        ])

  pub Moved-IsConsistent : IsConsistent s'
  Moved-IsConsistent = record {
    bounded = rw m.total c.bounded;
    valid = λ q h. rw m.state (elim (Bool-cases (q == p)) [
      | inl e ↦ rw e name_v
      | inr e ↦ rw e (c.valid q (rw m.total at h))
    ]);
    counted = Moved-counted;
    listed = Moved-listed;
    distinct = λ name.
        let at_p : has p (list_at s.lists name) ≡ same_list (list_of (s.state p)) name =
          ground (arith, c.listed name p) in
        rw (m.lists name) (
          Distinct-moved (list_of (s.state p)) (list_of v) name p (list_at s.lists name)
            (c.distinct name) at_p);
  }

-- ===== src/Pages/BootPages.antt =====
-- `vm_alloc_ppage_from_kargs` hands out pages of memory that no range has, and keeps the ranges
-- apart.
use phlox.Common.{
  ℕ, ◌+◌, ◌-◌, ◌*◌, ◌/◌, ◌%◌, ◌≤◌, ◌<◌, ◌≡◌, ◌≢◌, ◌⊎◌, sym, inl, inr, refl, arith, Bool, true,
  false, not, ◌&&◌, ◌||◌, List, [], ◌∷◌, ltb, leb, Bool-cases, u32_mod,
}
use mathlib.Core.Path.{subst}
use phlox.Pages.Alloc.{page_size}
use phlox.Pages.Range.{AddrRange}
use phlox.Pages.BootArgs.{is_page_in_phys_range, collides, vm_alloc_ppage_from_kargs}

-- The ranges are not empty, consist of whole pages below the end of memory, and follow one another
-- from `lo` on.
abbrev pub Ordered : (lo : ℕ) → List AddrRange → Type 0
Ordered lo [] = Unit
Ordered lo (r ∷ rs) =
    (lo ≤ r.start)
    × (r.start % page_size ≡ 0)
    × (r.size % page_size ≡ 0)
    × (r.size ≢ 0)
    × (r.start + r.size < u32_mod)
    × Ordered (r.start + r.size) rs

-- The ranges of memory consist of whole pages, and end below the end of the address space.
abbrev pub Whole : List AddrRange → Type 0
Whole [] = Unit
Whole (r ∷ rs) =
    (r.start % page_size ≡ 0) × (r.size % page_size ≡ 0) × (r.start + r.size < u32_mod) × Whole rs

-- Whether a range has the address.
abbrev pub covered : (paddr : ℕ) → List AddrRange → Bool
covered paddr [] = false
covered paddr (r ∷ rs) = leb r.start paddr && ltb paddr (r.start + r.size) || covered paddr rs

Ordered-covered : (lo x : ℕ) (rs : List AddrRange) → Ordered lo rs → x < lo → covered x rs ≡ false
Ordered-covered lo x [] o h = refl
Ordered-covered lo x (r ∷ rs) (low, a, b, c, d, o) h =
    ground (arith, low, Ordered-covered (r.start + r.size) x rs o (omega (arith, low)))

page_fits :
    (phys : List AddrRange) (x : ℕ)
    → Whole phys
    → x % page_size ≡ 0
    → is_page_in_phys_range phys x ≡ true
    → x + page_size < u32_mod
unfolding is_page_in_phys_range
page_fits [] x w a h = absurd (cc)
page_fits (r ∷ rs) x (ws, wz, small, w) a h = elim (Bool-cases (is_page_in_phys_range rs x)) [
  | inl e ↦ page_fits rs x w a e
  | inr e ↦ ground (arith, ws, wz, small, a, h, e)
]

-- Ranges that the page at `x` does not run into follow it.
Ordered-next :
    (x : ℕ) (rs : List AddrRange)
    → x % page_size ≡ 0
    → Ordered x rs
    → collides x rs ≡ false
    → Ordered (x + page_size) rs
Ordered-next x [] a o h = tt
Ordered-next x (r ∷ rs) a (low, b, c, d, e, o) h = (ground (arith, h, a, b, d), b, c, d, e, o)

-- The page at an address lies within one of the ranges.
abbrev pub Within : List AddrRange → (x : ℕ) → Type 0
Within [] x = ⊥
Within (r ∷ rs) x = ((r.start ≤ x) × (x + page_size ≤ r.start + r.size)) ⊎ Within rs x

is_page_in_phys_range-Within :
    (phys : List AddrRange) (x : ℕ)
    → Whole phys
    → x % page_size ≡ 0
    → is_page_in_phys_range phys x ≡ true
    → Within phys x
unfolding is_page_in_phys_range
is_page_in_phys_range-Within [] x w a h = absurd (cc)
is_page_in_phys_range-Within (r ∷ rs) x (ws, wz, small, w) a h =
    elim (Bool-cases (is_page_in_phys_range rs x)) [
      | inl e ↦ inr (is_page_in_phys_range-Within rs x w a e)
      | inr e ↦ inl (ground (arith, h, e), ground (arith, ws, wz, small, a, h, e))
    ]

Within-is_page_in_phys_range :
    (phys : List AddrRange) (x : ℕ)
    → Whole phys
    → Within phys x
    → is_page_in_phys_range phys x ≡ true
unfolding is_page_in_phys_range
Within-is_page_in_phys_range [] x w h = elim h [ ]
Within-is_page_in_phys_range (r ∷ rs) x (ws, wz, small, w) (inl (a, b)) =
    ground (arith, a, b, small)
Within-is_page_in_phys_range (r ∷ rs) x (ws, wz, small, w) (inr later) =
    ground (arith, Within-is_page_in_phys_range rs x w later)

abbrev pub StartsAt : (x : ℕ) → List AddrRange → Type 0
StartsAt x [] = ⊥
StartsAt x (r ∷ rs) = r.start ≡ x

-- Behind every range the next one starts, or there is no page of memory.
abbrev pub Stuck : (phys rs : List AddrRange) → Type 0
Stuck phys [] = Unit
Stuck phys (r ∷ rs) =
    (StartsAt (r.start + r.size) rs ⊎ (¬ Within phys (r.start + r.size))) × Stuck phys rs

collides-StartsAt :
    (x : ℕ) (rs : List AddrRange) → Ordered x rs → collides x rs ≡ true → StartsAt x rs
collides-StartsAt x [] o h = absurd (cc)
collides-StartsAt x (r ∷ rs) (low, a, b, c, d, o) h = ground (arith, low, h)

-- A place that is refused.
Stuck-place :
    (phys : List AddrRange) (x : ℕ) (rs : List AddrRange)
    → Whole phys
    → Ordered x rs
    → (not (collides x rs) && is_page_in_phys_range phys x) ≡ false
    → StartsAt x rs ⊎ (¬ Within phys x)
Stuck-place phys x rs w o h = elim (Bool-cases (collides x rs)) [
  | inl e ↦ inl (collides-StartsAt x rs o e)
  | inr e ↦ inr (λ at. ground (arith, h, e, Within-is_page_in_phys_range phys x w at))
]

-- A page of memory from `lo` on that no range had, and one has now.
pub record Fresh (phys : List AddrRange) (lo p : ℕ) (rs rs' : List AddrRange) : Type 0 where
  pub memory : Within phys (p * page_size)
  pub above : lo ≤ p * page_size
  pub fresh : covered (p * page_size) rs ≡ false
  pub taken : covered (p * page_size) rs' ≡ true

-- Where the ranges of memory consist of whole pages and the allocated ranges are not empty,
-- consist of whole pages and follow one another from an address on, vm_alloc_ppage_from_kargs
-- keeps the allocated ranges so, and returns the number of a page that lies within a range of
-- memory, that no allocated range had and one has now; or returns 0 and changes nothing, and then
-- behind every allocated range the next one starts or no page lies within a range of memory.
pub vm_alloc_ppage_from_kargs-Fresh :
    (phys : List AddrRange) (lo : ℕ) (rs : List AddrRange)
    → Whole phys
    → Ordered lo rs
    → Ordered lo (vm_alloc_ppage_from_kargs phys rs).1
      × (((vm_alloc_ppage_from_kargs phys rs ≡ (0, rs)) × Stuck phys rs)
          ⊎ Fresh phys lo
              (vm_alloc_ppage_from_kargs phys rs).0
              rs
              (vm_alloc_ppage_from_kargs phys rs).1)
unfolding vm_alloc_ppage_from_kargs
vm_alloc_ppage_from_kargs-Fresh phys lo [] w o = (tt, inl (refl, tt))
vm_alloc_ppage_from_kargs-Fresh phys lo (r ∷ rs) w (low, a, b, c, d, o) =
    let x = r.start + r.size in
    let same : x % u32_mod ≡ x = omega (arith, d) in
    let whole : x % page_size ≡ 0 = omega (arith, a, b) in
    elim (Bool-cases (not (collides x rs) && is_page_in_phys_range phys x)) [
      | inl e ↦
          let is_in : is_page_in_phys_range phys x ≡ true = ground (arith, e) in
          let free : collides x rs ≡ false = ground (arith, e) in
          let fits = page_fits phys x w whole is_in in
          let next = Ordered-next x rs whole o free in
          let size : (r.size + page_size) % u32_mod ≡ r.size + page_size = omega (arith, fits) in
          let number : (r.start + (r.size + page_size) + u32_mod - page_size)
                % u32_mod
                / page_size
                * page_size
              ≡ x =
            omega (arith, fits, whole) in
          let end : r.start + (r.size + page_size) ≡ x + page_size = omega arith in
          rw (same, e, size)
            (
              (low, a, omega (arith, b), omega arith, omega (arith, fits), rw end next),
              inr (record {
                memory = rw number (is_page_in_phys_range-Within phys x w whole is_in);
                above = omega (arith, number, low);
                fresh =
                    subst (λ y. covered y (r ∷ rs) ≡ false) (sym number)
                      (ground (arith, Ordered-covered (x + page_size) x rs next (omega arith)));
                taken = rw number (ground arith);
              }),
            )
      | inr e ↦
          let (kept, result) = vm_alloc_ppage_from_kargs-Fresh phys x rs w o in
          rw (same, e)
            (
              (low, a, b, c, d, kept),
              elim result [
                | inl (none, stuck) ↦ inl (rw none refl, (Stuck-place phys x rs w o e, stuck))
                | inr f ↦ inr (record {
                  memory = f.memory;
                  above = omega (arith, f.above, low);
                  fresh = ground (arith, f.fresh, f.above);
                  taken = ground (arith, f.taken);
                })
              ],
            )
    ]

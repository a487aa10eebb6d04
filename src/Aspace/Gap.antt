-- ===== src/Aspace/Gap.antt =====
-- The gap that `locate_memory_gap` finds is the first one.
use phlox.Common.{
  ℕ, ◌+◌, ◌-◌, ◌%◌, ◌<◌, ◌≤◌, ◌≡◌, ◌⊎◌, inl, inr, List, [], ◌∷◌, leb, arith, u32_mod, Bool-cases,
  Option, none, some,
}
use mathlib.Core.Path.{sym, subst}
use phlox.Aspace.{Mapping, MemoryMap, gap_from, locate_memory_gap}

-- The mappings follow one another from `low` on, below `high`, with no overlap.
abbrev pub Fits : (low : ℕ) → List Mapping → (high : ℕ) → Type 0
Fits low [] high = low ≤ high
Fits low (m ∷ ms) high = (low ≤ m.start) × (m.start ≤ m.last) × Fits (m.last + 1) ms high

-- No mapping has an address from `from` to `to`.
abbrev pub Clear : (from to : ℕ) → List Mapping → Type 0
Clear from to [] = Unit
Clear from to (m ∷ ms) = ((m.last < from) ⊎ (to < m.start)) × Clear from to ms

-- A place for `size` bytes at `at`.
abbrev pub IsGap : (low : ℕ) → List Mapping → (high size at : ℕ) → Type 0
IsGap low ms high size at = (low ≤ at) × (at + size ≤ high) × Clear at (at + size - 1) ms

-- The first place, or that there is none.
abbrev pub FirstGap : (low : ℕ) → List Mapping → (high size : ℕ) → Option ℕ → Type 0
FirstGap low ms high size none = (at : ℕ) → ¬ IsGap low ms high size at
FirstGap low ms high size (some at) =
    IsGap low ms high size at × ((other : ℕ) → IsGap low ms high size other → at ≤ other)

pub Fits-le : (low : ℕ) (ms : List Mapping) (high : ℕ) → Fits low ms high → low ≤ high
Fits-le low [] high f = f
Fits-le low (m ∷ ms) high (a, b, c) = omega (arith, a, b, Fits-le (m.last + 1) ms high c)

-- What ends before all mappings is clear of them.
pub Clear-below :
    (from to low : ℕ) (ms : List Mapping) (high : ℕ)
    → Fits low ms high
    → to < low
    → Clear from to ms
Clear-below from to low [] high f lt = tt
Clear-below from to low (m ∷ ms) high (a, b, c) lt = (
  inr (omega (arith, a, lt)),
  Clear-below from to (m.last + 1) ms high c (omega (arith, a, b, lt)),
)

-- A place beside the first mapping is before it or one for the others.
place_cases :
    (low : ℕ) (m : Mapping) (ms : List Mapping) (high size at : ℕ)
    → 0 < size
    → IsGap low (m ∷ ms) high size at
    → (low + size ≤ m.start) ⊎ IsGap (m.last + 1) ms high size at
place_cases low m ms high size at nz (a, b, (inl c, d)) = inr (omega (arith, c), b, d)
place_cases low m ms high size at nz (a, b, (inr c, d)) = inl (omega (arith, a, b, c, nz))

-- The length that the code takes of what is free, which may start at the end of the addresses.
length-free :
    (low stop : ℕ)
    → low ≤ stop
    → stop ≤ u32_mod
    → stop < low + u32_mod
    → ((stop + u32_mod - 1) % u32_mod + u32_mod - low % u32_mod + 1) % u32_mod ≡ stop - low
length-free low stop le top less = omega (arith, le, top, less)

length-last :
    (low high : ℕ)
    → low ≤ high
    → high ≤ u32_mod
    → 0 < high
    → high < low + u32_mod
    → (high - 1 + u32_mod - low % u32_mod + 1) % u32_mod ≡ high - low
length-last low high le top nz less = omega (arith, le, top, nz, less)

-- The start is not at the end of the addresses where something fits.
start-small :
    (low size stop : ℕ) → low + size ≤ stop → 0 < size → stop ≤ u32_mod → low % u32_mod ≡ low
start-small low size stop le nz top = omega (arith, le, nz, top)

-- Where there is no place before the first mapping, the first place is among the others.
FirstGap-later :
    (low : ℕ) (m : Mapping) (ms : List Mapping) (high size : ℕ) (found : Option ℕ)
    → low ≤ m.start
    → m.start ≤ m.last
    → 0 < size
    → m.start < low + size
    → FirstGap (m.last + 1) ms high size found
    → FirstGap low (m ∷ ms) high size found
FirstGap-later low m ms high size none a b nz full h = λ at g.
    elim (place_cases low m ms high size at nz g) [
      | inl lt ↦ omega (arith, full, lt)
      | inr later ↦ h at later
    ]
FirstGap-later low m ms high size (some at) a b nz full ((c, d, e), h) = (
  (omega (arith, a, b, c), d, (inl (omega (arith, c)), e)),
  λ other g. elim (place_cases low m ms high size other nz g) [
    | inl lt ↦ omega (arith, full, lt)
    | inr later ↦ h other later
  ],
)

pub gap_from-FirstGap :
    (low : ℕ) (ms : List Mapping) (high size : ℕ)
    → Fits low ms high
    → high < low + u32_mod
    → high ≤ u32_mod
    → 0 < high
    → 0 < size
    → FirstGap low ms high size (gap_from size (high - 1) (low % u32_mod) ms)
unfolding gap_from
gap_from-FirstGap low [] high size f pl le nz pos_size =
    rw (length-last low high f le nz pl) (elim (Bool-cases (leb size (high - low))) [
      | inl e ↦
          rw (e, start-small low size high (ground (arith, e, f)) pos_size le)
            ((ground (arith, f), ground (arith, e, f), tt), λ other g. g.0)
      | inr e ↦ rw e (λ at g. ground (arith, e, g.0, g.1))
    ])
gap_from-FirstGap low (m ∷ ms) high size (a, b, c) pl le nz pos_size =
    let top : m.last + 1 ≤ high = Fits-le (m.last + 1) ms high c in
    let next =
      gap_from-FirstGap (m.last + 1) ms high size c (omega (arith, a, b, pl)) le nz pos_size in
    rw (length-free low m.start a (omega (arith, b, top, le)) (omega (arith, a, b, top, pl)))
      (elim (Bool-cases (leb size (m.start - low))) [
        | inl e ↦
            let same =
              start-small low size m.start (ground (arith, e, a)) pos_size
                (omega (arith, b, top, le)) in
            rw e (
              subst (λ v. FirstGap low (m ∷ ms) high size (some v)) (sym same)
                (
                  (
                    omega (arith),
                    ground (arith, e, a, b, top),
                    (
                      inr (ground (arith, e, a, pos_size)),
                      Clear-below low (low + size - 1) (m.last + 1) ms high c
                          (ground (arith, e, a, b, pos_size)),
                    ),
                  ),
                  λ other g. g.0,
                ))
        | inr e ↦
            rw e (FirstGap-later low m ms high size _ a b pos_size (ground (arith, e, a)) next)
      ])

-- In a map below 2 ^ 32 with its mappings in order and apart, for a size above 0,
-- locate_memory_gap finds the first address from which the size is free in the map, and finds none
-- only where there is none.
pub locate_memory_gap-FirstGap :
    (mmap : MemoryMap) (size : ℕ)
    → Fits mmap.base mmap.mappings (mmap.base + mmap.size)
    → mmap.base + mmap.size ≤ u32_mod
    → mmap.size < u32_mod
    → 0 < size
    → FirstGap mmap.base mmap.mappings (mmap.base + mmap.size) size (locate_memory_gap mmap size)
unfolding locate_memory_gap
locate_memory_gap-FirstGap mmap size f top small nz =
    of_list mmap.base mmap.size mmap.mappings f top small
  where
    of_list :
        (base width : ℕ) (ms : List Mapping)
        → Fits base ms (base + width)
        → base + width ≤ u32_mod
        → width < u32_mod
        → FirstGap base ms
            (base + width)
            size
            (locate_memory_gap (record { base = base; size = width; mappings = ms }) size)
    of_list base width [] f top small = elim (Bool-cases (leb size width)) [
      | inl e ↦ rw e ((omega (arith), ground (arith, e), tt), λ other g. g.0)
      | inr e ↦ rw e (λ at g. ground (arith, e, g.0, g.1))
    ]
    of_list base width (m ∷ ms) (a, b, c) top small =
        let end = Fits-le (m.last + 1) ms (base + width) c in
        let stop : (base + width + u32_mod - 1) % u32_mod ≡ base + width - 1 =
          omega (arith, a, b, end, top) in
        let start : base % u32_mod ≡ base = omega (arith, a, b, end, top) in
        subst (λ v. FirstGap base (m ∷ ms) (base + width) size (gap_from size v base (m ∷ ms)))
          (sym stop)
          (subst
            (λ v.
              FirstGap base (m ∷ ms) (base + width) size
                (gap_from size (base + width - 1) v (m ∷ ms)))
            start
            (gap_from-FirstGap base (m ∷ ms) (base + width) size (a, b, c) (omega (arith, small))
              top (omega (arith, a, b, end)) nz))

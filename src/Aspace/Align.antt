-- ===== src/Aspace/Align.antt =====
-- The place of an aligned mapping in a gap that is padded.
use phlox.Common.{
  ltb→lt, ltb_false→le, ℕ, ◌+◌, ◌-◌, ◌%◌, ◌*◌, ◌/◌, ◌<◌, ◌≤◌, ◌≡◌, ◌⊎◌, refl, inl, inr, false, List,
  [], ◌∷◌, ◌==◌, leb, ltb, if◌then◌else◌, arith, u32_mod, Bool-cases, some,
}
use mathlib.Core.Path.{sym}
use native.Mathlib.Nat.{div-mul-le_self, lt-div-mul-add, mul-mod_left, mul_assoc}
use phlox.Aspace.{
  Mapping, MemoryMap, page_size, gap_from, locate_memory_gap, align_base, align_bytes, size_pad,
}

-- The places after the mappings are at the starts of pages.
abbrev pub Paged : List Mapping → Type 0
Paged [] = Unit
Paged (m ∷ ms) = ((m.last + 1) % page_size ≡ 0) × Paged ms

-- A gap starts at a page.
pub gap_from-page :
    (size stop start : ℕ) (ms : List Mapping) (gap : ℕ)
    → start % page_size ≡ 0
    → Paged ms
    → gap_from size stop start ms ≡ some gap
    → gap % page_size ≡ 0
unfolding gap_from
gap_from-page size stop start [] gap page pages e = ground (arith, e, page)
gap_from-page size stop start (m ∷ ms) gap page (next, pages) e =
    elim (Bool-cases
      (leb size (((m.start + u32_mod - 1) % u32_mod + u32_mod - start + 1) % u32_mod))) [
        | inl t ↦ ground (arith, t, e, page)
        | inr t ↦
            gap_from-page size stop ((m.last + 1) % u32_mod) ms gap (omega (arith, next)) pages
              (rw t at e)
      ]

pub locate_memory_gap-page :
    (mmap : MemoryMap) (size gap : ℕ)
    → mmap.base % page_size ≡ 0
    → Paged mmap.mappings
    → locate_memory_gap mmap size ≡ some gap
    → gap % page_size ≡ 0
unfolding locate_memory_gap
locate_memory_gap-page mmap size gap page pages e = of_list mmap.mappings pages e
  where
    of_list :
        (ms : List Mapping)
        → Paged ms
        → locate_memory_gap (record { base = mmap.base; size = mmap.size; mappings = ms }) size
          ≡ some gap
        → gap % page_size ≡ 0
    of_list [] pages e = ground (arith, e, page)
    of_list (m ∷ ms) pages e =
        gap_from-page size ((mmap.base + mmap.size + u32_mod - 1) % u32_mod) mmap.base (m ∷ ms) gap
          page pages e

pub align_base-exact :
    (gap bytes : ℕ)
    → 0 < bytes
    → gap + bytes ≤ u32_mod
    → align_base bytes gap ≡ (gap + bytes - 1) / bytes * bytes
align_base-exact gap bytes nz le =
    let apart : (bytes == 0) ≡ false = ground (arith, nz) in
    let whole : (gap + bytes + u32_mod - 1) % u32_mod ≡ gap + bytes - 1 = omega (arith, nz, le) in
    let below = div-mul-le_self (gap + bytes - 1) bytes in
    rw (apart, whole) (omega (arith, nz, below, le))

pub in_pages :
    (gap npg pages place : ℕ)
    → gap % page_size ≡ 0
    → 0 < npg
    → place ≡ pages * page_size
    → place ≤ gap + npg * page_size - 1
    → gap + npg * page_size - 1 < place + npg * page_size
    → (gap ≤ place) × (place + page_size ≤ gap + npg * page_size)
in_pages gap npg pages place page nz eq below above =
    (omega (arith, page, nz, eq, below, above), omega (arith, page, nz, eq, below, above))

-- A multiple of the alignment in a place that is padded.
pub aligned :
    (gap npg : ℕ)
    → gap % page_size ≡ 0
    → 0 < npg
    → gap + npg * page_size ≤ u32_mod
    → ((gap ≤ align_base (npg * page_size) gap)
        × (align_base (npg * page_size) gap + page_size ≤ gap + npg * page_size))
      × (align_base (npg * page_size) gap % (npg * page_size) ≡ 0)
aligned gap npg page nz le =
    let bytes = npg * page_size in
    let x = (gap + bytes - 1) / bytes in
    let pos_bytes : 0 < bytes = omega (arith, nz) in
    let below : x * bytes ≤ gap + bytes - 1 = div-mul-le_self (gap + bytes - 1) bytes in
    let above : gap + bytes - 1 < x * bytes + bytes = lt-div-mul-add pos_bytes in
    let pages : x * bytes ≡ x * npg * page_size = sym (mul_assoc x npg page_size) in
    rw (align_base-exact gap bytes pos_bytes le)
      (in_pages gap npg (x * npg) (x * bytes) page nz pages below above, mul-mod_left x bytes)

-- The bytes that an alignment takes beside the size.
abbrev pub padding : (npg_align : ℕ) → ℕ
padding npg_align = if ltb npg_align 2 then 0 else npg_align * page_size - page_size

pub padded-size :
    (size npg_align : ℕ)
    → size + npg_align * page_size < u32_mod
    → (size + size_pad npg_align) % u32_mod ≡ size + padding npg_align
padded-size size npg_align le = elim (Bool-cases (ltb npg_align 2)) [
  | inl e ↦ rw e (omega (arith, le))
  | inr e ↦ rw e (omega (arith, le, ltb_false→le npg_align 2 e))
]

-- The place of the mapping in the gap.
abbrev pub IsPlace : (size npg_align gap base : ℕ) → Type 0
IsPlace size npg_align gap base =
    (gap ≤ base)
    × (base + size ≤ gap + (size + padding npg_align))
    × ((npg_align < 2) ⊎ (base % (npg_align * page_size) ≡ 0))

pub align_base-IsPlace :
    (size npg_align gap : ℕ)
    → gap % page_size ≡ 0
    → 0 < size
    → size + npg_align * page_size < u32_mod
    → gap + (size + padding npg_align) ≤ u32_mod
    → IsPlace size npg_align gap (align_base (align_bytes npg_align) gap)
align_base-IsPlace size npg_align gap page nz le top = elim (Bool-cases (ltb npg_align 2)) [
  | inl e ↦ rw e (omega (arith), omega (arith), inl (ltb→lt npg_align 2 e))
  | inr e ↦
      let two = ltb_false→le npg_align 2 e in
      let bytes : npg_align * page_size % u32_mod ≡ npg_align * page_size = omega (arith, le) in
      let pad : padding npg_align ≡ npg_align * page_size - page_size = rw e refl in
      let place =
        aligned gap npg_align page (omega (arith, two)) (omega (arith, top, pad, two, nz)) in
      rw (e, bytes) (place.0.0, omega (arith, place.0.1, two), inr place.1)
]

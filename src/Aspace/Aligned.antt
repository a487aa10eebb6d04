-- ===== src/Aspace/Aligned.antt =====
-- `vm_aspace_create_mapping` makes a mapping where `locate_memory_gap` finds a place.
use phlox.Common.{
  ℕ, ◌+◌, ◌-◌, ◌%◌, ◌*◌, ◌<◌, ◌≤◌, ◌≡◌, ◌⊎◌, refl, inl, inr, true, false, List, [], ◌∷◌, ◌==◌,
  arith, u32_mod, some, Option-cases,
}
use mathlib.Core.Path.{subst}
use phlox.Aspace.{
  Mapping, MemoryMap, VmStatus, no_error, invalid_args, no_memory, no_mapping_gap, no_mapping,
  bad_address, invalid_aspace, vm_aspace_create_mapping_exactly, vm_aspace_delete_mapping,
  vm_aspace_create_mapping, page_size, locate_memory_gap, align_base, align_bytes, TreeSearch,
}
use phlox.Aspace.Gap.{Clear, IsGap, FirstGap, locate_memory_gap-FirstGap}
use phlox.Aspace.Place.{Meets, Inserted}
use phlox.Aspace.Search.{FindsPlace}
use phlox.Aspace.Create.{
  end_of, IsMap, hole_from, Created, vm_aspace_create_mapping_exactly-Created,
}
use phlox.Aspace.Align.{
  Paged, padding, locate_memory_gap-page, padded-size, IsPlace, align_base-IsPlace,
}

-- No mapping of a clear stretch has an address of one that lies there.
Clear-Meets :
    (from to : ℕ) (ms : List Mapping) (new found : Mapping)
    → Clear from to ms
    → from ≤ new.start
    → new.last ≤ to
    → Meets ms new found
    → ⊥
Clear-Meets from to [] new found clear a b h = h
Clear-Meets from to (m ∷ ms) new found (inl c, clear) a b (inl (e, o)) =
    omega (arith, a, b, c, o.0, o.1)
Clear-Meets from to (m ∷ ms) new found (inr c, clear) a b (inl (e, o)) =
    omega (arith, a, b, c, o.0, o.1)
Clear-Meets from to (m ∷ ms) new found (c, clear) a b (inr later) =
    Clear-Meets from to ms new found clear a b later

-- What vm_aspace_create_mapping comes to where memory is got.
abbrev pub Allotted : MemoryMap → (size npg_align : ℕ) → VmStatus → (base : ℕ) → MemoryMap → Type 0
Allotted mmap size npg_align no_error base mmap' =
    IsMap mmap'
    × Clear base (base + size - 1) mmap.mappings
    × Inserted (hole_from base size) mmap.mappings mmap'.mappings
    × (vm_aspace_delete_mapping mmap' (hole_from base size) ≡ some mmap)
    × (mmap.base ≤ base)
    × (base + size ≤ mmap.base + mmap.size)
    × ((npg_align < 2) ⊎ (base % (npg_align * page_size) ≡ 0))
Allotted mmap size npg_align no_mapping_gap base mmap' =
    (mmap' ≡ mmap)
    × ((at : ℕ)
        → ¬ IsGap mmap.base mmap.mappings (mmap.base + mmap.size) (size + padding npg_align) at)
Allotted mmap size npg_align status base mmap' = ⊥

abbrev IsAllotted : MemoryMap → (size npg_align : ℕ) → VmStatus × ℕ × MemoryMap → Type 0
IsAllotted mmap size npg_align r = Allotted mmap size npg_align r.0 r.1 r.2

-- Where the place is clear, it is not refused.
Created-clear :
    (mmap mmap' : MemoryMap) (size npg_align base : ℕ) (status : VmStatus)
    → IsMap mmap
    → 0 < size
    → mmap.base ≤ base
    → base + size ≤ mmap.base + mmap.size
    → ((npg_align < 2) ⊎ (base % (npg_align * page_size) ≡ 0))
    → ((m : Mapping) → ¬ Meets mmap.mappings (hole_from base size) m)
    → Created true mmap base size status mmap'
    → Allotted mmap size npg_align status base mmap'
Created-clear mmap mmap' size npg_align base no_error ok nz low le whole clear
      (h, free, put, back) =
    (h, free, put, back, low, le, whole)
Created-clear mmap mmap' size npg_align base bad_address ok nz low le whole clear (h, (m, meets)) =
    elim (clear m meets) [ ]
Created-clear mmap mmap' size npg_align base invalid_args ok nz low le whole clear (h, inl lt) =
    omega (arith, lt, low)
Created-clear mmap mmap' size npg_align base invalid_args ok nz low le whole clear (h, inr z) =
    omega (arith, z, nz)
Created-clear mmap mmap' size npg_align base no_memory ok nz low le whole clear (h, got) =
    ground (arith, got)
Created-clear mmap mmap' size npg_align base no_mapping_gap ok nz low le whole clear h = elim h [ ]
Created-clear mmap mmap' size npg_align base no_mapping ok nz low le whole clear h = elim h [ ]
Created-clear mmap mmap' size npg_align base invalid_aspace ok nz low le whole clear h = elim h [ ]

-- In a well-formed map that starts at a page, is smaller than 2 ^ 32 bytes and whose mappings end
-- at pages, for a size above 0 that with the alignment is below 2 ^ 32, and where memory is got
-- and the tree's search finds the place that the comparator gives, vm_aspace_create_mapping either
-- returns NO_ERROR with a base that the alignment divides where there is one, the bytes of the
-- size from it on lie inside the map and were in no mapping, a hole of exactly those bytes is put
-- into the list of mappings, the map stays well-formed, and vm_aspace_delete_mapping of that hole
-- gives the map back; or reports ERR_VM_NO_MAPPING_GAP and changes nothing, and then no place of
-- the size and its padding is free.
pub vm_aspace_create_mapping-Allotted :
    (avl_tree_find : TreeSearch)
    → FindsPlace avl_tree_find
    → (mmap : MemoryMap) (size npg_align : ℕ) → IsMap mmap
    → mmap.base % page_size ≡ 0
    → Paged mmap.mappings
    → mmap.size < u32_mod
    → 0 < size
    → size + npg_align * page_size < u32_mod
    → Allotted mmap size npg_align
        (vm_aspace_create_mapping avl_tree_find true mmap size npg_align).0
        (vm_aspace_create_mapping avl_tree_find true mmap size npg_align).1
        (vm_aspace_create_mapping avl_tree_find true mmap size npg_align).2
unfolding vm_aspace_create_mapping
vm_aspace_create_mapping-Allotted find laws mmap size npg_align ok page pages small nz le =
    let some_size : (size == 0) ≡ false = ground (arith, nz) in
    let total = size + padding npg_align in
    let first = locate_memory_gap-FirstGap mmap total ok.fits ok.top small (omega (arith, nz)) in
    let padded = padded-size size npg_align le in
    elim (Option-cases (locate_memory_gap mmap total)) [
      | inl e ↦
          rw (some_size, padded, e)
            (refl, subst (FirstGap mmap.base mmap.mappings (end_of mmap) total) e first)
      | inr (gap, e) ↦
          let is_gap = (subst (FirstGap mmap.base mmap.mappings (end_of mmap) total) e first).0 in
          rw (some_size, padded, e)
            (at_gap gap is_gap (
              align_base-IsPlace size npg_align gap
                (locate_memory_gap-page mmap total gap page pages e) nz le
                (omega (arith, is_gap.1, ok.top))))
    ]
  where
    at_gap :
        (gap : ℕ)
        → IsGap mmap.base mmap.mappings (end_of mmap) (size + padding npg_align) gap
        → IsPlace size npg_align gap (align_base (align_bytes npg_align) gap)
        → Allotted mmap size npg_align
            (vm_aspace_create_mapping_exactly find true mmap
              (align_base (align_bytes npg_align) gap)
              size).0
            (align_base (align_bytes npg_align) gap)
            (vm_aspace_create_mapping_exactly find true mmap
              (align_base (align_bytes npg_align) gap)
              size).1
    at_gap gap (low, high, clear) (above, below, whole) =
        let base = align_base (align_bytes npg_align) gap in
        let made = vm_aspace_create_mapping_exactly find true mmap base size in
        let inside : base + size ≤ end_of mmap = omega (arith, below, high) in
        Created-clear mmap made.1 size npg_align base made.0 ok nz (omega (arith, low, above))
          inside whole
          (λ m.
            Clear-Meets gap (gap + (size + padding npg_align) - 1) mmap.mappings
              (hole_from base size) m clear above (omega (arith, below, nz)))
          (vm_aspace_create_mapping_exactly-Created find laws true mmap base size ok inside)

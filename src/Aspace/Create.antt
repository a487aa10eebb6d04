-- ===== src/Aspace/Create.antt =====
-- What `vm_aspace_create_mapping_exactly` makes of a map.
use phlox.Common.{
  ℕ, ◌+◌, ◌-◌, ◌%◌, ◌<◌, ◌≤◌, ◌≡◌, ◌⊎◌, refl, inl, inr, Bool, true, false, List, ◌∷◌, ◌==◌, ltb,
  if◌then◌else◌, arith, u32_mod, Bool-cases, Option, none, some, ◌||◌, not,
}
use mathlib.Core.Path.{sym, subst, ap}
use phlox.Aspace.{
  Mapping, MemoryMap, Found, equal, root, before, after, insert_before, insert_after,
  put_mapping_to_aspace, remove_mapping_from_aspace, with_mappings, VmStatus, no_error,
  invalid_args, no_memory, no_mapping_gap, no_mapping, bad_address, invalid_aspace, new_mapping,
  vm_aspace_create_mapping_exactly, vm_aspace_delete_mapping, TreeSearch, compare_mapping, hole,
}
use phlox.Aspace.Gap.{Fits, Clear}
use phlox.Aspace.Place.{
  Meets, Located, Inserted, Inserted-front, Added, GoesBefore-Clear, GoesAfter-Clear,
  insert_before-Added, insert_after-Added, remove-here,
}
use phlox.Aspace.Search.{FindsPlace, find-Located}

-- The map's mappings are in order, apart and inside it, and the map is below 2 ^ 32.
pub record IsMap (mmap : MemoryMap) : Type 0 where
  pub fits : Fits mmap.base mmap.mappings (mmap.base + mmap.size)
  pub top : mmap.base + mmap.size ≤ u32_mod

abbrev pub end_of : MemoryMap → ℕ
end_of mmap = mmap.base + mmap.size

-- `none` only for a mapping that overlaps; else no mapping has an address of the new one, it is put
-- into the list, and removing it gives the map back.
abbrev pub Placed : MemoryMap → (new : Mapping) → Option MemoryMap → Type 0
Placed mmap new none = (m : Mapping) × Meets mmap.mappings new m
Placed mmap new (some mmap') =
    IsMap mmap'
    × Clear new.start new.last mmap.mappings
    × Inserted new mmap.mappings mmap'.mappings
    × (vm_aspace_delete_mapping mmap' new ≡ some mmap)

Placed-of_list :
    (mmap : MemoryMap) (new : Mapping) (ms' : List Mapping)
    → IsMap mmap
    → Clear new.start new.last mmap.mappings
    → Added mmap.base mmap.mappings (mmap.base + mmap.size) new ms'
    → Placed mmap new (some (with_mappings mmap ms'))
unfolding vm_aspace_delete_mapping remove_mapping_from_aspace
Placed-of_list mmap new ms' ok clear (f, inserted, back) =
    (record { fits = f; top = ok.top }, clear, inserted, rw back refl)

put_mapping_to_aspace-Placed :
    (avl_tree_find : TreeSearch)
    → FindsPlace avl_tree_find
    → (mmap : MemoryMap) (new : Mapping) → IsMap mmap
    → mmap.base ≤ new.start
    → new.start ≤ new.last
    → new.last < mmap.base + mmap.size
    → Placed mmap new (put_mapping_to_aspace avl_tree_find mmap new)
unfolding put_mapping_to_aspace
put_mapping_to_aspace-Placed find laws mmap new ok low ordered lt =
    of_found (find compare_mapping mmap.mappings new)
      (find-Located find laws mmap.base mmap.mappings (end_of mmap) new ok.fits ordered)
  where
    of_found :
        (found : Found)
        → Located mmap.mappings new found
        → Placed mmap new (elim found [
          | equal m ↦ none
          | root ↦ some (with_mappings mmap (new ∷ mmap.mappings))
          | before parent ↦ some (with_mappings mmap (insert_before mmap.mappings parent.start new))
          | after parent ↦ some (with_mappings mmap (insert_after mmap.mappings parent.start new))
        ])
    of_found (equal m) at = (m, at)
    of_found root at =
        Placed-of_list mmap new (new ∷ mmap.mappings) ok
          (subst (Clear new.start new.last) (sym at) tt)
          (
            (
              low,
              ordered,
              subst (λ v. Fits (new.last + 1) v (end_of mmap)) (sym at) (omega (arith, lt)),
            ),
            Inserted-front new mmap.mappings,
            remove-here new mmap.mappings,
          )
    of_found (before m) at =
        Placed-of_list mmap new (insert_before mmap.mappings m.start new) ok
          (GoesBefore-Clear mmap.base mmap.mappings (end_of mmap) new m ok.fits at)
          (insert_before-Added mmap.base mmap.mappings (end_of mmap) new m ok.fits low ordered at)
    of_found (after m) at =
        Placed-of_list mmap new (insert_after mmap.mappings m.start new) ok
          (GoesAfter-Clear mmap.base mmap.mappings (end_of mmap) new m ok.fits at)
          (insert_after-Added mmap.base mmap.mappings (end_of mmap) new m ok.fits ordered lt at)

-- A hole that has the bytes from a base on, of a size.
abbrev pub hole_from : (base size : ℕ) → Mapping
hole_from base size = record {
  start = base;
  last = base + size - 1;
  object = 0;
  type = hole;
  mapped = 0;
  offset = 0;
  protect = 0;
}

-- What vm_aspace_create_mapping_exactly comes to for each status.
abbrev pub Created :
    (got_memory : Bool) → MemoryMap → (base size : ℕ) → VmStatus → MemoryMap → Type 0
Created got_memory mmap base size no_error mmap' =
    IsMap mmap'
    × Clear base (base + size - 1) mmap.mappings
    × Inserted (hole_from base size) mmap.mappings mmap'.mappings
    × (vm_aspace_delete_mapping mmap' (hole_from base size) ≡ some mmap)
Created got_memory mmap base size bad_address mmap' =
    (mmap' ≡ mmap) × ((m : Mapping) × Meets mmap.mappings (hole_from base size) m)
Created got_memory mmap base size invalid_args mmap' =
    (mmap' ≡ mmap) × ((base < mmap.base) ⊎ (size ≡ 0))
Created got_memory mmap base size no_memory mmap' = (mmap' ≡ mmap) × (got_memory ≡ false)
Created got_memory mmap base size no_mapping_gap mmap' = ⊥
Created got_memory mmap base size no_mapping mmap' = ⊥
Created got_memory mmap base size invalid_aspace mmap' = ⊥

abbrev IsCreated : (got_memory : Bool) → MemoryMap → (base size : ℕ) → VmStatus × MemoryMap → Type 0
IsCreated got_memory mmap base size r = Created got_memory mmap base size r.0 r.1

-- In a well-formed map and for a place that ends in it, where the tree's search finds the place
-- that the comparator gives, vm_aspace_create_mapping_exactly reports: ERR_INVALID_ARGS only where
-- the base is below the map or the size is 0; ERR_NO_MEMORY only where no memory was got;
-- ERR_VM_BAD_ADDRESS only where a mapping has an address of the place, all with the map unchanged;
-- otherwise it returns NO_ERROR, no mapping had an address of the place, a hole of exactly the
-- bytes of the place is put into the list of mappings, the map stays well-formed, and
-- vm_aspace_delete_mapping of that hole gives the map back.
pub vm_aspace_create_mapping_exactly-Created :
    (avl_tree_find : TreeSearch)
    → FindsPlace avl_tree_find
    → (got_memory : Bool) (mmap : MemoryMap) (base size : ℕ) → IsMap mmap
    → base + size ≤ mmap.base + mmap.size
    → Created got_memory mmap base size
        (vm_aspace_create_mapping_exactly avl_tree_find got_memory mmap base size).0
        (vm_aspace_create_mapping_exactly avl_tree_find got_memory mmap base size).1
unfolding vm_aspace_create_mapping_exactly
vm_aspace_create_mapping_exactly-Created find laws got_memory mmap base size ok le =
    elim (Bool-cases (ltb base mmap.base || ltb mmap.size size || size == 0)) [
      | inl e ↦ rw e (refl, ground (arith, e, le))
      | inr e ↦
          let low : mmap.base ≤ base = ground (arith, e) in
          let some_size : 0 < size = ground (arith, e) in
          let last : (base + size + u32_mod - 1) % u32_mod ≡ base + size - 1 =
            omega (arith, some_size, le, ok.top) in
          let same : hole_from base size ≡ new_mapping base size =
            ap (λ v. record (hole_from base size) { last = v }) (sym last) in
          rw e (
            of_memory got_memory (
              subst (λ v. Placed mmap (hole_from base size) (put_mapping_to_aspace find mmap v))
                same
                (put_mapping_to_aspace-Placed find laws mmap (hole_from base size) ok low
                  (omega (arith, some_size)) (omega (arith, some_size, le)))))
    ]
  where
    of_placed :
        (placed : Option MemoryMap)
        → Placed mmap (hole_from base size) placed
        → IsCreated true mmap base size
            (elim placed [ none ↦ (bad_address, mmap) | some mmap' ↦ (no_error, mmap') ])
    of_placed none h = (refl, h)
    of_placed (some mmap') h = h

    of_memory :
        (got : Bool)
        → Placed mmap
            (hole_from base size)
            (put_mapping_to_aspace find mmap (new_mapping base size))
        → IsCreated got mmap base size (
            if not got
            then (no_memory, mmap)
            else elim (put_mapping_to_aspace find mmap (new_mapping base size)) [
              | none ↦ (bad_address, mmap)
              | some mmap' ↦ (no_error, mmap')
            ])
    of_memory false h = (refl, refl)
    of_memory true h = of_placed (put_mapping_to_aspace find mmap (new_mapping base size)) h

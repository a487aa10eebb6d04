-- ===== src/Aspace/Lookup.antt =====
-- The mapping that `vm_aspace_get_mapping` finds at an address.
use phlox.Common.{
  ℕ, ◌+◌, ◌-◌, ◌%◌, ◌<◌, ◌≤◌, ◌≡◌, ◌⊎◌, inl, inr, List, [], ◌∷◌, ltb, arith, u32_mod, Bool-cases,
  Option, none, some, ◌||◌,
}
use mathlib.Core.Path.{sym, subst}
use phlox.Aspace.{
  Mapping, MemoryMap, Found, equal, root, before, after, VmStatus, no_error, no_mapping,
  bad_address, new_mapping, vm_aspace_get_mapping, TreeSearch, compare_mapping,
}
use phlox.Aspace.Gap.{Clear}
use phlox.Aspace.Place.{Meets, Located, GoesBefore-Clear, GoesAfter-Clear}
use phlox.Aspace.Search.{FindsPlace, find-Located}
use phlox.Aspace.Create.{IsMap}

abbrev pub at_address : (vaddr : ℕ) → Mapping
at_address vaddr = record (new_mapping vaddr 1) { last = vaddr }

-- The mapping is one of the list, and has the address.
abbrev pub HasAddress : List Mapping → (vaddr : ℕ) → (found : Mapping) → Type 0
HasAddress [] vaddr found = ⊥
HasAddress (m ∷ ms) vaddr found =
    ((m ≡ found) × ((m.start ≤ vaddr) × (vaddr ≤ m.last))) ⊎ HasAddress ms vaddr found

-- What vm_aspace_get_mapping comes to.
abbrev pub Got : MemoryMap → (vaddr : ℕ) → VmStatus × Option Mapping → Type 0
Got mmap vaddr (no_error, some m) = HasAddress mmap.mappings vaddr m
Got mmap vaddr (no_mapping, none) =
    (mmap.base ≤ vaddr) × (vaddr < mmap.base + mmap.size) × Clear vaddr vaddr mmap.mappings
Got mmap vaddr (bad_address, none) = (vaddr < mmap.base) ⊎ (mmap.base + mmap.size ≤ vaddr)
Got mmap vaddr (status, m) = ⊥

Meets-HasAddress :
    (ms : List Mapping) (vaddr : ℕ) (found : Mapping)
    → Meets ms (at_address vaddr) found
    → HasAddress ms vaddr found
Meets-HasAddress [] vaddr found h = h
Meets-HasAddress (m ∷ ms) vaddr found (inl h) = inl h
Meets-HasAddress (m ∷ ms) vaddr found (inr later) = inr (Meets-HasAddress ms vaddr found later)

-- In a well-formed map that is not empty, where the tree's search finds the place that the
-- comparator gives, vm_aspace_get_mapping returns NO_ERROR and a mapping of the map that starts at
-- the address or before it and ends at the address or behind it, or ERR_VM_NO_MAPPING where the
-- address is in the map and no mapping has it, or ERR_VM_BAD_ADDRESS where the address is outside
-- the map.
pub vm_aspace_get_mapping-Got :
    (avl_tree_find : TreeSearch)
    → FindsPlace avl_tree_find
    → (mmap : MemoryMap) (vaddr : ℕ) → IsMap mmap
    → 0 < mmap.size
    → Got mmap vaddr (vm_aspace_get_mapping avl_tree_find mmap vaddr)
unfolding vm_aspace_get_mapping
vm_aspace_get_mapping-Got find laws mmap vaddr ok nz =
    elim (Bool-cases
      (ltb vaddr mmap.base || ltb ((mmap.base + mmap.size + u32_mod - 1) % u32_mod) vaddr)) [
        | inl e ↦ rw e (ground (arith, e, ok.top, nz))
        | inr e ↦ rw e (
            of_found (ground (arith, e)) (ground (arith, e, ok.top, nz))
              (find compare_mapping mmap.mappings (at_address vaddr))
              (find-Located find laws mmap.base mmap.mappings (mmap.base + mmap.size)
                (at_address vaddr) ok.fits (omega (arith))))
      ]
  where
    of_found :
        mmap.base ≤ vaddr
        → vaddr < mmap.base + mmap.size
        → (found : Found) → Located mmap.mappings (at_address vaddr) found
        → Got mmap vaddr (elim found [
          | equal m ↦ (no_error, some m)
          | root ↦ (no_mapping, none)
          | before m ↦ (no_mapping, none)
          | after m ↦ (no_mapping, none)
        ])
    of_found a b (equal m) h = Meets-HasAddress mmap.mappings vaddr m h
    of_found a b root h = (a, b, subst (Clear vaddr vaddr) (sym h) tt)
    of_found a b (before m) h = (
      a,
      b,
      GoesBefore-Clear mmap.base mmap.mappings (mmap.base + mmap.size) (at_address vaddr) m ok.fits
          h,
    )
    of_found a b (after m) h = (
      a,
      b,
      GoesAfter-Clear mmap.base mmap.mappings (mmap.base + mmap.size) (at_address vaddr) m ok.fits
          h,
    )

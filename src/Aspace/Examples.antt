-- ===== src/Aspace/Examples.antt =====
-- The theorems of the address spaces at concrete ones, with a search in the order of the list.
use phlox.Common.{
  ℕ, ◌≡◌, refl, sym, inl, inr, true, Option, none, some, List, [], ◌∷◌, if◌then◌else◌, arith, has,
  zero, suc,
}
use mathlib.Core.Path.{subst}
use phlox.Aspace.{
  Mapping, hole, object, MemoryMap, Found, equal, root, before, after, no_error, locate_memory_gap,
  vm_aspace_create_mapping, vm_aspace_create_mapping_exactly, vm_aspace_get_mapping, TreeSearch,
  compare_mapping,
}
use phlox.Aspace.Gap.{Fits, FirstGap, locate_memory_gap-FirstGap}
use phlox.Common.Int.{ℤ, pos, negsuc}
use phlox.Aspace.Search.{LocatedBy, FindsPlace, FirstAfterBy, Falling}
use phlox.Aspace.Create.{IsMap, Created, vm_aspace_create_mapping_exactly-Created}
use phlox.Aspace.Lookup.{Got, vm_aspace_get_mapping-Got}
use phlox.Aspace.Aligned.{Allotted, vm_aspace_create_mapping-Allotted}
use phlox.Aspace.Spaces.{normal, AddressSpace, Spaces, vm_create_aspace}
use phlox.Aspace.Spaces.Use.{vm_delete_aspace}
use phlox.Aspace.Spaces.References.{ids, FindsId}
use phlox.Aspace.Spaces.Deletion.{Deleted, vm_delete_aspace-Deleted}
use phlox.Aspace.Spaces.Creation.{NewSpace, vm_create_aspace-NewSpace}

abbrev past : (m : Mapping) → Found → Found
past m (equal x) = equal x
past m root = after m
past m (before x) = before x
past m (after x) = after x

-- The comparator's value decides at each mapping.
abbrev step : (value : ℤ) → (m : Mapping) → (later : Found) → Found
step (pos zero) m later = equal m
step (pos (suc n)) m later = past m later
step (negsuc n) m later = before m

abbrev linear_search : TreeSearch
linear_search compare [] new = root
linear_search compare (m ∷ ms) new = step (compare new m) m (linear_search compare ms new)

LocatedBy-past :
    (compare : Mapping → Mapping → ℤ) (m : Mapping) (ms : List Mapping) (new : Mapping)
    (found : Found)
    → compare new m ≡ pos 1
    → LocatedBy compare ms new found
    → LocatedBy compare (m ∷ ms) new (past m found)
LocatedBy-past compare m ms new (equal x) e h = inr h
LocatedBy-past compare m ms new root e h =
    (e, inl (refl, subst (λ v. FirstAfterBy compare v new) (sym h) tt))
LocatedBy-past compare m ms new (before x) e h = inr (e, h)
LocatedBy-past compare m ms new (after x) e h = (e, inr h)

LocatedBy-linear_search :
    (compare : Mapping → Mapping → ℤ) (ms : List Mapping) (new : Mapping)
    → Falling compare ms new
    → LocatedBy compare ms new (linear_search compare ms new)
LocatedBy-linear_search compare [] new f = refl
LocatedBy-linear_search compare (m ∷ ms) new (inl one, next, f) =
    let later = LocatedBy-linear_search compare ms new f in
    rw one (LocatedBy-past compare m ms new (linear_search compare ms new) one later)
LocatedBy-linear_search compare (m ∷ ms) new (inr (inl same), next, f) = rw same (inl (refl, same))
LocatedBy-linear_search compare (m ∷ ms) new (inr (inr less), next, f) = rw less (inl (refl, less))

linear_search-FindsPlace : FindsPlace linear_search
linear_search-FindsPlace = record { locates = LocatedBy-linear_search }

abbrev has_id : List AddressSpace → ℕ → Option ℕ
has_id l aid = if has aid (ids l) then some aid else none

has_id-FindsId : FindsId has_id
has_id-FindsId = record { finds = λ l aid d. refl }

-- Two mappings, of 2 pages and of 1 that an object has, with a page between them.
abbrev first : Mapping
first = record {
  start = 0x1000;
  last = 0x2fff;
  object = 0;
  type = hole;
  mapped = 0;
  offset = 0;
  protect = 0;
}

abbrev second : Mapping
second = record {
  start = 0x4000;
  last = 0x4fff;
  object = 7;
  type = object;
  mapped = 0;
  offset = 0;
  protect = 1;
}

abbrev map : MemoryMap
map = record { base = 0x1000; size = 0xf000; mappings = first ∷ second ∷ [] }

map-Fits : Fits 0x1000 (first ∷ second ∷ []) 0x10000
map-Fits = (omega arith, omega arith, (omega arith, omega arith, omega arith))

map-IsMap : IsMap map
map-IsMap = record { fits = map-Fits; top = omega arith }

locate_memory_gap-FirstGap_example :
    FirstGap 0x1000 (first ∷ second ∷ []) 0x10000 0x2000 (locate_memory_gap map 0x2000)
locate_memory_gap-FirstGap_example =
    locate_memory_gap-FirstGap map 0x2000 map-Fits (omega arith) (omega arith) (omega arith)

vm_aspace_create_mapping_exactly-Created_example :
    Created true map 0x3000 0x1000
      (vm_aspace_create_mapping_exactly linear_search true map 0x3000 0x1000).0
      (vm_aspace_create_mapping_exactly linear_search true map 0x3000 0x1000).1
vm_aspace_create_mapping_exactly-Created_example =
    vm_aspace_create_mapping_exactly-Created linear_search linear_search-FindsPlace true map 0x3000
      0x1000 map-IsMap (omega arith)

vm_aspace_get_mapping-Got_example : Got map 0x4800 (vm_aspace_get_mapping linear_search map 0x4800)
vm_aspace_get_mapping-Got_example =
    vm_aspace_get_mapping-Got linear_search linear_search-FindsPlace map 0x4800 map-IsMap
      (omega arith)

vm_aspace_create_mapping-Allotted_example :
    Allotted map 0x1000 4
      (vm_aspace_create_mapping linear_search true map 0x1000 4).0
      (vm_aspace_create_mapping linear_search true map 0x1000 4).1
      (vm_aspace_create_mapping linear_search true map 0x1000 4).2
vm_aspace_create_mapping-Allotted_example =
    vm_aspace_create_mapping-Allotted linear_search linear_search-FindsPlace map 0x1000 4 map-IsMap
      refl (refl, (refl, tt)) (omega arith) (omega arith) (omega arith)

-- The kernel's space, and one that has two references.
abbrev kernel_space : AddressSpace
kernel_space = record {
  id = 1;
  name = some (75 ∷ []);
  state = normal;
  ref_count = 0;
  faults_count = 0;
  mmap = record { base = 0x80000000; size = 0x80000000; mappings = [] };
}

abbrev user_space : AddressSpace
user_space = record {
  id = 2;
  name = none;
  state = normal;
  ref_count = 2;
  faults_count = 0;
  mmap = map;
}

abbrev spaces : Spaces
spaces = record {
  next_aspace_id = 3;
  aspaces_list = kernel_space ∷ user_space ∷ [];
  kernel_aspace = some 1;
}

vm_create_aspace-NewSpace_example :
    NewSpace
      (record { structure = true; name = true; tmap = true })
      spaces
      (some (85 ∷ []))
      0x1000
      0x10000
      (vm_create_aspace has_id
        (record { structure = true; name = true; tmap = true })
        spaces
        (some (85 ∷ []))
        0x1000
        0x10000)
vm_create_aspace-NewSpace_example =
    vm_create_aspace-NewSpace has_id has_id-FindsId
      (record { structure = true; name = true; tmap = true }) spaces (some (85 ∷ [])) 0x1000 0x10000
      (record {
        distinct = (refl, (refl, tt));
        below = (omega arith, omega arith, (omega arith, omega arith, tt));
        some_id = omega arith;
      })
      (omega arith)

vm_delete_aspace-Deleted_example : Deleted has_id spaces 2 2 (vm_delete_aspace has_id spaces 2)
vm_delete_aspace-Deleted_example =
    vm_delete_aspace-Deleted has_id has_id-FindsId spaces 2 1 user_space (refl, (refl, tt)) refl
      (omega arith) refl refl (omega arith) (λ e. ground (arith, e), (λ e. ground (arith, e), tt))

-- A mapping that ends a page beyond the space is made, and the gap found after it is outside.
gap_outside :
    ((vm_aspace_create_mapping_exactly linear_search true map 0xf000 0x2000).0 ≡ no_error)
    × (locate_memory_gap
          (vm_aspace_create_mapping_exactly linear_search true map 0xf000 0x2000).1
          0xb000
        ≡ some 0x11000)
unfolding vm_aspace_create_mapping_exactly locate_memory_gap compare_mapping
gap_outside = (refl, refl)

-- ===== src/Aspace.antt =====
-- phlox/kernel/vm/vm_address_space.c: the mappings of an address space. The list of mappings is the
-- sequence of them, the list routines of XList seen from above; the tree has the same mappings, and
-- its search, which is code from elsewhere, is an argument that takes compare_mapping. A mapping is known by its start, which
-- no two of a space share. Whether memory for a mapping was got is an argument.
pub mod Gap
pub mod Place
pub mod Search
pub mod Create
pub mod Lookup
pub mod Align
pub mod Aligned
pub mod Spaces
mod Examples
use phlox.Common.{
  ℕ, ◌+◌, ◌-◌, ◌*◌, ◌/◌, ◌%◌, Bool, true, false, not, ◌||◌, Option, none, some, List, [], ◌∷◌, ◌==◌,
  ltb, leb, if◌then◌else◌, u32_mod,
}
use phlox.Common.Int.{ℤ, pos, negsuc}

pub data MappingType : Type 0 where
  hole : MappingType
  object : MappingType
  submap : MappingType

pub record Mapping : Type 0 where
  pub start : ℕ
  pub last : ℕ
  pub object : ℕ
  pub type : MappingType
  pub mapped : ℕ
  pub offset : ℕ
  pub protect : ℕ

pub record MemoryMap : Type 0 where
  pub base : ℕ
  pub size : ℕ
  pub mappings : List Mapping

pub data VmStatus : Type 0 where
  no_error : VmStatus
  invalid_args : VmStatus
  no_memory : VmStatus
  no_mapping_gap : VmStatus
  no_mapping : VmStatus
  bad_address : VmStatus
  invalid_aspace : VmStatus

abbrev pub page_size : ℕ
page_size = 4096

-- What the search of the tree comes to: a mapping that overlaps, or the place of a new one.
pub data Found : Type 0 where
  equal : Mapping → Found
  root : Found
  before : Mapping → Found
  after : Mapping → Found

-- The type of avl_tree_find: the comparator that the tree was created with, the tree's mappings in
-- order, and the one that is looked for.
abbrev pub TreeSearch : Type 0
TreeSearch = (compare : Mapping → Mapping → ℤ) → List Mapping → Mapping → Found

-- 0 where they overlap, 1 where the first is after the second, -1 where it is before.
pub compare_mapping : (m1 m2 : Mapping) → ℤ
compare_mapping m1 m2 =
    if ltb m2.last m1.start then pos 1 else if ltb m1.last m2.start then negsuc 0 else pos 0

-- The loop of locate_memory_gap: `stop` is the last address of the map.
pub gap_from : (size stop start : ℕ) → List Mapping → Option ℕ
gap_from size stop start [] =
    if leb size ((stop + u32_mod - start + 1) % u32_mod) then some start else none
gap_from size stop start (mapping ∷ ms) =
    let stop1 = (mapping.start + u32_mod - 1) % u32_mod in
    let rest = gap_from size stop ((mapping.last + 1) % u32_mod) ms in
    if leb size ((stop1 + u32_mod - start + 1) % u32_mod) then some start else rest

pub locate_memory_gap : MemoryMap → (size : ℕ) → Option ℕ
unfolding gap_from
locate_memory_gap mmap size = elim mmap.mappings [
  | [] ↦ if leb size mmap.size then some mmap.base else none
  | m ∷ ms ↦ gap_from size ((mmap.base + mmap.size + u32_mod - 1) % u32_mod) mmap.base (m ∷ ms)
]

-- xlist_insert_before_unsafe and xlist_insert_after_unsafe at the mapping with a start.
pub insert_before : List Mapping → (start : ℕ) → Mapping → List Mapping
insert_before [] start mapping = []
insert_before (m ∷ ms) start mapping =
    let rest = insert_before ms start mapping in
    if m.start == start then mapping ∷ m ∷ ms else m ∷ rest

pub insert_after : List Mapping → (start : ℕ) → Mapping → List Mapping
insert_after [] start mapping = []
insert_after (m ∷ ms) start mapping =
    let rest = insert_after ms start mapping in
    if m.start == start then m ∷ mapping ∷ ms else m ∷ rest

abbrev pub with_mappings : MemoryMap → List Mapping → MemoryMap
with_mappings mmap mappings = record mmap { mappings = mappings }

-- `none` is false.
pub put_mapping_to_aspace : TreeSearch → MemoryMap → Mapping → Option MemoryMap
unfolding insert_before insert_after
put_mapping_to_aspace avl_tree_find mmap mapping =
    elim (avl_tree_find compare_mapping mmap.mappings mapping) [
      | equal m ↦ none
      | root ↦ some (with_mappings mmap (mapping ∷ mmap.mappings))
      | before parent ↦ some (with_mappings mmap (insert_before mmap.mappings parent.start mapping))
      | after parent ↦ some (with_mappings mmap (insert_after mmap.mappings parent.start mapping))
    ]

-- The mappings without the one with a start; `none` where there is none.
pub remove_start : List Mapping → (start : ℕ) → Option (List Mapping)
remove_start [] start = none
remove_start (m ∷ ms) start =
    let rest = remove_start ms start in
    if m.start == start then some ms else elim rest [ none ↦ none | some ms' ↦ some (m ∷ ms') ]

pub remove_mapping_from_aspace : MemoryMap → Mapping → Option MemoryMap
unfolding remove_start
remove_mapping_from_aspace mmap mapping = elim (remove_start mmap.mappings mapping.start) [
  | none ↦ none
  | some ms ↦ some (with_mappings mmap ms)
]

abbrev pub new_mapping : (base size : ℕ) → Mapping
new_mapping base size = record {
  start = base;
  last = (base + size + u32_mod - 1) % u32_mod;
  object = 0;
  type = hole;
  mapped = 0;
  offset = 0;
  protect = 0;
}

-- The mapping is that of the result. Where there is no memory it returns, as the build without
-- debugging does; ASSERT_MSG panics in the other.
pub vm_aspace_create_mapping_exactly :
    TreeSearch → (got_memory : Bool) → MemoryMap → (base size : ℕ) → VmStatus × MemoryMap
unfolding put_mapping_to_aspace
vm_aspace_create_mapping_exactly avl_tree_find got_memory mmap base size =
    if ltb base mmap.base || ltb mmap.size size || size == 0
    then (invalid_args, mmap)
    else if not got_memory
    then (no_memory, mmap)
    else elim (put_mapping_to_aspace avl_tree_find mmap (new_mapping base size)) [
      | none ↦ (bad_address, mmap)
      | some mmap' ↦ (no_error, mmap')
    ]

-- The padding of the size, and the base that is aligned, for an alignment in bytes or 0.
abbrev pub align_bytes : (npg_align : ℕ) → ℕ
align_bytes npg_align = if ltb npg_align 2 then 0 else npg_align * page_size % u32_mod

abbrev pub size_pad : (npg_align : ℕ) → ℕ
size_pad npg_align =
    if ltb npg_align 2 then 0 else (align_bytes npg_align + u32_mod - page_size) % u32_mod

abbrev pub align_base : (bytes base_addr : ℕ) → ℕ
align_base bytes base_addr =
    if bytes == 0
    then base_addr
    else (base_addr + bytes + u32_mod - 1) % u32_mod / bytes * bytes % u32_mod

-- With the base of the mapping.
pub vm_aspace_create_mapping :
    TreeSearch → (got_memory : Bool) → MemoryMap → (size npg_align : ℕ) → VmStatus × ℕ × MemoryMap
vm_aspace_create_mapping avl_tree_find got_memory mmap size npg_align =
    if size == 0
    then (invalid_args, 0, mmap)
    else elim (locate_memory_gap mmap ((size + size_pad npg_align) % u32_mod)) [
      | none ↦ (no_mapping_gap, 0, mmap)
      | some gap ↦
          let base = align_base (align_bytes npg_align) gap in
          let made = vm_aspace_create_mapping_exactly avl_tree_find got_memory mmap base size in
          (made.0, base, made.1)
    ]

-- `none` is the panic.
pub vm_aspace_delete_mapping : MemoryMap → Mapping → Option MemoryMap
unfolding remove_mapping_from_aspace
vm_aspace_delete_mapping mmap mapping = remove_mapping_from_aspace mmap mapping

-- The mapping at an address, where there is no error.
pub vm_aspace_get_mapping : TreeSearch → MemoryMap → (vaddr : ℕ) → VmStatus × Option Mapping
vm_aspace_get_mapping avl_tree_find mmap vaddr =
    let stop = (mmap.base + mmap.size + u32_mod - 1) % u32_mod in
    let found =
      avl_tree_find compare_mapping mmap.mappings (record (new_mapping vaddr 1) { last = vaddr }) in
    if ltb vaddr mmap.base || ltb stop vaddr then (bad_address, none) else elim found [
      | equal m ↦ (no_error, some m)
      | root ↦ (no_mapping, none)
      | before m ↦ (no_mapping, none)
      | after m ↦ (no_mapping, none)
    ]

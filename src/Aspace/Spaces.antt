-- ===== src/Aspace/Spaces.antt =====
-- phlox/kernel/vm/vm_address_space.c: the address spaces, their references and their deletion. A
-- pointer to a space is its id. The tree's search, which is code from elsewhere, gives that
-- pointer, and whether memory was got is an argument. `none` is a panic.
pub mod Use
pub mod References
pub mod Deletion
pub mod Names
pub mod Creation
use phlox.Common.{
  ℕ, zero, suc, ◌+◌, ◌-◌, ◌%◌, Bool, true, false, ◌&&◌, ◌||◌, not, Option, none, some, List, [],
  ◌∷◌, ◌++◌, ◌==◌, ltb, if◌then◌else◌, inc32, dec32, length, u32_mod,
}
use phlox.Aspace.{
  Found, Mapping, MappingType, hole, object, submap, MemoryMap, with_mappings, VmStatus, no_error,
  bad_address, invalid_aspace, vm_aspace_create_mapping_exactly, vm_aspace_delete_mapping,
  vm_aspace_get_mapping,
}

pub data AspaceState : Type 0 where
  normal : AspaceState
  deletion : AspaceState

pub record AddressSpace : Type 0 where
  pub id : ℕ
  pub name : Option (List ℕ)
  pub state : AspaceState
  pub ref_count : ℕ
  pub faults_count : ℕ
  pub mmap : MemoryMap

pub record Spaces : Type 0 where
  pub next_aspace_id : ℕ
  pub aspaces_list : List AddressSpace
  pub kernel_aspace : Option ℕ

abbrev pub invalid_aspaceid : ℕ
invalid_aspaceid = 0

abbrev pub max_os_name_len : ℕ
max_os_name_len = 64

abbrev pub is_normal : AspaceState → Bool
is_normal normal = true
is_normal deletion = false

-- The structure that a pointer points to, and a change of it.
abbrev pub aspace_at : List AddressSpace → ℕ → Option AddressSpace
aspace_at [] aid = none
aspace_at (a ∷ more) aid = if a.id == aid then some a else aspace_at more aid

abbrev pub update : (AddressSpace → AddressSpace) → ℕ → List AddressSpace → List AddressSpace
update f aid [] = []
update f aid (a ∷ more) = if a.id == aid then f a ∷ more else a ∷ update f aid more

abbrev pub without : ℕ → List AddressSpace → List AddressSpace
without aid [] = []
without aid (a ∷ more) = if a.id == aid then more else a ∷ without aid more

abbrev pub with_list : Spaces → List AddressSpace → Spaces
with_list s aspaces = record s { aspaces_list = aspaces }

abbrev pub inc_ref : AddressSpace → AddressSpace
inc_ref a = record a { ref_count = inc32 a.ref_count }

abbrev pub dec_ref : AddressSpace → AddressSpace
dec_ref a = record a { ref_count = dec32 a.ref_count }

-- strcmp gives 0.
abbrev pub same_string : List ℕ → List ℕ → Bool
same_string [] [] = true
same_string (a ∷ more) (b ∷ others) = (a == b) && same_string more others
same_string name other = false

pub vm_address_spaces_init : Spaces
vm_address_spaces_init = record { next_aspace_id = 1; aspaces_list = []; kernel_aspace = none }

-- The id, and the next one.
pub get_next_aspace_id : (next_aspace_id : ℕ) → Option (ℕ × ℕ)
get_next_aspace_id next = if next == invalid_aspaceid then none else some (next, inc32 next)

pub put_aspace_to_list : (List AddressSpace → ℕ → Option ℕ) → Spaces → AddressSpace → Option Spaces
put_aspace_to_list avl_tree_find s aspace = elim (avl_tree_find s.aspaces_list aspace.id) [
  | some p ↦ none
  | none ↦ some (with_list s (s.aspaces_list ++ aspace ∷ []))
]

-- The tree has the space when its search gives it.
pub remove_aspace_from_list :
    (List AddressSpace → ℕ → Option ℕ) → Spaces → (aid : ℕ) → Option Spaces
remove_aspace_from_list avl_tree_find s aid = elim (avl_tree_find s.aspaces_list aid) [
  | none ↦ none
  | some p ↦ some (with_list s (without aid s.aspaces_list))
]

-- What the allocations come to: the structure, the copy of the name, and the translation map.
pub record Obtained : Type 0 where
  pub structure : Bool
  pub name : Bool
  pub tmap : Bool

abbrev pub new_aspace : (id : ℕ) → Option (List ℕ) → (base size : ℕ) → AddressSpace
new_aspace id name base size = record {
  id = id;
  name = name;
  state = normal;
  ref_count = 0;
  faults_count = 0;
  mmap = record { base = base; size = size; mappings = [] };
}

abbrev pub is_some {ℓ} : {A : Type ℓ} → Option A → Bool
is_some none = false
is_some (some a) = true

-- The inner `none` is NULL.
pub create_aspace_common :
    Obtained → Spaces → Option (List ℕ) → (base size : ℕ) → Option (Option AddressSpace × Spaces)
unfolding get_next_aspace_id
create_aspace_common got s name base size =
    if size == 0 || not got.structure || (is_some name && not got.name) || not got.tmap
    then some (none, s)
    else elim (get_next_aspace_id s.next_aspace_id) [
      | none ↦ none
      | some (id, next) ↦
          some (some (new_aspace id name base size), record s { next_aspace_id = next })
    ]

-- The structure's space is in the list, with its id.
abbrev pub enlist :
    (List AddressSpace → ℕ → Option ℕ)
    → (to_kernel : Bool) → Option AddressSpace × Spaces
    → Option (ℕ × Spaces)
enlist avl_tree_find to_kernel (none, s) = some (invalid_aspaceid, s)
enlist avl_tree_find to_kernel (some aspace, s) =
    let s' = if to_kernel then record s { kernel_aspace = some aspace.id } else s in
    elim (put_aspace_to_list avl_tree_find s' aspace) [
      | none ↦ none
      | some s'' ↦ some (aspace.id, s'')
    ]

pub vm_create_kernel_aspace :
    (List AddressSpace → ℕ → Option ℕ)
    → Obtained
    → Spaces
    → Option (List ℕ)
    → (base size : ℕ) → Option (ℕ × Spaces)
unfolding create_aspace_common
vm_create_kernel_aspace avl_tree_find got s name base size = elim s.kernel_aspace [
  | some k ↦ none
  | none ↦ elim (create_aspace_common got s name base size) [
    | none ↦ none
    | some made ↦ enlist avl_tree_find true made
  ]
]

-- The first space that is not in deletion and has the name.
abbrev pub find_name : List AddressSpace → List ℕ → ℕ
find_name [] name = invalid_aspaceid
find_name (a ∷ more) name =
    let rest = find_name more name in
    elim a.name [
      | none ↦ rest
      | some own ↦ if is_normal a.state && same_string own name then a.id else rest
    ]

pub vm_find_aspace_by_name : Spaces → Option (List ℕ) → ℕ
vm_find_aspace_by_name s none = invalid_aspaceid
vm_find_aspace_by_name s (some name) = find_name s.aspaces_list name

abbrev pub long_name : Option (List ℕ) → Bool
long_name none = false
long_name (some name) = ltb max_os_name_len (length name)

pub vm_create_aspace :
    (List AddressSpace → ℕ → Option ℕ)
    → Obtained
    → Spaces
    → Option (List ℕ)
    → (base size : ℕ) → Option (ℕ × Spaces)
unfolding create_aspace_common vm_find_aspace_by_name
vm_create_aspace avl_tree_find got s name base size =
    if long_name name
    then some (invalid_aspaceid, s)
    else if not (vm_find_aspace_by_name s name == invalid_aspaceid)
    then some (invalid_aspaceid, s)
    else elim (create_aspace_common got s name base size) [
      | none ↦ none
      | some made ↦ enlist avl_tree_find false made
    ]

-- The pointer, or NULL.
pub vm_get_aspace_by_id :
    (List AddressSpace → ℕ → Option ℕ) → Spaces → (aid : ℕ) → Option ℕ × Spaces
vm_get_aspace_by_id avl_tree_find s aid = elim (avl_tree_find s.aspaces_list aid) [
  | none ↦ (none, s)
  | some p ↦ elim (aspace_at s.aspaces_list p) [
    | none ↦ (none, s)
    | some a ↦
        if is_normal a.state
        then (some p, with_list s (update inc_ref p s.aspaces_list))
        else (none, s)
  ]
]

pub vm_inc_aspace_refcnt : Spaces → (aspace : ℕ) → Option ℕ × Spaces
vm_inc_aspace_refcnt s p = elim (aspace_at s.aspaces_list p) [
  | none ↦ (none, s)
  | some a ↦
      if is_normal a.state
      then (some p, with_list s (update inc_ref p s.aspaces_list))
      else (none, s)
]

-- The loop of vm_put_aspace, with the objects whose mappings are removed and that are put.
pub release_objects : List Mapping → List Mapping × List ℕ
release_objects [] = ([], [])
release_objects (m ∷ ms) =
    let rest = release_objects ms in
    elim m.type [
      | object ↦ (record m { type = hole } ∷ rest.0, m.object ∷ rest.1)
      | hole ↦ (m ∷ rest.0, rest.1)
      | submap ↦ (m ∷ rest.0, rest.1)
    ]

-- The loop of delete_aspace_common, on the number of mappings.
pub delete_mappings : (n : ℕ) → MemoryMap → Option MemoryMap
unfolding vm_aspace_delete_mapping
delete_mappings zero mmap = some mmap
delete_mappings (suc n) mmap = elim mmap.mappings [
  | [] ↦ some mmap
  | m ∷ ms ↦ elim m.type [
    | hole ↦ elim (vm_aspace_delete_mapping mmap m) [
      | none ↦ none
      | some mmap' ↦ delete_mappings n mmap'
    ]
    | object ↦ none
    | submap ↦ none
  ]
]

-- With the map that is left, which is freed.
pub delete_aspace_common : AddressSpace → Option MemoryMap
unfolding delete_mappings
delete_aspace_common aspace =
    if aspace.ref_count == 0
    then delete_mappings (length aspace.mmap.mappings) aspace.mmap
    else none

-- With the objects that are put.
pub vm_put_aspace :
    (List AddressSpace → ℕ → Option ℕ) → Spaces → (aspace : ℕ) → Option (Spaces × List ℕ)
unfolding release_objects delete_aspace_common remove_aspace_from_list
vm_put_aspace avl_tree_find s p = elim (aspace_at s.aspaces_list p) [
  | none ↦ none
  | some a ↦
      let left = with_list s (update dec_ref p s.aspaces_list) in
      if is_normal a.state || not (dec32 a.ref_count == 0)
      then some (left, [])
      else elim (remove_aspace_from_list avl_tree_find left p) [
        | none ↦ none
        | some gone ↦
            let released = release_objects a.mmap.mappings in
            elim (delete_aspace_common
              (record (dec_ref a) { mmap = with_mappings a.mmap released.0 })) [
                | none ↦ none
                | some mmap ↦ some (gone, released.1)
              ]
      ]
]

abbrev pub set_deletion : AddressSpace → AddressSpace
set_deletion a = record a { state = deletion }

-- The assertion that there is a kernel space is the outer `none`.
pub vm_get_kernel_aspace : Spaces → Option (ℕ × Spaces)
vm_get_kernel_aspace s = elim s.kernel_aspace [
  | none ↦ none
  | some k ↦ some (k, with_list s (update inc_ref k s.aspaces_list))
]

pub vm_get_kernel_aspace_id : Spaces → Option ℕ
vm_get_kernel_aspace_id s = s.kernel_aspace

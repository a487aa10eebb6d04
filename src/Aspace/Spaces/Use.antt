-- ===== src/Aspace/Spaces/Use.antt =====
-- The routines of the address spaces that use a space under a reference to it.
use phlox.Common.{ℕ, Bool, Option, none, some, List, [], ◌==◌, if◌then◌else◌}
use phlox.Aspace.{
  TreeSearch, hole, object, submap, VmStatus, no_error, bad_address, invalid_aspace,
  vm_aspace_create_mapping_exactly, vm_aspace_delete_mapping, vm_aspace_get_mapping,
}
use phlox.Aspace.Spaces.{
  AddressSpace, Spaces, aspace_at, update, with_list, vm_get_aspace_by_id, vm_put_aspace,
  set_deletion, vm_get_kernel_aspace_id,
}

-- A reference is put back, with the status of its use.
abbrev pub put_back :
    (List AddressSpace → ℕ → Option ℕ)
    → VmStatus
    → Spaces
    → (aspace : ℕ) → Option (VmStatus × Spaces × List ℕ)
put_back avl_tree_find status s p = elim (vm_put_aspace avl_tree_find s p) [
  | none ↦ none
  | some (s', released) ↦ some (status, s', released)
]

-- A space is used where its pointer is got.
abbrev pub use_aspace :
    (List AddressSpace → ℕ → Option ℕ)
    → (AddressSpace → Option (VmStatus × AddressSpace))
    → Option ℕ × Spaces
    → Option (VmStatus × Spaces × List ℕ)
use_aspace avl_tree_find f (none, s) = some (invalid_aspace, s, [])
use_aspace avl_tree_find f (some p, s) = elim (aspace_at s.aspaces_list p) [
  | none ↦ none
  | some a ↦ elim (f a) [
    | none ↦ none
    | some (status, a') ↦
        put_back avl_tree_find status (with_list s (update (λ x. a') p s.aspaces_list)) p
  ]
]

-- A space is used under a reference to it: got by its id, and put back after.
abbrev pub under_reference :
    (List AddressSpace → ℕ → Option ℕ)
    → Spaces
    → (aid : ℕ) → (AddressSpace → Option (VmStatus × AddressSpace))
    → Option (VmStatus × Spaces × List ℕ)
under_reference avl_tree_find s aid f =
    use_aspace avl_tree_find f (vm_get_aspace_by_id avl_tree_find s aid)

unfoldable pub vm_delete_aspace :
    (List AddressSpace → ℕ → Option ℕ) → Spaces → (aid : ℕ) → Option (VmStatus × Spaces × List ℕ)
unfolding vm_get_kernel_aspace_id
vm_delete_aspace avl_tree_find s aid = elim (vm_get_kernel_aspace_id s) [
  | none ↦ none
  | some k ↦
      if aid == k
      then some (invalid_aspace, s, [])
      else under_reference avl_tree_find s aid (λ a. some (no_error, set_deletion a))
]

pub vm_create_memory_hole :
    (List AddressSpace → ℕ → Option ℕ)
    → TreeSearch
    → (got_memory : Bool) → Spaces
    → (aid base size : ℕ) → Option (VmStatus × Spaces × List ℕ)
unfolding vm_aspace_create_mapping_exactly
vm_create_memory_hole avl_tree_find find_mapping got_memory s aid base size =
    under_reference avl_tree_find s aid (λ a.
      let made = vm_aspace_create_mapping_exactly find_mapping got_memory a.mmap base size in
      some (made.0, record a { mmap = made.1 }))

-- The part of vm_delete_memory_hole that the space's lock covers.
abbrev delete_hole_at : TreeSearch → (vaddr : ℕ) → AddressSpace → Option (VmStatus × AddressSpace)
unfolding vm_aspace_get_mapping vm_aspace_delete_mapping
delete_hole_at find_mapping vaddr a =
    let got = vm_aspace_get_mapping find_mapping a.mmap vaddr in
    elim got.1 [
      | none ↦ some (got.0, a)
      | some m ↦ elim m.type [
        | hole ↦ elim (vm_aspace_delete_mapping a.mmap m) [
          | none ↦ none
          | some mmap ↦ some (no_error, record a { mmap = mmap })
        ]
        | object ↦ some (bad_address, a)
        | submap ↦ some (bad_address, a)
      ]
    ]

pub vm_delete_memory_hole :
    (List AddressSpace → ℕ → Option ℕ)
    → TreeSearch
    → Spaces
    → (aid vaddr : ℕ) → Option (VmStatus × Spaces × List ℕ)
vm_delete_memory_hole avl_tree_find find_mapping s aid vaddr =
    under_reference avl_tree_find s aid (delete_hole_at find_mapping vaddr)

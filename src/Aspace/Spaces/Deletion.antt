-- ===== src/Aspace/Spaces/Deletion.antt =====
-- `vm_delete_aspace`, and what the references that are left do after it.
use phlox.Common.{
  ℕ, zero, suc, ◌+◌, ◌<◌, ◌≡◌, ◌≢◌, refl, sym, ap, ◌∙◌, inl, inr, false, Option, none, some, List,
  [], ◌∷◌, ◌==◌, if◌then◌else◌, u32_mod, arith, Bool-cases, Distinct, has, ==_iff, has-erase_self,
  Distinct-erase, erase,
}
use mathlib.Core.Path.{subst}
use mathlib.Core.Option.{some_inj}
use phlox.Aspace.{VmStatus, no_error, invalid_aspace}
use phlox.Aspace.Spaces.{
  normal, deletion, AddressSpace, Spaces, aspace_at, update, without, with_list, inc_ref, dec_ref,
  set_deletion, vm_get_aspace_by_id, vm_get_kernel_aspace_id,
}
use phlox.Aspace.Spaces.Use.{vm_delete_aspace, under_reference, use_aspace, put_back}
use phlox.Aspace.Spaces.References.{
  ids, FindsId, NoSubmap, Keeps, ids-update, aspace_at-update, without-update, finds_here,
  vm_put_aspace-more, vm_put_aspace-last, put_times, put_times-gone,
}

aspace_at-id :
    (l : List AddressSpace) (p : ℕ) (a : AddressSpace) → aspace_at l p ≡ some a → a.id ≡ p
aspace_at-id [] p a e = ground (arith, e)
aspace_at-id (b ∷ more) p a e = elim (Bool-cases (b.id == p)) [
  | inl t ↦
      let same : b ≡ a = some_inj.0 (rw t at e) in subst (λ v. v.id ≡ p) same ((==_iff b.id p).0 t)
  | inr t ↦ aspace_at-id more p a (rw t at e)
]

ids-without : (p : ℕ) (l : List AddressSpace) → ids (without p l) ≡ erase p (ids l)
ids-without p [] = refl
ids-without p (a ∷ more) = elim (Bool-cases (a.id == p)) [
  | inl t ↦ rw t refl
  | inr t ↦ rw t (ap (λ v. a.id ∷ v) (ids-without p more))
]

pub vm_get_aspace_by_id-normal :
    (avl_tree_find : List AddressSpace → ℕ → Option ℕ)
    → FindsId avl_tree_find
    → (s : Spaces) (p : ℕ) (a : AddressSpace) → Distinct (ids s.aspaces_list)
    → aspace_at s.aspaces_list p ≡ some a
    → a.state ≡ normal
    → vm_get_aspace_by_id avl_tree_find s p
      ≡ (some p, with_list s (update inc_ref p s.aspaces_list))
unfolding vm_get_aspace_by_id
vm_get_aspace_by_id-normal find laws s p a d at e =
    rw (vm_get_aspace_by_id, finds_here find laws s.aspaces_list p a d at) (rw at (rw e refl))

-- A space in deletion is not got.
pub vm_get_aspace_by_id-deletion :
    (avl_tree_find : List AddressSpace → ℕ → Option ℕ)
    → FindsId avl_tree_find
    → (s : Spaces) (p : ℕ) (a : AddressSpace) → Distinct (ids s.aspaces_list)
    → aspace_at s.aspaces_list p ≡ some a
    → a.state ≡ deletion
    → vm_get_aspace_by_id avl_tree_find s p ≡ (none, s)
unfolding vm_get_aspace_by_id
vm_get_aspace_by_id-deletion find laws s p a d at e =
    rw (vm_get_aspace_by_id, finds_here find laws s.aspaces_list p a d at) (rw at (rw e refl))

vm_get_aspace_by_id-missing :
    (avl_tree_find : List AddressSpace → ℕ → Option ℕ)
    → FindsId avl_tree_find
    → (s : Spaces) (p : ℕ) → Distinct (ids s.aspaces_list)
    → has p (ids s.aspaces_list) ≡ false
    → vm_get_aspace_by_id avl_tree_find s p ≡ (none, s)
unfolding vm_get_aspace_by_id
vm_get_aspace_by_id-missing find laws s p d absent =
    rw (vm_get_aspace_by_id, laws.finds s.aspaces_list p d) (rw absent refl)

-- What comes of a change under a reference.
pub under_reference-some :
    (avl_tree_find : List AddressSpace → ℕ → Option ℕ)
    → FindsId avl_tree_find
    → (s : Spaces) (p : ℕ) (a a' : AddressSpace)
      (f : AddressSpace → Option (VmStatus × AddressSpace))
    → (status : VmStatus) → Distinct (ids s.aspaces_list)
    → aspace_at s.aspaces_list p ≡ some a
    → a.state ≡ normal
    → f (inc_ref a) ≡ some (status, a')
    → under_reference avl_tree_find s p f
      ≡ put_back avl_tree_find status
          (with_list s (update (λ x. a') p (update inc_ref p s.aspaces_list)))
          p
under_reference-some find laws s p a a' f status d at e made =
    let l = update inc_ref p s.aspaces_list in
    let there : aspace_at l p ≡ some (inc_ref a) =
      aspace_at-update inc_ref p s.aspaces_list a (λ x h. h) at in
    ap (use_aspace find f) (vm_get_aspace_by_id-normal find laws s p a d at e)
    ∙ rw (use_aspace, there) (rw made refl)

-- The number of references before a deletion is the number of releases that end the space.
abbrev pub Deleted :
    (List AddressSpace → ℕ → Option ℕ)
    → (s : Spaces) → (aid n : ℕ) → Option (VmStatus × Spaces × List ℕ)
    → Type 0
Deleted avl_tree_find s aid n none = ⊥
Deleted avl_tree_find s aid n (some (status, s', released)) =
    (status ≡ no_error)
    × (vm_get_aspace_by_id avl_tree_find s' aid ≡ (none, s'))
    × (put_times avl_tree_find n s' aid ≡ some (with_list s (without aid s.aspaces_list)))

-- Once the state is deletion, the releases end the space.
put_back-Deleted :
    (avl_tree_find : List AddressSpace → ℕ → Option ℕ)
    → FindsId avl_tree_find
    → (s : Spaces) (l : List AddressSpace) (p n : ℕ) (a : AddressSpace) → Distinct (ids l)
    → aspace_at l p ≡ some a
    → a.state ≡ deletion
    → a.ref_count ≡ suc n
    → suc n < u32_mod
    → NoSubmap a.mmap.mappings
    → without p l ≡ without p s.aspaces_list
    → Deleted avl_tree_find s p n (put_back avl_tree_find no_error (with_list s l) p)
put_back-Deleted find laws s l p zero a d at e refs lt plain same =
    rw (put_back, vm_put_aspace-last find laws (with_list s l) p a d at e refs plain)
      (
        refl,
        vm_get_aspace_by_id-missing find laws (with_list s (without p l)) p
            (subst Distinct (sym (ids-without p l)) (Distinct-erase p (ids l) d))
            (ap (has p) (ids-without p l) ∙ has-erase_self p (ids l) d),
        ap (λ v. some (with_list s v)) same,
      )
put_back-Deleted find laws s l p (suc n) a d at e refs lt plain same =
    let l' = update dec_ref p l in
    let d' = subst Distinct (sym (ids-update dec_ref p l (λ x h. h))) d in
    let at' = aspace_at-update dec_ref p l a (λ x h. h) at in
    let gone =
      put_times-gone find laws n (with_list s l') p (dec_ref a) d' at' e (omega (arith, refs, lt))
        (omega (arith, lt)) plain in
    rw (put_back, vm_put_aspace-more find (with_list s l) p a n at refs (omega (arith, refs, lt)))
      (
        refl,
        vm_get_aspace_by_id-deletion find laws (with_list s l') p (dec_ref a) d' at' e,
        gone ∙ ap (λ v. some (with_list s v)) (without-update dec_ref p l (λ x h. h) ∙ same),
      )

abbrev refused_kernel {ℓ} : {A : Type ℓ} → (aid : ℕ) → Option A → Option A → Option ℕ → Option A
refused_kernel aid refused otherwise none = none
refused_kernel aid refused otherwise (some k) = if aid == k then refused else otherwise

-- For a space in normal state, other than the kernel's, without submaps and with n references (n +
-- 1 below 2 ^ 32), where the ids of the spaces differ and the tree's search finds them:
-- vm_delete_aspace returns NO_ERROR, vm_get_aspace_by_id gives no pointer to the space from then
-- on, and after n calls of vm_put_aspace for it the list is the one before without the space.
pub vm_delete_aspace-Deleted :
    (avl_tree_find : List AddressSpace → ℕ → Option ℕ)
    → FindsId avl_tree_find
    → (s : Spaces) (aid kernel : ℕ) (a : AddressSpace) → Distinct (ids s.aspaces_list)
    → s.kernel_aspace ≡ some kernel
    → aid ≢ kernel
    → aspace_at s.aspaces_list aid ≡ some a
    → a.state ≡ normal
    → a.ref_count + 1 < u32_mod
    → NoSubmap a.mmap.mappings
    → Deleted avl_tree_find s aid a.ref_count (vm_delete_aspace avl_tree_find s aid)
unfolding vm_delete_aspace vm_get_kernel_aspace_id
vm_delete_aspace-Deleted find laws s aid kernel a d k ne at e lt plain =
    let other : (aid == kernel) ≡ false = ground (arith, ne) in
    let l = update inc_ref aid s.aspaces_list in
    let at1 : aspace_at l aid ≡ some (inc_ref a) =
      aspace_at-update inc_ref aid s.aspaces_list a (λ x h. h) at in
    let own = aspace_at-id s.aspaces_list aid a at in
    let keeps : Keeps (λ x. set_deletion (inc_ref a)) aid = λ x h. own in
    let by : vm_delete_aspace find s aid
        ≡ under_reference find s aid (λ x. some (no_error, set_deletion x)) =
      ap
        (refused_kernel aid (some (invalid_aspace, s, []))
          (under_reference find s aid (λ x. some (no_error, set_deletion x))))
        k
      ∙ rw other refl in
    let used_eq =
      under_reference-some find laws s aid a (set_deletion (inc_ref a))
        (λ x. some (no_error, set_deletion x)) no_error d at e refl in
    subst (Deleted find s aid a.ref_count) (sym (by ∙ used_eq)) (
      put_back-Deleted find laws s (update (λ x. set_deletion (inc_ref a)) aid l) aid a.ref_count
        (set_deletion (inc_ref a))
        (subst Distinct
          (sym (
            ids-update (λ x. set_deletion (inc_ref a)) aid l keeps
            ∙ ids-update inc_ref aid s.aspaces_list (λ x h. h)))
          d)
        (aspace_at-update (λ x. set_deletion (inc_ref a)) aid l (inc_ref a) keeps at1) refl
        (omega (arith, lt)) (omega (arith, lt)) plain
        (without-update (λ x. set_deletion (inc_ref a)) aid l keeps
          ∙ without-update inc_ref aid s.aspaces_list (λ x h. h)))

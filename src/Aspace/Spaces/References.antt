-- ===== src/Aspace/Spaces/References.antt =====
-- The references to an address space, and its deletion with the last one.
use phlox.Common.{
  ℕ, zero, suc, ◌<◌, ◌≡◌, ◌≢◌, refl, sym, ap, ◌∙◌, inl, inr, true, false, ◌||◌, not, Option, none,
  some, List, [], ◌∷◌, ◌==◌, if◌then◌else◌, dec32, length, u32_mod, arith, Bool-cases, Distinct,
  has, ◌∈◌, ==_iff,
}
use mathlib.Core.Path.{subst}
use mathlib.Core.Option.{some_inj}
use phlox.Aspace.{
  Mapping, MappingType, hole, object, submap, with_mappings, vm_aspace_delete_mapping,
  remove_mapping_from_aspace,
}
use phlox.Aspace.Place.{remove-here}
use phlox.Aspace.Spaces.{
  deletion, AddressSpace, Spaces, aspace_at, update, without, with_list, dec_ref, is_normal,
  release_objects, delete_mappings, delete_aspace_common, remove_aspace_from_list, vm_put_aspace,
}

abbrev pub ids : List AddressSpace → List ℕ
ids [] = []
ids (a ∷ more) = a.id ∷ ids more

-- What avl_tree_find gives for the tree of spaces, whose ids differ.
pub record FindsId (avl_tree_find : List AddressSpace → ℕ → Option ℕ) : Type 0 where
  pub finds :
      (l : List AddressSpace) (aid : ℕ)
      → Distinct (ids l)
      → avl_tree_find l aid ≡ (if has aid (ids l) then some aid else none)

-- No part of the map is a submap, which nothing here makes.
abbrev pub NoSubmap : List Mapping → Type 0
NoSubmap [] = Unit
NoSubmap (m ∷ ms) = (m.type ≢ submap) × NoSubmap ms

abbrev AllHoles : List Mapping → Type 0
AllHoles [] = Unit
AllHoles (m ∷ ms) = (m.type ≡ hole) × AllHoles ms

release_objects-AllHoles : (ms : List Mapping) → NoSubmap ms → AllHoles (release_objects ms).0
unfolding release_objects
release_objects-AllHoles [] h = tt
release_objects-AllHoles (m ∷ ms) (a, b) = go m.type refl (release_objects-AllHoles ms b)
  where
    go :
        (t : MappingType)
        → m.type ≡ t
        → AllHoles (release_objects ms).0
        → AllHoles (release_objects (m ∷ ms)).0
    go hole e h = rw e (refl, h)
    go object e h = rw e (refl, h)
    go submap e h = elim (a e) [ ]

-- The loop ends with no mappings.
delete_mappings-empty :
    (base size : ℕ) (ms : List Mapping)
    → AllHoles ms
    → delete_mappings (length ms) (record { base = base; size = size; mappings = ms })
      ≡ some (record { base = base; size = size; mappings = [] })
unfolding delete_mappings vm_aspace_delete_mapping remove_mapping_from_aspace
delete_mappings-empty base size [] h = refl
delete_mappings-empty base size (m ∷ ms) (e, h) =
    rw (e, remove-here m ms) (delete_mappings-empty base size ms h)

-- A change of the space at a pointer that keeps its id.
abbrev pub Keeps : (f : AddressSpace → AddressSpace) → ℕ → Type 0
Keeps f p = (a : AddressSpace) → a.id ≡ p → (f a).id ≡ p

pub ids-update :
    (f : AddressSpace → AddressSpace) (p : ℕ) (l : List AddressSpace)
    → Keeps f p
    → ids (update f p l) ≡ ids l
ids-update f p [] k = refl
ids-update f p (a ∷ more) k = elim (Bool-cases (a.id == p)) [
  | inl e ↦ let own = (==_iff a.id p).0 e in rw e (ap (λ v. v ∷ ids more) (k a own ∙ sym own))
  | inr e ↦ rw e (ap (λ v. a.id ∷ v) (ids-update f p more k))
]

pub aspace_at-update :
    (f : AddressSpace → AddressSpace) (p : ℕ) (l : List AddressSpace) (a : AddressSpace)
    → Keeps f p
    → aspace_at l p ≡ some a
    → aspace_at (update f p l) p ≡ some (f a)
aspace_at-update f p [] a k e = ground (arith, e)
aspace_at-update f p (b ∷ more) a k e = elim (Bool-cases (b.id == p)) [
  | inl t ↦
      let own = (==_iff (f b).id p).1 (k b ((==_iff b.id p).0 t)) in
      let same : b ≡ a = some_inj.0 (rw t at e) in rw t (rw own (ap (λ v. some (f v)) same))
  | inr t ↦ rw t (rw t (aspace_at-update f p more a k (rw t at e)))
]

pub without-update :
    (f : AddressSpace → AddressSpace) (p : ℕ) (l : List AddressSpace)
    → Keeps f p
    → without p (update f p l) ≡ without p l
without-update f p [] k = refl
without-update f p (a ∷ more) k = elim (Bool-cases (a.id == p)) [
  | inl e ↦
      let own : ((f a).id == p) ≡ true = (==_iff (f a).id p).1 (k a ((==_iff a.id p).0 e)) in
      rw e (rw own refl)
  | inr e ↦ rw e (rw e (ap (λ v. a ∷ v) (without-update f p more k)))
]

pub aspace_at-has :
    (p : ℕ) (l : List AddressSpace) (a : AddressSpace) → aspace_at l p ≡ some a → p ∈ ids l
aspace_at-has p [] a e = ground (arith, e)
aspace_at-has p (b ∷ more) a e = elim (Bool-cases (b.id == p)) [
  | inl t ↦ ground (arith, t)
  | inr t ↦ ground (arith, aspace_at-has p more a (rw t at e))
]

delete_aspace_common-empty :
    (a : AddressSpace)
    → a.ref_count ≡ 0
    → AllHoles a.mmap.mappings
    → delete_aspace_common a ≡ some (with_mappings a.mmap [])
unfolding delete_aspace_common
delete_aspace_common-empty a zero_refs holes =
    let none_left : (a.ref_count == 0) ≡ true = (==_iff a.ref_count 0).1 zero_refs in
    rw none_left (delete_mappings-empty a.mmap.base a.mmap.size a.mmap.mappings holes)

pub finds_here :
    (avl_tree_find : List AddressSpace → ℕ → Option ℕ)
    → FindsId avl_tree_find
    → (l : List AddressSpace) (p : ℕ) (a : AddressSpace) → Distinct (ids l)
    → aspace_at l p ≡ some a
    → avl_tree_find l p ≡ some p
finds_here find laws l p a d e =
    laws.finds l p d ∙ ap (λ b. if b then some p else none) (aspace_at-has p l a e)

Keeps-dec_ref : (p : ℕ) → Keeps dec_ref p
Keeps-dec_ref p a e = e

-- A reference to a space in deletion that is not the last is given up.
pub vm_put_aspace-more :
    (avl_tree_find : List AddressSpace → ℕ → Option ℕ)
    → (s : Spaces) (p : ℕ) (a : AddressSpace) (n : ℕ) → aspace_at s.aspaces_list p ≡ some a
    → a.ref_count ≡ suc (suc n)
    → a.ref_count < u32_mod
    → vm_put_aspace avl_tree_find s p ≡ some (with_list s (update dec_ref p s.aspaces_list), [])
unfolding vm_put_aspace
vm_put_aspace-more find s p a n at e lt =
    let left : (is_normal a.state || not (dec32 a.ref_count == 0)) ≡ true = ground (arith, e, lt) in
    rw (at, vm_put_aspace, left) refl

-- The last one removes the space and puts its objects.
pub vm_put_aspace-last :
    (avl_tree_find : List AddressSpace → ℕ → Option ℕ)
    → FindsId avl_tree_find
    → (s : Spaces) (p : ℕ) (a : AddressSpace) → Distinct (ids s.aspaces_list)
    → aspace_at s.aspaces_list p ≡ some a
    → a.state ≡ deletion
    → a.ref_count ≡ 1
    → NoSubmap a.mmap.mappings
    → vm_put_aspace avl_tree_find s p
      ≡ some (with_list s (without p s.aspaces_list), (release_objects a.mmap.mappings).1)
unfolding vm_put_aspace remove_aspace_from_list
vm_put_aspace-last find laws s p a d at e one plain =
    let l = update dec_ref p s.aspaces_list in
    let left : (is_normal a.state || not (dec32 a.ref_count == 0)) ≡ false =
      ground (arith, e, one) in
    let same = ids-update dec_ref p s.aspaces_list (Keeps-dec_ref p) in
    let here : find l p ≡ some p =
      finds_here find laws l p (dec_ref a) (subst Distinct (sym same) d)
        (aspace_at-update dec_ref p s.aspaces_list a (Keeps-dec_ref p) at) in
    rw (at, vm_put_aspace, left, here)
      (rw
        (delete_aspace_common-empty
          (record (dec_ref a) { mmap = with_mappings a.mmap (release_objects a.mmap.mappings).0 })
          (ground (arith, one)) (release_objects-AllHoles a.mmap.mappings plain))
        (ap (λ v. some (with_list s v, (release_objects a.mmap.mappings).1))
          (without-update dec_ref p s.aspaces_list (Keeps-dec_ref p))))

-- A number of releases of one space.
abbrev pub put_times :
    (List AddressSpace → ℕ → Option ℕ) → (n : ℕ) → Spaces → (aspace : ℕ) → Option Spaces
put_times avl_tree_find zero s p = some s
put_times avl_tree_find (suc n) s p = elim (vm_put_aspace avl_tree_find s p) [
  | none ↦ none
  | some (s', released) ↦ put_times avl_tree_find n s' p
]

-- With as many releases as references, a space in deletion goes.
pub put_times-gone :
    (avl_tree_find : List AddressSpace → ℕ → Option ℕ)
    → FindsId avl_tree_find
    → (n : ℕ) (s : Spaces) (p : ℕ) (a : AddressSpace) → Distinct (ids s.aspaces_list)
    → aspace_at s.aspaces_list p ≡ some a
    → a.state ≡ deletion
    → a.ref_count ≡ suc n
    → suc n < u32_mod
    → NoSubmap a.mmap.mappings
    → put_times avl_tree_find (suc n) s p ≡ some (with_list s (without p s.aspaces_list))
put_times-gone find laws zero s p a d at e refs lt plain =
    rw (vm_put_aspace-last find laws s p a d at e refs plain, put_times) refl
put_times-gone find laws (suc n) s p a d at e refs lt plain =
    let l = update dec_ref p s.aspaces_list in
    let next =
      put_times-gone find laws n (with_list s l) p (dec_ref a)
        (subst Distinct (sym (ids-update dec_ref p s.aspaces_list (Keeps-dec_ref p))) d)
        (aspace_at-update dec_ref p s.aspaces_list a (Keeps-dec_ref p) at) e
        (omega (arith, refs, lt)) (omega (arith, lt)) plain in
    rw (vm_put_aspace-more find s p a n at refs (omega (arith, refs, lt)), put_times)
      (next
        ∙ ap (λ v. some (with_list s v))
            (without-update dec_ref p s.aspaces_list (Keeps-dec_ref p)))

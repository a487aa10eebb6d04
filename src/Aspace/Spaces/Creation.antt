-- ===== src/Aspace/Spaces/Creation.antt =====
-- `vm_create_aspace`: a new space has an id and a name of its own.
use phlox.Common.{
  ℕ, ◌+◌, ◌<◌, ◌≡◌, ◌⊎◌, refl, sym, ap, ◌∙◌, inl, inr, true, false, ◌&&◌, ◌||◌, not, Option, none,
  some, List, [], ◌∷◌, ◌++◌, ◌==◌, if◌then◌else◌, inc32, u32_mod, arith, Bool-cases, Distinct, has,
  Distinct-append_one, length,
}
use mathlib.Core.Path.{subst}
use phlox.Aspace.Spaces.{
  Obtained, AddressSpace, Spaces, invalid_aspaceid, new_aspace, get_next_aspace_id,
  put_aspace_to_list, create_aspace_common, enlist, vm_find_aspace_by_name, vm_create_aspace,
  long_name, is_some, max_os_name_len,
}
use phlox.Aspace.Spaces.References.{ids, FindsId}
use phlox.Aspace.Spaces.Names.{Below, HasName, named-HasName, unnamed}

-- The ids differ, are above 0, and below the next one.
pub record IsSpaces (s : Spaces) : Type 0 where
  pub distinct : Distinct (ids s.aspaces_list)
  pub below : Below s.next_aspace_id s.aspaces_list
  pub some_id : 0 < s.next_aspace_id

has-Below : (next : ℕ) (l : List AddressSpace) → Below next l → has next (ids l) ≡ false
has-Below next [] h = refl
has-Below next (a ∷ more) (nz, lt, h) =
    let apart : (next == a.id) ≡ false = ground (arith, lt) in rw (apart) (has-Below next more h)

ids-append_one : (l : List AddressSpace) (a : AddressSpace) → ids (l ++ a ∷ []) ≡ ids l ++ a.id ∷ []
ids-append_one [] a = refl
ids-append_one (b ∷ l) a = ap (λ v. b.id ∷ v) (ids-append_one l a)

Below-append_one :
    (next : ℕ) (l : List AddressSpace) (a : AddressSpace)
    → Below next l
    → 0 < next
    → a.id ≡ next
    → Below (next + 1) (l ++ a ∷ [])
Below-append_one next [] a h some_id e = (omega (arith, some_id, e), omega (arith, e), tt)
Below-append_one next (b ∷ l) a (nz, lt, h) some_id e =
    (nz, omega (arith, lt), Below-append_one next l a h some_id e)

abbrev pub IsLong : (name : Option (List ℕ)) → Type 0
IsLong none = ⊥
IsLong (some name) = max_os_name_len < length name

-- Memory that the space wants was not got.
abbrev pub Lacks : Obtained → (name : Option (List ℕ)) → Type 0
Lacks got name =
    (got.structure ≡ false) ⊎ (got.tmap ≡ false) ⊎ ((is_some name ≡ true) × (got.name ≡ false))

-- No space, for one of the reasons, and no id is taken; or one with the next id, and a name that no
-- other has.
abbrev pub NewSpace :
    Obtained → Spaces → Option (List ℕ) → (base size : ℕ) → Option (ℕ × Spaces) → Type 0
NewSpace got s name base size none = ⊥
NewSpace got s name base size (some (id, s')) =
    ((id ≡ invalid_aspaceid)
      × (s' ≡ s)
      × (IsLong name ⊎ HasName name s.aspaces_list ⊎ (size ≡ 0) ⊎ Lacks got name))
    ⊎ ((id ≡ s.next_aspace_id)
        × IsSpaces s'
        × (s'.aspaces_list ≡ s.aspaces_list ++ new_aspace id name base size ∷ [])
        × (¬ IsLong name)
        × (¬ HasName name s.aspaces_list)
        × (0 < size))

enlist-new :
    (avl_tree_find : List AddressSpace → ℕ → Option ℕ)
    → FindsId avl_tree_find
    → (s : Spaces) (name : Option (List ℕ)) (base size : ℕ) → IsSpaces s
    → s.next_aspace_id + 1 < u32_mod
    → (got : Obtained) → ¬ IsLong name
    → ¬ HasName name s.aspaces_list
    → 0 < size
    → NewSpace got s name base size (
        enlist avl_tree_find false (
          some (new_aspace s.next_aspace_id name base size),
          record s { next_aspace_id = inc32 s.next_aspace_id },
        ))
unfolding put_aspace_to_list
enlist-new find laws s name base size ok lt got short unnamed some_size =
    let next = s.next_aspace_id in
    let fresh = has-Below next s.aspaces_list ok.below in
    let absent : find s.aspaces_list next ≡ none =
      laws.finds s.aspaces_list next ok.distinct ∙ ap (λ b. if b then some next else none) fresh in
    let up : inc32 next ≡ next + 1 = omega (arith, lt) in
    let a = new_aspace next name base size in
    rw (enlist, absent, put_aspace_to_list, NewSpace)
      (inr (
        refl,
        record {
          distinct =
              subst Distinct (sym (ids-append_one s.aspaces_list a))
                (Distinct-append_one next (ids s.aspaces_list) ok.distinct fresh);
          below =
              subst (λ v. Below v (s.aspaces_list ++ a ∷ [])) (sym up)
                (Below-append_one next s.aspaces_list a ok.below ok.some_id refl);
          some_id = omega (arith, up);
        },
        refl,
        short,
        unnamed,
        some_size,
      ))

long_name-IsLong : (name : Option (List ℕ)) → long_name name ≡ true → IsLong name
long_name-IsLong none h = ground (arith, h)
long_name-IsLong (some name) h = ground (arith, h)

short_name : (name : Option (List ℕ)) → long_name name ≡ false → ¬ IsLong name
short_name none h long = long
short_name (some name) h long = ground (arith, h, long)

not_got :
    (got : Obtained) (name : Option (List ℕ)) (size : ℕ)
    → (size == 0 || not got.structure || (is_some name && not got.name) || not got.tmap) ≡ true
    → (size ≡ 0) ⊎ Lacks got name
not_got got name size h = ground (arith, h)

-- Where the ids of the spaces differ, are above 0 and below the next one, which is above 0 and
-- below 2 ^ 32 - 1, and the tree's search finds them, vm_create_aspace returns VM_INVALID_ASPACEID
-- and changes nothing, and then the name is longer than 64 characters, a space in normal state has
-- it, the size is 0, or an allocation failed; or it returns the next id, the new space is the last
-- one of the list, none of the first three holds, and the ids still differ, are above 0 and below
-- the next one.
pub vm_create_aspace-NewSpace :
    (avl_tree_find : List AddressSpace → ℕ → Option ℕ)
    → FindsId avl_tree_find
    → (got : Obtained) (s : Spaces) (name : Option (List ℕ)) (base size : ℕ) → IsSpaces s
    → s.next_aspace_id + 1 < u32_mod
    → NewSpace got s name base size (vm_create_aspace avl_tree_find got s name base size)
unfolding vm_create_aspace create_aspace_common get_next_aspace_id
vm_create_aspace-NewSpace find laws got s name base size ok lt =
    elim (Bool-cases (long_name name)) [
      | inl long ↦ rw (long, vm_create_aspace) (inl (refl, refl, inl (long_name-IsLong name long)))
      | inr short ↦ elim (Bool-cases (not (vm_find_aspace_by_name s name == invalid_aspaceid))) [
        | inl known ↦
            rw (short, vm_create_aspace, known)
              (inl (refl, refl, inr (inl (named-HasName s name ok.below known))))
        | inr new ↦
            elim (Bool-cases
              (size == 0 || not got.structure || (is_some name && not got.name) || not got.tmap)) [
                | inl lacks ↦
                    rw (short, vm_create_aspace, new, lacks)
                      (inl (refl, refl, inr (inr (not_got got name size lacks))))
                | inr all_got ↦
                    let valid : (s.next_aspace_id == invalid_aspaceid) ≡ false =
                      ground (arith, ok.some_id) in
                    rw (short, vm_create_aspace, new, all_got, valid)
                      (enlist-new find laws s name base size ok lt got (short_name name short)
                        (unnamed s name ok.below new) (ground (arith, all_got)))
              ]
      ]
    ]

-- ===== src/Aspace/Spaces/Names.antt =====
-- `vm_find_aspace_by_name`: it finds a space where a space that is not in deletion has the name.
use phlox.Common.{
  ℕ, ◌<◌, ◌≡◌, ◌⊎◌, refl, sym, ◌∙◌, ap, inl, inr, true, false, ◌&&◌, not, Option, none, some, List,
  [], ◌∷◌, ◌==◌, arith, Bool-cases, Option-cases,
}
use mathlib.Core.Path.{subst}
use mathlib.Core.Option.{some_inj}
use phlox.Aspace.Spaces.{
  AspaceState, normal, deletion, AddressSpace, Spaces, invalid_aspaceid, is_normal, same_string,
  find_name, vm_find_aspace_by_name,
}

-- The ids are above 0 and below the next one.
abbrev pub Below : (next : ℕ) → List AddressSpace → Type 0
Below next [] = Unit
Below next (a ∷ more) = (0 < a.id) × (a.id < next) × Below next more

-- A space of the list that is not in deletion has the name.
abbrev Named : (name : List ℕ) → List AddressSpace → Type 0
Named name [] = ⊥
Named name (a ∷ more) = ((a.state ≡ normal) × (a.name ≡ some name)) ⊎ Named name more

abbrev pub HasName : (name : Option (List ℕ)) → List AddressSpace → Type 0
HasName none l = ⊥
HasName (some name) l = Named name l

same_string_eq : (name other : List ℕ) → same_string name other ≡ true → name ≡ other
same_string_eq [] [] h = refl
same_string_eq [] (b ∷ others) h = ground (arith, h)
same_string_eq (a ∷ more) [] h = ground (arith, h)
same_string_eq (a ∷ more) (b ∷ others) h =
    let same : a ≡ b = ground (arith, h) in
    let rest = same_string_eq more others (ground (arith, h)) in cc

same_string_self : (name : List ℕ) → same_string name name ≡ true
same_string_self [] = refl
same_string_self (a ∷ more) = ground (arith, same_string_self more)

is_normal_eq : (state : AspaceState) → is_normal state ≡ true → state ≡ normal
is_normal_eq normal h = refl
is_normal_eq deletion h = ground (arith, h)

-- What the search comes to for a list.
abbrev Looked : (name : List ℕ) → List AddressSpace → (id : ℕ) → Type 0
Looked name l id = ((0 < id) × Named name l) ⊎ ((id ≡ 0) × (¬ Named name l))

-- A space that does not have the name is passed over.
Looked-past :
    (a : AddressSpace) (more : List AddressSpace) (name : List ℕ) (id : ℕ)
    → ¬ ((a.state ≡ normal) × (a.name ≡ some name))
    → Looked name more id
    → Looked name (a ∷ more) id
Looked-past a more name id other (inl (nz, at)) = inl (nz, inr at)
Looked-past a more name id other (inr (z, absent)) =
    inr (z, λ at. elim at [ inl this ↦ other this | inr later ↦ absent later ])

none-some : (name : List ℕ) → ¬ (none ≡ some name)
none-some name e = ground (arith, e)

other_name :
    (a : AddressSpace) (name own : List ℕ)
    → a.name ≡ some own
    → (is_normal a.state && same_string own name) ≡ false
    → ¬ ((a.state ≡ normal) × (a.name ≡ some name))
other_name a name own e h (state, named) =
    let same : own ≡ name = some_inj.0 (sym e ∙ named) in
    let is : is_normal a.state ≡ true = ap is_normal state in
    let equal = subst (λ v. same_string own v ≡ true) same (same_string_self own) in
    ground (arith, h, is, equal)

find_name-Looked :
    (next : ℕ) (l : List AddressSpace) (name : List ℕ)
    → Below next l
    → Looked name l (find_name l name)
find_name-Looked next [] name h = inr (refl, λ at. at)
find_name-Looked next (a ∷ more) name (nz, lt, h) =
    let later = find_name-Looked next more name h in
    elim (Option-cases a.name) [
      | inl e ↦
          let past : find_name (a ∷ more) name ≡ find_name more name = rw e refl in
          subst (Looked name (a ∷ more)) (sym past) (
            Looked-past a more name (find_name more name) (λ at. none-some name (sym e ∙ at.1))
              later)
      | inr (own, e) ↦ elim (Bool-cases (is_normal a.state && same_string own name)) [
        | inl t ↦
            let here : find_name (a ∷ more) name ≡ a.id = rw (e, t) refl in
            let same : own ≡ name = same_string_eq own name (ground (arith, t)) in
            subst (Looked name (a ∷ more)) (sym here)
              (inl (nz, inl (is_normal_eq a.state (ground (arith, t)), e ∙ ap some same)))
        | inr t ↦
            let past : find_name (a ∷ more) name ≡ find_name more name = rw (e, t) refl in
            subst (Looked name (a ∷ more)) (sym past)
              (Looked-past a more name (find_name more name) (other_name a name own e t) later)
      ]
    ]

pub named-HasName :
    (s : Spaces) (name : Option (List ℕ))
    → Below s.next_aspace_id s.aspaces_list
    → not (vm_find_aspace_by_name s name == invalid_aspaceid) ≡ true
    → HasName name s.aspaces_list
unfolding vm_find_aspace_by_name
named-HasName s none h e = ground (arith, e)
named-HasName s (some name) h e = elim (find_name-Looked s.next_aspace_id s.aspaces_list name h) [
  | inl (nz, at) ↦ at
  | inr (z, absent) ↦ ground (arith, e, z)
]

pub unnamed :
    (s : Spaces) (name : Option (List ℕ))
    → Below s.next_aspace_id s.aspaces_list
    → not (vm_find_aspace_by_name s name == invalid_aspaceid) ≡ false
    → ¬ HasName name s.aspaces_list
unfolding vm_find_aspace_by_name
unnamed s none h e at = at
unnamed s (some name) h e at = elim (find_name-Looked s.next_aspace_id s.aspaces_list name h) [
  | inl (nz, found) ↦ ground (arith, e, nz)
  | inr (z, absent) ↦ absent at
]

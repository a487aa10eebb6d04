-- ===== src/XList/Represents.antt =====
-- What a list header and the links stand for: the sequence of its elements.
use phlox.Common.{
  ◌<◌, ◌≡◌, refl, ◌≢◌, List, [], ◌∷◌, ◌++◌, arith, length, u32_mod, has, has-append, ◌∈◌, ◌∉◌,
  Distinct, ◌==◌, Bool-cases, inl, inr,
}
use phlox.XList.{Ptr, null, XList, xlist_init, xlist_isempty}
use phlox.XList.Segment.{Seg}

-- The elements are `xs`, first to last, all distinct, and the count is exact.
pub record IsList (l : XList) (xs : List Ptr) : Type 0 where
  pub chain : Seg l.prev l.next null l.first xs l.last null
  pub distinct : Distinct xs
  pub counted : l.count ≡ length xs
  pub small : length xs < u32_mod

-- The links of every element outside `xs` are as they were.
abbrev pub SameOutside : List Ptr → XList → XList → Type 0
SameOutside xs l m = (a : Ptr) → a ∉ xs → (m.prev a ≡ l.prev a) × (m.next a ≡ l.next a)

-- The links of the element are both NULL.
abbrev pub IsDetached : XList → Ptr → Type 0
IsDetached l e = (l.prev e ≡ null) × (l.next e ≡ null)

-- What extracting an element leaves: the others, the element detached, and all else as it was.
pub record Extracted (l : XList) (e : Ptr) (all rest : List Ptr) (m : XList) : Type 0 where
  pub left : IsList m rest
  pub detached : IsDetached m e
  pub same : SameOutside all l m

pub not_mem-append_left : (a : Ptr) (xs ys : List Ptr) → a ∉ xs ++ ys → a ∉ xs
not_mem-append_left a xs ys h = ground (arith, has-append a xs ys)

pub not_mem-append_right : (a : Ptr) (xs ys : List Ptr) → a ∉ xs ++ ys → a ∉ ys
not_mem-append_right a xs ys h = ground (arith, has-append a xs ys)

pub not_mem-append : (a : Ptr) (xs ys : List Ptr) → a ∉ xs → a ∉ ys → a ∉ xs ++ ys
not_mem-append a xs ys h k = ground (arith, has-append a xs ys)

pub Distinct-append_left : (xs ys : List Ptr) → Distinct (xs ++ ys) → Distinct xs
Distinct-append_left [] ys d = tt
Distinct-append_left (x ∷ xs) ys d =
    (not_mem-append_left x xs ys d.0, Distinct-append_left xs ys d.1)

pub Distinct-append_right : (xs ys : List Ptr) → Distinct (xs ++ ys) → Distinct ys
Distinct-append_right [] ys d = d
Distinct-append_right (x ∷ xs) ys d = Distinct-append_right xs ys d.1

-- An element of the second part does not stand in the first.
pub Distinct-apart : (a : Ptr) (xs ys : List Ptr) → Distinct (xs ++ ys) → a ∈ ys → a ∉ xs
Distinct-apart a [] ys d i = refl
Distinct-apart a (x ∷ xs) ys d i =
    ground (arith, Distinct-apart a xs ys d.1 i, not_mem-append_right x xs ys d.0)

-- The middle element may be taken out, or put in where it is new.
pub Distinct-insert :
    (xs : List Ptr) (e : Ptr) (ys : List Ptr)
    → e ∉ xs ++ ys
    → Distinct (xs ++ ys)
    → Distinct (xs ++ e ∷ ys)
Distinct-insert [] e ys n d = (n, d)
Distinct-insert (x ∷ xs) e ys n d =
    let apart : e ≢ x = ground arith in
    (
      not_mem-append x xs (e ∷ ys) (not_mem-append_left x xs ys d.0)
          (ground (arith, not_mem-append_right x xs ys d.0)),
      Distinct-insert xs e ys (ground arith) d.1,
    )

-- A list that has been initialised is empty, whatever it held.
pub xlist_init-IsList : (l : XList) → IsList (xlist_init l) []
unfolding xlist_init
xlist_init-IsList l = record {
  chain = (refl, refl);
  distinct = tt;
  counted = refl;
  small = omega arith;
}

-- `xlist_isempty` tells the empty list from the others.
pub xlist_isempty-IsList :
    (l : XList) (xs : List Ptr) → IsList l xs → xlist_isempty l ≡ (length xs == 0)
unfolding xlist_isempty
xlist_isempty-IsList l xs is = rw is.counted

pub append-nil_not_mem : (a : Ptr) (xs : List Ptr) → a ∉ xs → a ∉ xs ++ []
append-nil_not_mem a xs n = not_mem-append a xs [] n refl

-- An element of the first part does not stand in the second.
pub Distinct-apart_right : (a : Ptr) (xs ys : List Ptr) → Distinct (xs ++ ys) → a ∈ xs → a ∉ ys
Distinct-apart_right a xs ys d i = elim (Bool-cases (has a ys)) [
  | inl here ↦ ground (arith, Distinct-apart a xs ys d here)
  | inr out ↦ out
]

pub Distinct-append :
    (xs ys : List Ptr)
    → Distinct xs
    → Distinct ys
    → ((a : Ptr) → a ∈ xs → a ∉ ys)
    → Distinct (xs ++ ys)
Distinct-append [] ys d e apart = e
Distinct-append (x ∷ xs) ys d e apart = (
  not_mem-append x xs ys d.0 (apart x (ground arith)),
  Distinct-append xs ys d.1 e (λ a i. apart a (ground arith)),
)

-- ===== src/XList/Search.antt =====
-- `xlist_remove`, `xlist_insert_after`, `xlist_insert_before` and `xlist_dump_elements`: the
-- routines that walk the list. The rounds given suffice for a list that stands for a sequence.
use mathlib.Core.Path.{subst₂, sym}
use phlox.Common.{
  ℕ, zero, suc, ◌+◌, ◌<◌, ◌≡◌, refl, ap, ◌∙◌, ◌≢◌, ◌⊎◌, inl, inr, false, true, some, List, [], ◌∷◌,
  ◌++◌, arith, length, u32_mod, ◌==◌, ◌∈◌, ◌∉◌, has, has-append, erase, if◌then◌else◌, Bool-cases,
}
use phlox.XList.{
  Ptr, null, XList, search_from, if_found, dump_from, xlist_remove, xlist_remove_unsafe,
  xlist_insert_after, xlist_insert_after_unsafe, xlist_insert_before, xlist_insert_before_unsafe,
  xlist_dump_elements,
}
use phlox.XList.Segment.{Seg}
use phlox.XList.Represents.{IsList, SameOutside, Extracted}
use phlox.XList.Splice.{xlist_remove_unsafe-IsList}
use phlox.XList.Insert.{xlist_insert_after_unsafe-IsList, xlist_insert_before_unsafe-IsList}

search_from-Seg :
    (k : ℕ) (l : XList) (b p : Ptr) (xs : List Ptr) (last e : Ptr)
    → Seg l.prev l.next b p xs last null
    → length xs < k
    → search_from k l p e ≡ some (has e xs)
unfolding search_from
search_from-Seg zero l b p xs last e h fuel = absurd (omega arith)
search_from-Seg (suc k) l b p [] last e h fuel = ground (arith, h)
search_from-Seg (suc k) l b p (x ∷ xs) last e h fuel =
    ground (arith, h, search_from-Seg k l x (l.next x) xs last e h.3)

-- The routines with a check run the unchecked ones exactly where the element is in the list.
if_found-IsList :
    (l : XList) (xs : List Ptr) (item : Ptr) (f : XList → XList)
    → IsList l xs
    → if_found l item f ≡ (if has item xs then some (true, f l) else some (false, l))
unfolding if_found
if_found-IsList l xs item f is =
    let found =
      search_from-Seg (l.count + 1) l null l.first xs l.last item is.chain
        (omega (arith, is.counted)) in
    ground (arith, found)

-- A list that holds `e` is the elements before it, `e`, and the elements after it.
Mem-split :
    (e : Ptr) (xs : List Ptr)
    → e ∈ xs
    → (before : List Ptr) × (after : List Ptr) × (xs ≡ before ++ e ∷ after)
      × (erase e xs ≡ before ++ after)
Mem-split e [] i = absurd (cc)
Mem-split e (x ∷ xs) i = elim (Bool-cases (x == e)) [
  | inl same ↦ ([], xs, ground arith, ground arith)
  | inr other ↦
      let there : e ∈ xs = ground arith in
      let (before, after, whole, rest) = Mem-split e xs there in
      (x ∷ before, after, ap (◌∷◌ x) whole, rw other (ap (◌∷◌ x) rest))
]

-- xlist_remove on a well-formed list removes the given element and returns 1 where it is in the
-- list, and returns 0 with the list unchanged where it is not; the search terminates.
pub xlist_remove-IsList :
    (l : XList) (xs : List Ptr) (e : Ptr)
    → IsList l xs
    → ((e ∈ xs)
        × ((m : XList) × (xlist_remove l e ≡ some (true, m)) × Extracted l e xs (erase e xs) m))
      ⊎ ((e ∉ xs) × (xlist_remove l e ≡ some (false, l)))
unfolding xlist_remove
xlist_remove-IsList l xs e is = elim (Bool-cases (has e xs)) [
  | inl i ↦
      let (before, after, whole, rest) = Mem-split e xs i in
      let run : xlist_remove l e ≡ some (true, xlist_remove_unsafe l e) =
        if_found-IsList l xs e (λ m. xlist_remove_unsafe m e) is ∙ rw i refl in
      let gone = xlist_remove_unsafe-IsList l before e after (rw whole at is) in
      inl (
        i,
        (
          xlist_remove_unsafe l e,
          run,
          subst₂ (λ u v. Extracted l e u v (xlist_remove_unsafe l e)) (sym whole) (sym rest) gone,
        ),
      )
  | inr o ↦ inr (o, if_found-IsList l xs e (λ m. xlist_remove_unsafe m e) is ∙ rw o refl)
]

-- xlist_insert_after at an element of a well-formed list puts a new element, not NULL and not in
-- the list, right behind it and returns 1, writing only links of the list's elements and the new
-- one.
pub xlist_insert_after-IsList :
    (l : XList) (xs : List Ptr) (item e : Ptr) (ys : List Ptr)
    → IsList l (xs ++ item ∷ ys)
    → e ≢ null
    → e ∉ xs ++ item ∷ ys
    → suc (length (xs ++ item ∷ ys)) < u32_mod
    → (m : XList) × (xlist_insert_after l item e ≡ some (true, m))
      × IsList m (xs ++ item ∷ e ∷ ys)
      × SameOutside (e ∷ xs ++ item ∷ ys) l m
unfolding xlist_insert_after
xlist_insert_after-IsList l xs item e ys is nz new room =
    let found : has item (xs ++ item ∷ ys) ≡ true =
      ground (arith, has-append item xs (item ∷ ys)) in
    let (list, same) = xlist_insert_after_unsafe-IsList l xs item e ys is nz new room in
    (
      xlist_insert_after_unsafe l item e,
      if_found-IsList l (xs ++ item ∷ ys) item (λ m. xlist_insert_after_unsafe m item e) is
          ∙ rw found refl,
      list,
      same,
    )

-- xlist_insert_before at an element of a well-formed list puts a new element, not NULL and not in
-- the list, right before it and returns 1, writing only links of the list's elements and the new
-- one.
pub xlist_insert_before-IsList :
    (l : XList) (xs : List Ptr) (item e : Ptr) (ys : List Ptr)
    → IsList l (xs ++ item ∷ ys)
    → e ≢ null
    → e ∉ xs ++ item ∷ ys
    → suc (length (xs ++ item ∷ ys)) < u32_mod
    → (m : XList) × (xlist_insert_before l item e ≡ some (true, m))
      × IsList m (xs ++ e ∷ item ∷ ys)
      × SameOutside (e ∷ xs ++ item ∷ ys) l m
unfolding xlist_insert_before
xlist_insert_before-IsList l xs item e ys is nz new room =
    let found : has item (xs ++ item ∷ ys) ≡ true =
      ground (arith, has-append item xs (item ∷ ys)) in
    let (list, same) = xlist_insert_before_unsafe-IsList l xs item e ys is nz new room in
    (
      xlist_insert_before_unsafe l item e,
      if_found-IsList l (xs ++ item ∷ ys) item (λ m. xlist_insert_before_unsafe m item e) is
          ∙ rw found refl,
      list,
      same,
    )

dump_from-Seg :
    (k : ℕ) (l : XList) (b p : Ptr) (xs : List Ptr) (last : Ptr)
    → Seg l.prev l.next b p xs last null
    → length xs < k
    → dump_from k l p ≡ some xs
unfolding dump_from
dump_from-Seg zero l b p xs last h fuel = absurd (omega arith)
dump_from-Seg (suc k) l b p [] last h fuel = ground (arith, h)
dump_from-Seg (suc k) l b p (x ∷ xs) last h fuel =
    ground (arith, h, dump_from-Seg k l x (l.next x) xs last h.3)

-- xlist_dump_elements on a well-formed list fills the array with exactly its elements, first to
-- last, and terminates.
pub xlist_dump_elements-IsList :
    (l : XList) (xs : List Ptr) → IsList l xs → xlist_dump_elements l ≡ some xs
unfolding xlist_dump_elements
xlist_dump_elements-IsList l xs is =
    dump_from-Seg (l.count + 1) l null l.first xs l.last is.chain (omega (arith, is.counted))

-- ===== src/XList/Splice.antt =====
-- `xlist_remove_unsafe`, `xlist_insert_after_unsafe` and `xlist_insert_before_unsafe` at an element
-- in the middle of a list that stands for a sequence.
use mathlib.Core.Path.{subst, sym}
use phlox.Common.{
  Distinct-remove, ◌≡◌, refl, ◌≢◌, ◌⊎◌, inl, inr, false, true, List, [], ◌∷◌, ◌++◌, arith,
  length-append, ◌==◌, ◌∈◌, ◌∉◌, Distinct, if◌then◌else◌, dec32, Bool-cases,
}
use phlox.XList.{Ptr, null, update, XList, xlist_remove_unsafe}
use phlox.XList.Segment.{Seg, frame, join, split, relink_last, relink_head}
use phlox.XList.Represents.{
  IsList, Extracted, Distinct-append_left, Distinct-append_right, Distinct-apart_right,
  Distinct-apart, not_mem-append_left, not_mem-append_right,
}

-- A run from the head of a list gets `q` as what follows it.
pub set_successor :
    (pv nx : Ptr → Ptr) (p : Ptr) (xs : List Ptr) (r s q : Ptr)
    → Distinct xs
    → Seg pv nx null p xs r s
    → ((r ≡ null) ⊎ (r ∈ xs))
      × Seg pv (if r == null then nx else update nx r q) null (if r == null then q else p) xs r q
set_successor pv nx p [] r s q d h =
    let empty : (r == null) ≡ true = ground (arith, h) in
    (inl (ground (arith, h)), rw empty (refl, h.1))
set_successor pv nx p (x ∷ xs) r s q d h =
    let (mem, nz, run) = relink_last pv nx null p x xs r s q d h in
    let full : (r == null) ≡ false = ground arith in
    (
      inr mem,
      subst (λ t. Seg pv (if t then nx else update nx r q) null (if t then q else p) (x ∷ xs) r q)
          (sym full) run,
    )

-- A run to the end of a list gets `b` as what precedes it.
pub set_predecessor :
    (pv nx : Ptr → Ptr) (e q : Ptr) (ys : List Ptr) (l b : Ptr)
    → Distinct ys
    → Seg pv nx e q ys l null
    → ((q ≡ null) ⊎ (q ∈ ys))
      × Seg (if q == null then pv else update pv q b) nx b q ys (if q == null then b else l) null
set_predecessor pv nx e q [] l b d h =
    let empty : (q == null) ≡ true = ground (arith, h) in (inl h.0, rw empty (h.0, refl))
set_predecessor pv nx e q (y ∷ ys) l b d h =
    let full : (q == null) ≡ false = ground (arith, h) in
    let run : Seg (update pv q b) nx b q (y ∷ ys) l null =
      subst (λ t. Seg (update pv t b) nx b q (y ∷ ys) l null) (sym h.0)
        (relink_head pv nx e q y ys l null b d.0 h) in
    (
      inr (ground (arith, h)),
      subst (λ t. Seg (if t then pv else update pv q b) nx b q (y ∷ ys) (if t then b else l) null)
          (sym full) run,
    )

remove_fields :
    (l : XList) (e : Ptr)
    → l.prev e ≢ e
    → xlist_remove_unsafe l e ≡ record {
      first = if l.prev e == null then l.next e else l.first;
      last = if l.next e == null then l.prev e else l.last;
      count = dec32 l.count;
      prev =
          update (if l.next e == null then l.prev else update l.prev (l.next e) (l.prev e)) e null;
      next =
          update (if l.prev e == null then l.next else update l.next (l.prev e) (l.next e)) e null;
    }
unfolding xlist_remove_unsafe
remove_fields l e ne = elim (Bool-cases (l.prev e == null)) [
  | inl a ↦ elim (Bool-cases (l.next e == null)) [ inl b ↦ rw (a, b) | inr b ↦ rw (a, b) ]
  | inr a ↦
      let same : (e == l.prev e) ≡ false = ground arith in
      elim (Bool-cases (l.next e == null)) [ inl b ↦ rw (a, same, b) | inr b ↦ rw (a, same, b) ]
]

-- The runs before and after `e`, relinked to each other.
remove_chain :
    (pv nx : Ptr → Ptr) (p : Ptr) (xs : List Ptr) (e : Ptr) (ys : List Ptr) (l : Ptr)
    → Distinct (xs ++ e ∷ ys)
    → Seg pv nx null p (xs ++ e ∷ ys) l null
    → Seg
        (update (if nx e == null then pv else update pv (nx e) (pv e)) e null)
        (update (if pv e == null then nx else update nx (pv e) (nx e)) e null)
        null
        (if pv e == null then nx e else p)
        (xs ++ ys)
        (if nx e == null then pv e else l)
        null
remove_chain pv nx p xs e ys l d h =
    let (r, s, front, back) = split pv nx null p xs (e ∷ ys) l null h in
    let before : pv e ≡ r = back.2 in
    let q = nx e in
    let d2 : Distinct (e ∷ ys) = Distinct-append_right xs (e ∷ ys) d in
    let d1 : Distinct xs = Distinct-append_left xs (e ∷ ys) d in
    let (r_in, f) = set_successor pv nx p xs r s q d1 front in
    let (q_in, b) = set_predecessor pv nx e q ys l r d2.1 back.3 in
    let apart = λ (a : Ptr) (i : a ∈ xs). Distinct-apart_right a xs (e ∷ ys) d i in
    rw before (
      join _ _ null _ xs r q ys _ null
        (frame _ _ _ _ null _ xs r q (λ c i. ground (arith, apart c i, q_in))
          (λ c i. ground (arith, apart c i)) f)
        (frame _ _ _ _ r q ys _ null (λ c i. ground (arith, d2))
          (λ c i. ground (arith, d2, apart r, r_in)) b))

-- xlist_remove_unsafe on an element of a well-formed list leaves a well-formed list of the other
-- elements in their order, the element detached, and the links of all other addresses as they
-- were.
pub xlist_remove_unsafe-IsList :
    (l : XList) (xs : List Ptr) (e : Ptr) (ys : List Ptr)
    → IsList l (xs ++ e ∷ ys)
    → Extracted l e (xs ++ e ∷ ys) (xs ++ ys) (xlist_remove_unsafe l e)
xlist_remove_unsafe-IsList l xs e ys is =
    let (r, s, front, back) = split l.prev l.next null l.first xs (e ∷ ys) l.last null is.chain in
    let d2 : Distinct (e ∷ ys) = Distinct-append_right xs (e ∷ ys) is.distinct in
    let r_in =
      (set_successor l.prev l.next l.first xs r s null
        (Distinct-append_left xs (e ∷ ys) is.distinct) front).0 in
    let q_in = (set_predecessor l.prev l.next e (l.next e) ys l.last null d2.1 back.3).0 in
    let e_out : e ∉ xs = Distinct-apart e xs (e ∷ ys) is.distinct (ground arith) in
    let before : l.prev e ≡ r = back.2 in
    let ne : l.prev e ≢ e = ground (arith, back, r_in) in
    rw (remove_fields l e ne) (record {
      left = record {
        chain = remove_chain l.prev l.next l.first xs e ys l.last is.distinct is.chain;
        distinct = Distinct-remove xs e ys is.distinct;
        counted =
            omega (arith, is.counted, is.small, length-append xs ys, length-append xs (e ∷ ys));
        small = omega (arith, is.small, length-append xs ys, length-append xs (e ∷ ys));
      };
      detached = (ground arith, ground arith);
      same = λ a o.
          let o1 : a ∉ xs = not_mem-append_left a xs (e ∷ ys) o in
          let o2 : a ∉ e ∷ ys = not_mem-append_right a xs (e ∷ ys) o in
          (ground (arith, q_in), ground (arith, r_in));
    })

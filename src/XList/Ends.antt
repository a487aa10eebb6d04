-- ===== src/XList/Ends.antt =====
-- `xlist_add_first`, `xlist_add_last`, `xlist_extract_first` and `xlist_extract_last` on a list
-- that stands for a sequence.
use mathlib.Core.List.{append-nil}
use phlox.Common.{
  suc, ◌<◌, ◌≡◌, refl, ◌≢◌, false, true, List, [], ◌∷◌, ◌++◌, arith, length, length-append, u32_mod,
  ◌==◌, ◌∉◌, Distinct,
}
use phlox.XList.{
  Ptr, null, update, XList, xlist_add_first, xlist_add_last, xlist_extract_first,
  xlist_extract_last,
}
use phlox.XList.Segment.{Seg, frame, join, split, relink_last}
use phlox.XList.Represents.{
  IsList, SameOutside, Extracted, Distinct-insert, Distinct-append_left, Distinct-apart,
  append-nil_not_mem, not_mem-append_left, not_mem-append_right,
}

-- xlist_add_first puts a new element, not NULL and not in the list, before the elements of a well-
-- formed list and keeps it well-formed, if the count stays a 32-bit number; it writes only links
-- of the list's elements and the new one.
pub xlist_add_first-IsList :
    (l : XList) (xs : List Ptr) (e : Ptr)
    → IsList l xs
    → e ≢ null
    → e ∉ xs
    → suc (length xs) < u32_mod
    → IsList (xlist_add_first l e) (e ∷ xs) × SameOutside (e ∷ xs) l (xlist_add_first l e)
unfolding xlist_add_first
xlist_add_first-IsList l [] e is nz new room =
    let empty : (l.first == null) ≡ true = ground (arith, is.chain) in
    rw empty (
      record {
        chain = (refl, nz, ground arith, (ground arith, refl));
        distinct = (refl, tt);
        counted = omega (arith, is.counted);
        small = room;
      },
      λ a o. (ground arith, ground arith),
    )
xlist_add_first-IsList l (x ∷ xs) e is nz new room =
    let full : (l.first == null) ≡ false = ground (arith, is.chain) in
    let tail : Seg (update (update l.prev l.first e) e null) (update l.next e l.first) x (l.next x)
        xs l.last null =
      frame l.prev l.next _ _ x (l.next x) xs l.last null
        (λ c i. ground (arith, is.chain, is.distinct)) (λ c i. ground arith) is.chain.3 in
    let next_x : update l.next e l.first x ≡ l.next x = ground arith in
    rw full (
      record {
        chain = (
          refl,
          nz,
          ground arith,
          (ground (arith, is.chain), is.chain.1, ground (arith, is.chain), rw next_x tail),
        );
        distinct = (new, is.distinct);
        counted = omega (arith, is.counted);
        small = room;
      },
      λ a o. (ground (arith, is.chain), ground arith),
    )

-- xlist_add_last puts a new element, not NULL and not in the list, behind the elements of a well-
-- formed list and keeps it well-formed, if the count stays a 32-bit number; it writes only links
-- of the list's elements and the new one.
pub xlist_add_last-IsList :
    (l : XList) (xs : List Ptr) (e : Ptr)
    → IsList l xs
    → e ≢ null
    → e ∉ xs
    → suc (length xs) < u32_mod
    → IsList (xlist_add_last l e) (xs ++ e ∷ []) × SameOutside (e ∷ xs) l (xlist_add_last l e)
unfolding xlist_add_last
xlist_add_last-IsList l [] e is nz new room =
    let empty : (l.last == null) ≡ true = ground (arith, is.chain) in
    rw empty (
      record {
        chain = (refl, nz, ground arith, (ground arith, refl));
        distinct = (refl, tt);
        counted = omega (arith, is.counted);
        small = room;
      },
      λ a o. (ground arith, ground arith),
    )
xlist_add_last-IsList l (x ∷ xs) e is nz new room =
    let (mem, last_nz, front) =
      relink_last l.prev l.next null l.first x xs l.last null e is.distinct is.chain in
    let full : (l.last == null) ≡ false = ground arith in
    let front' : Seg (update l.prev e l.last) (update (update l.next l.last e) e null) null l.first
        (x ∷ xs) l.last e =
      frame _ _ _ _ null l.first (x ∷ xs) l.last e (λ c i. ground arith) (λ c i. ground arith)
        front in
    rw full (
      record {
        chain =
            join _ _ null l.first (x ∷ xs) l.last e (e ∷ []) e null front'
              (refl, nz, ground arith, (ground arith, refl));
        distinct =
            Distinct-insert (x ∷ xs) e [] (append-nil_not_mem e (x ∷ xs) new)
              (rw append-nil is.distinct);
        counted = omega (arith, is.counted, length-append (x ∷ xs) (e ∷ []));
        small = omega (arith, length-append (x ∷ xs) (e ∷ []));
      },
      λ a o. (ground arith, ground arith),
    )

pub xlist_extract_first-nil : (l : XList) → IsList l [] → xlist_extract_first l ≡ (null, l)
unfolding xlist_extract_first
xlist_extract_first-nil l is =
    let empty : (l.first == null) ≡ true = ground (arith, is.chain) in rw empty

-- xlist_extract_first on a well-formed list with a first element returns it, detached, and leaves
-- a well-formed list of the others, the links of all other addresses unchanged.
pub xlist_extract_first-cons :
    (l : XList) (e : Ptr) (xs : List Ptr)
    → IsList l (e ∷ xs)
    → ((xlist_extract_first l).0 ≡ e) × Extracted l e (e ∷ xs) xs (xlist_extract_first l).1
unfolding xlist_extract_first
xlist_extract_first-cons l e [] is =
    let full : (l.first == null) ≡ false = ground (arith, is.chain) in
    let at : l.first ≡ e = is.chain.0 in
    let only : (l.next e == null) ≡ true = ground (arith, is.chain) in
    rw (full, at, only)
      (
        refl,
        record {
          left = record {
            chain = (refl, refl);
            distinct = tt;
            counted = omega (arith, is.counted);
            small = omega arith;
          };
          detached = (ground arith, ground arith);
          same = λ a o. (ground arith, ground arith);
        },
      )
xlist_extract_first-cons l e (y ∷ ys) is =
    let full : (l.first == null) ≡ false = ground (arith, is.chain) in
    let at : l.first ≡ e = is.chain.0 in
    let more : (l.next e == null) ≡ false = ground (arith, is.chain) in
    let tail : Seg (update (update l.prev (l.next e) null) e null) (update l.next e null) y
        (l.next y) ys l.last null =
      frame _ _ _ _ y (l.next y) ys l.last null (λ c i. ground (arith, is.chain, is.distinct))
        (λ c i. ground (arith, is.distinct)) is.chain.3.3 in
    let next_y : update l.next e null y ≡ l.next y = ground (arith, is.distinct) in
    rw (full, at, more)
      (
        refl,
        record {
          left = record {
            chain =
                (is.chain.3.0, is.chain.3.1, ground (arith, is.chain, is.distinct), rw next_y tail);
            distinct = is.distinct.1;
            counted = omega (arith, is.counted, is.small);
            small = omega (arith, is.small);
          };
          detached = (ground arith, ground arith);
          same = λ a o. (ground (arith, is.chain), ground arith);
        },
      )

pub xlist_extract_last-nil : (l : XList) → IsList l [] → xlist_extract_last l ≡ (null, l)
unfolding xlist_extract_last
xlist_extract_last-nil l is =
    let empty : (l.last == null) ≡ true = ground (arith, is.chain) in rw empty

-- xlist_extract_last on a well-formed list with a last element returns it, detached, and leaves a
-- well-formed list of the others, the links of all other addresses unchanged.
pub xlist_extract_last-append :
    (l : XList) (xs : List Ptr) (e : Ptr)
    → IsList l (xs ++ e ∷ [])
    → ((xlist_extract_last l).0 ≡ e) × Extracted l e (xs ++ e ∷ []) xs (xlist_extract_last l).1
unfolding xlist_extract_last
xlist_extract_last-append l [] e is =
    let full : (l.last == null) ≡ false = ground (arith, is.chain) in
    let at : l.last ≡ e = ground (arith, is.chain) in
    let only : (l.prev e == null) ≡ true = ground (arith, is.chain) in
    rw (full, at, only)
      (
        refl,
        record {
          left = record {
            chain = (refl, refl);
            distinct = tt;
            counted = omega (arith, is.counted);
            small = omega arith;
          };
          detached = (ground arith, ground arith);
          same = λ a o. (ground arith, ground arith);
        },
      )
xlist_extract_last-append l (x ∷ xs) e is =
    let (r, s, front, back) =
      split l.prev l.next null l.first (x ∷ xs) (e ∷ []) l.last null is.chain in
    let distinct : Distinct (x ∷ xs) = Distinct-append_left (x ∷ xs) (e ∷ []) is.distinct in
    let new : e ∉ x ∷ xs = Distinct-apart e (x ∷ xs) (e ∷ []) is.distinct (ground arith) in
    let (mem, r_nz, front') = relink_last l.prev l.next null l.first x xs r s null distinct front in
    let at : l.last ≡ e = ground (arith, back) in
    let before : l.prev e ≡ r = back.2 in
    let full : (e == null) ≡ false = ground (arith, back) in
    let more : (r == null) ≡ false = ground arith in
    let chain : Seg (update l.prev e null) (update (update l.next r null) e null) null l.first
        (x ∷ xs) r null =
      frame _ _ _ _ null l.first (x ∷ xs) r null (λ c i. ground arith) (λ c i. ground arith)
        front' in
    rw (at, full, before, more)
      (
        refl,
        record {
          left = record {
            chain = chain;
            distinct = distinct;
            counted = omega (arith, is.counted, is.small, length-append (x ∷ xs) (e ∷ []));
            small = omega (arith, is.small, length-append (x ∷ xs) (e ∷ []));
          };
          detached = (ground arith, ground arith);
          same = λ a o.
              let before_e : a ∉ x ∷ xs = not_mem-append_left a (x ∷ xs) (e ∷ []) o in
              let not_e : a ∉ e ∷ [] = not_mem-append_right a (x ∷ xs) (e ∷ []) o in
              (ground arith, ground arith);
        },
      )

-- ===== src/XList/Insert.antt =====
-- `xlist_insert_after_unsafe` and `xlist_insert_before_unsafe` at an element of a list that stands
-- for a sequence.
use phlox.Common.{
  suc, ◌<◌, ◌≡◌, refl, ◌≢◌, ◌⊎◌, inl, inr, List, ◌∷◌, ◌++◌, arith, length, length-append, u32_mod,
  ◌==◌, ◌∈◌, ◌∉◌, Distinct, if◌then◌else◌, inc32, Bool-cases,
}
use phlox.XList.{Ptr, null, update, XList, xlist_insert_after_unsafe, xlist_insert_before_unsafe}
use phlox.XList.Segment.{Seg, frame, join, split}
use phlox.XList.Splice.{set_successor, set_predecessor}
use phlox.XList.Represents.{
  IsList, SameOutside, Distinct-append, Distinct-append_left, Distinct-append_right,
  Distinct-apart_right, Distinct-apart, not_mem-append_left, not_mem-append_right,
}

insert_after_fields :
    (l : XList) (item e : Ptr)
    → l.next item ≢ e
    → xlist_insert_after_unsafe l item e ≡ record {
      first = l.first;
      last = if l.next item == null then e else l.last;
      count = inc32 l.count;
      prev =
          (if l.next item == null
            then update l.prev e item
            else update (update l.prev e item) (l.next item) e);
      next = update (update l.next e (l.next item)) item e;
    }
unfolding xlist_insert_after_unsafe
insert_after_fields l item e ne =
    let self : update l.next e (l.next item) e ≡ l.next item = ground arith in
    elim (Bool-cases (l.next item == null)) [ inl a ↦ rw (self, a) | inr a ↦ rw (self, a) ]

insert_before_fields :
    (l : XList) (item e : Ptr)
    → l.prev item ≢ e
    → xlist_insert_before_unsafe l item e ≡ record {
      first = if l.prev item == null then e else l.first;
      last = l.last;
      count = inc32 l.count;
      prev = update (update l.prev e (l.prev item)) item e;
      next =
          (if l.prev item == null
            then update l.next e item
            else update (update l.next e item) (l.prev item) e);
    }
unfolding xlist_insert_before_unsafe
insert_before_fields l item e ne =
    let self : update l.prev e (l.prev item) e ≡ l.prev item = ground arith in
    elim (Bool-cases (l.prev item == null)) [ inl a ↦ rw (self, a) | inr a ↦ rw (self, a) ]

-- The run of a list around `item`: what stands before and after it, and which links it has.
record Around (l : XList) (xs : List Ptr) (item : Ptr) (ys : List Ptr) : Type 0 where
  start : Ptr
  front : Seg l.prev l.next null l.first xs (l.prev item) start
  start_item : start ≡ item
  back : Seg l.prev l.next item (l.next item) ys l.last null
  item_nz : item ≢ null
  item_before : item ∉ xs
  item_after : item ∉ ys
  prev_in : (l.prev item ≡ null) ⊎ (l.prev item ∈ xs)
  next_in : (l.next item ≡ null) ⊎ (l.next item ∈ ys)
  front_distinct : Distinct xs
  back_distinct : Distinct ys

around :
    (l : XList) (xs : List Ptr) (item : Ptr) (ys : List Ptr)
    → IsList l (xs ++ item ∷ ys)
    → Around l xs item ys
around l xs item ys is =
    let (r, s, front, back) =
      split l.prev l.next null l.first xs (item ∷ ys) l.last null is.chain in
    let d2 : Distinct (item ∷ ys) = Distinct-append_right xs (item ∷ ys) is.distinct in
    let d1 : Distinct xs = Distinct-append_left xs (item ∷ ys) is.distinct in
    let before : l.prev item ≡ r = back.2 in
    record {
      start = s;
      front = rw before front;
      start_item = back.0;
      back = back.3;
      item_nz = back.1;
      item_before = Distinct-apart item xs (item ∷ ys) is.distinct (ground arith);
      item_after = d2.0;
      prev_in = rw before ((set_successor l.prev l.next l.first xs r s null d1 front).0);
      next_in = (set_predecessor l.prev l.next item (l.next item) ys l.last null d2.1 back.3).0;
      front_distinct = d1;
      back_distinct = d2.1;
    }

-- Inserting behind an element of the list.
pub xlist_insert_after_unsafe-IsList :
    (l : XList) (xs : List Ptr) (item e : Ptr) (ys : List Ptr)
    → IsList l (xs ++ item ∷ ys)
    → e ≢ null
    → e ∉ xs ++ item ∷ ys
    → suc (length (xs ++ item ∷ ys)) < u32_mod
    → IsList (xlist_insert_after_unsafe l item e) (xs ++ item ∷ e ∷ ys)
      × SameOutside (e ∷ xs ++ item ∷ ys) l (xlist_insert_after_unsafe l item e)
xlist_insert_after_unsafe-IsList l xs item e ys is nz new room =
    let a = around l xs item ys is in
    let q = l.next item in
    let new_front : e ∉ xs = not_mem-append_left e xs (item ∷ ys) new in
    let new_back : e ∉ item ∷ ys = not_mem-append_right e xs (item ∷ ys) new in
    let apart = λ (c : Ptr) (i : c ∈ xs). Distinct-apart_right c xs (item ∷ ys) is.distinct i in
    let ne : q ≢ e = ground (arith, a.next_in) in
    let b = (set_predecessor l.prev l.next item q ys l.last e a.back_distinct a.back).1 in
    let back : Seg (if q == null then update l.prev e item else update (update l.prev e item) q e)
        (update (update l.next e q) item e) e q ys (if q == null then e else l.last) null =
      frame _ _ _ _ e q ys _ null (λ c i. ground arith) (λ c i. ground (arith, a.item_after)) b in
    let front : Seg (if q == null then update l.prev e item else update (update l.prev e item) q e)
        (update (update l.next e q) item e) null l.first xs (l.prev item) a.start =
      frame _ _ _ _ null l.first xs (l.prev item) a.start
        (λ c i. ground (arith, apart c i, a.next_in)) (λ c i. ground (arith, a.item_before))
        a.front in
    let next_e : update (update l.next e q) item e e ≡ q = ground arith in
    rw (insert_after_fields l item e ne) (
      record {
        chain = join _ _ null l.first xs (l.prev item) a.start (item ∷ e ∷ ys) _ null front (
          a.start_item,
          a.item_nz,
          ground (arith, a.next_in, a.item_after),
          (ground arith, nz, ground arith, rw next_e back),
        );
        distinct =
            Distinct-append xs (item ∷ e ∷ ys) a.front_distinct
              (ground (arith, a.item_after), (ground arith, a.back_distinct))
              (λ c i. ground (arith, apart c i));
        counted =
            omega
              (arith, is.counted, length-append xs (item ∷ ys), length-append xs (item ∷ e ∷ ys));
        small = omega (arith, length-append xs (item ∷ ys), length-append xs (item ∷ e ∷ ys));
      },
      λ c o.
          let o1 : c ∉ xs = not_mem-append_left c xs (item ∷ ys) (ground arith) in
          let o2 : c ∉ item ∷ ys = not_mem-append_right c xs (item ∷ ys) (ground arith) in
          (ground (arith, a.next_in), ground arith),
    )

-- Inserting before an element of the list.
pub xlist_insert_before_unsafe-IsList :
    (l : XList) (xs : List Ptr) (item e : Ptr) (ys : List Ptr)
    → IsList l (xs ++ item ∷ ys)
    → e ≢ null
    → e ∉ xs ++ item ∷ ys
    → suc (length (xs ++ item ∷ ys)) < u32_mod
    → IsList (xlist_insert_before_unsafe l item e) (xs ++ e ∷ item ∷ ys)
      × SameOutside (e ∷ xs ++ item ∷ ys) l (xlist_insert_before_unsafe l item e)
xlist_insert_before_unsafe-IsList l xs item e ys is nz new room =
    let a = around l xs item ys is in
    let r = l.prev item in
    let new_front : e ∉ xs = not_mem-append_left e xs (item ∷ ys) new in
    let new_back : e ∉ item ∷ ys = not_mem-append_right e xs (item ∷ ys) new in
    let apart = λ (c : Ptr) (i : c ∈ xs). Distinct-apart_right c xs (item ∷ ys) is.distinct i in
    let ne : r ≢ e = ground (arith, a.prev_in) in
    let f = (set_successor l.prev l.next l.first xs r a.start e a.front_distinct a.front).1 in
    let front : Seg (update (update l.prev e r) item e)
        (if r == null then update l.next e item else update (update l.next e item) r e) null
        (if r == null then e else l.first) xs r e =
      frame _ _ _ _ null _ xs r e (λ c i. ground (arith, a.item_before)) (λ c i. ground arith) f in
    let back : Seg (update (update l.prev e r) item e)
        (if r == null then update l.next e item else update (update l.next e item) r e) item
        (l.next item) ys l.last null =
      frame _ _ _ _ item (l.next item) ys l.last null (λ c i. ground (arith, a.item_after))
        (λ c i. ground (arith, apart r, a.prev_in)) a.back in
    let next_item : (if r == null then update l.next e item else update (update l.next e item) r e)
          item
        ≡ l.next item =
      ground (arith, a.prev_in, a.item_before, a.item_nz) in
    rw (insert_before_fields l item e ne) (
      record {
        chain = join _ _ null _ xs r e (e ∷ item ∷ ys) _ null front (
          refl,
          nz,
          ground (arith, a.item_nz),
          (ground arith, a.item_nz, ground arith, rw next_item back),
        );
        distinct =
            Distinct-append xs (e ∷ item ∷ ys) a.front_distinct
              (new_back, (a.item_after, a.back_distinct)) (λ c i. ground (arith, apart c i));
        counted =
            omega
              (arith, is.counted, length-append xs (item ∷ ys), length-append xs (e ∷ item ∷ ys));
        small = omega (arith, length-append xs (item ∷ ys), length-append xs (e ∷ item ∷ ys));
      },
      λ c o.
          let o1 : c ∉ xs = not_mem-append_left c xs (item ∷ ys) (ground arith) in
          let o2 : c ∉ item ∷ ys = not_mem-append_right c xs (item ∷ ys) (ground arith) in
          (ground arith, ground (arith, a.prev_in)),
    )

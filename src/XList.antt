-- ===== src/XList.antt =====
-- phlox/kernel/util/list.c: the multi-purpose doubly linked list of the kernel, `xlist_t`.
-- An element is the address of a `list_elem_t`, and 0 is NULL. The `prev` and `next` fields of all
-- elements are two functions on addresses, so that lists may share and alias elements as in the
-- source. A routine takes the state before it and returns the state after it; a routine whose
-- result is the constant 1 returns the state alone. A loop over the list runs on `count + 1`
-- rounds and returns `none` where these do not suffice.
pub mod Segment
pub mod Represents
pub mod Ends
pub mod Splice
pub mod Insert
pub mod Search
mod Examples
use phlox.Common.{
  ℕ, zero, suc, ◌+◌, Bool, true, false, Option, none, some, List, [], ◌∷◌, ◌==◌, if◌then◌else◌,
  inc32, dec32,
}

abbrev pub Ptr : Type 0
Ptr = ℕ

abbrev pub null : Ptr
null = 0

-- An assignment to one field.
abbrev pub update : (Ptr → Ptr) → Ptr → Ptr → Ptr → Ptr
update f p v q = if q == p then v else f q

-- A list header, with the links of all elements.
pub record XList : Type 0 where
  pub first : Ptr
  pub last : Ptr
  pub count : ℕ
  pub prev : Ptr → Ptr
  pub next : Ptr → Ptr

pub xlist_init : XList → XList
xlist_init l = record l { first = null; last = null; count = 0 }

pub xlist_elem_init : XList → Ptr → XList
xlist_elem_init l e = record l { prev = update l.prev e null; next = update l.next e null }

pub xlist_isempty : XList → Bool
xlist_isempty l = l.count == 0

-- `if(e->prev) e->prev->next = e->next; else list->first = e->next;`
bypass_forward : XList → Ptr → XList
bypass_forward l e =
    if l.prev e == null
    then record l { first = l.next e }
    else record l { next = update l.next (l.prev e) (l.next e) }

-- `if(e->next) e->next->prev = e->prev; else list->last = e->prev;`
bypass_backward : XList → Ptr → XList
bypass_backward l e =
    if l.next e == null
    then record l { last = l.prev e }
    else record l { prev = update l.prev (l.next e) (l.prev e) }

-- `list->count--; e->next = e->prev = NULL;`
release : XList → Ptr → XList
release l e = record l {
  count = dec32 l.count;
  prev = update l.prev e null;
  next = update l.next e null;
}

pub xlist_remove_unsafe : XList → Ptr → XList
unfolding bypass_forward bypass_backward release
xlist_remove_unsafe l e = release (bypass_backward (bypass_forward l e) e) e

-- The search loop: whether `e` is found from `temp` on.
search_from : ℕ → XList → (temp e : Ptr) → Option Bool
search_from zero l temp e = none
search_from (suc k) l temp e =
    let rest = search_from k l (l.next temp) e in
    if temp == null then some false else if temp == e then some true else rest

-- The search for `item`, and the update of the list where it is found.
if_found : XList → Ptr → (XList → XList) → Option (Bool × XList)
unfolding search_from
if_found l item f = elim (search_from (l.count + 1) l l.first item) [
  | none ↦ none
  | some true ↦ some (true, f l)
  | some false ↦ some (false, l)
]

pub xlist_remove : XList → Ptr → Option (Bool × XList)
unfolding if_found xlist_remove_unsafe
xlist_remove l e = if_found l e λ m. xlist_remove_unsafe m e

pub xlist_add_first : XList → Ptr → XList
xlist_add_first l e =
    let l' : XList =
      if l.first == null
      then record l {
        prev = update l.prev e null;
        next = update l.next e null;
        first = e;
        last = e;
      }
      else record l {
        prev = update (update l.prev l.first e) e null;
        next = update l.next e l.first;
        first = e;
      } in
    record l' { count = inc32 l.count }

pub xlist_add_last : XList → Ptr → XList
xlist_add_last l e =
    let l' : XList =
      if l.last == null
      then record l {
        prev = update l.prev e null;
        next = update l.next e null;
        first = e;
        last = e;
      }
      else record l {
        prev = update l.prev e l.last;
        next = update (update l.next l.last e) e null;
        last = e;
      } in
    record l' { count = inc32 l.count }

-- `list->first = e->next; if(list->first) list->first->prev = NULL; else list->last = NULL;`
drop_first : XList → Ptr → XList
drop_first l e =
    if l.next e == null
    then record l { first = null; last = null }
    else record l { first = l.next e; prev = update l.prev (l.next e) null }

pub xlist_extract_first : XList → Ptr × XList
unfolding drop_first release
xlist_extract_first l =
    if l.first == null then (null, l) else (l.first, release (drop_first l l.first) l.first)

-- `list->last = e->prev; if(list->last) list->last->next = NULL; else list->first = NULL;`
drop_last : XList → Ptr → XList
drop_last l e =
    if l.prev e == null
    then record l { first = null; last = null }
    else record l { last = l.prev e; next = update l.next (l.prev e) null }

pub xlist_extract_last : XList → Ptr × XList
unfolding drop_last release
xlist_extract_last l =
    if l.last == null then (null, l) else (l.last, release (drop_last l l.last) l.last)

-- `e->prev = item; e->next = item->next;`, what follows `e` linked back to it, and `item` to it.
pub xlist_insert_after_unsafe : XList → (item e : Ptr) → XList
xlist_insert_after_unsafe l item e =
    let m : XList = record l {
      prev = update l.prev e item;
      next = update l.next e (l.next item);
    } in
    let n : XList =
      if m.next e == null
      then record m { last = e }
      else record m { prev = update m.prev (m.next e) e } in
    record n { next = update n.next item e; count = inc32 l.count }

pub xlist_insert_after : XList → (item e : Ptr) → Option (Bool × XList)
unfolding if_found xlist_insert_after_unsafe
xlist_insert_after l item e = if_found l item λ m. xlist_insert_after_unsafe m item e

pub xlist_insert_before_unsafe : XList → (item e : Ptr) → XList
xlist_insert_before_unsafe l item e =
    let m : XList = record l {
      prev = update l.prev e (l.prev item);
      next = update l.next e item;
    } in
    let n : XList =
      if m.prev e == null
      then record m { first = e }
      else record m { next = update m.next (m.prev e) e } in
    record n { prev = update n.prev item e; count = inc32 l.count }

pub xlist_insert_before : XList → (item e : Ptr) → Option (Bool × XList)
unfolding if_found xlist_insert_before_unsafe
xlist_insert_before l item e = if_found l item λ m. xlist_insert_before_unsafe m item e

pub xlist_peek_first : XList → Ptr
xlist_peek_first l = l.first

pub xlist_peek_last : XList → Ptr
xlist_peek_last l = l.last

pub xlist_peek_next : XList → Ptr → Ptr
xlist_peek_next l item = l.next item

pub xlist_peek_prev : XList → Ptr → Ptr
xlist_peek_prev l item = l.prev item

dump_from : ℕ → XList → (temp : Ptr) → Option (List Ptr)
dump_from zero l temp = none
dump_from (suc k) l temp =
    let rest = dump_from k l (l.next temp) in
    if temp == null then some [] else elim rest [ none ↦ none | some ps ↦ some (temp ∷ ps) ]

-- The array that the routine fills.
pub xlist_dump_elements : XList → Option (List Ptr)
unfolding dump_from
xlist_dump_elements l = dump_from (l.count + 1) l l.first

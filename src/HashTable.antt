-- ===== src/HashTable.antt =====
-- phlox/kernel/util/hash_table.c: the chained hash table. An element is an address, and 0 is NULL.
-- The links of all elements, which are inside the elements, are a function on addresses, which two
-- tables share. The hash function and the comparison are those of the table's user. Where the source
-- allocates, the success of `kmalloc` is an argument. A loop over a chain runs on fuel, one more
-- than the number of elements, and returns `none` where this does not suffice.
pub mod Iterate
pub mod Hash
pub mod Horner
pub mod Valid
pub mod Change
pub mod Remove
pub mod Visit
mod Examples
use phlox.Common.{
  ℕ, zero, suc, ◌+◌, ◌-◌, ◌/◌, ◌%◌, Bool, true, false, not, ◌&&◌, ◌||◌, Option, none, some, ◌==◌,
  ltb, if◌then◌else◌, inc32, dec32,
}
use phlox.Common.Chains.{null, link}

pub record HashTable : Type 0 where
  pub table : ℕ → ℕ
  pub table_size : ℕ
  pub num_elems : ℕ
  pub num_buckets : ℕ
  pub is_static : Bool
  -- the hash of an element or of a key, for a number of buckets
  pub hash_func : (elem key range : ℕ) → ℕ
  pub compare_func : Option ((elem key : ℕ) → ℕ)
  pub next : ℕ → ℕ

abbrev pub hash_elem : HashTable → ℕ → ℕ
hash_elem t elem = t.hash_func elem null t.table_size

-- A table with no elements, over the present links.
pub empty_table :
    (next : ℕ → ℕ) (table_size : ℕ) (is_static : Bool)
    → Option ((elem key : ℕ) → ℕ)
    → ((elem key range : ℕ) → ℕ)
    → HashTable
empty_table next table_size is_static compare_func hash_func = record {
  table = λ i. null;
  table_size = table_size;
  num_elems = 0;
  num_buckets = 0;
  is_static = is_static;
  hash_func = hash_func;
  compare_func = compare_func;
  next = next;
}

pub hash_table_init :
    (got_struct got_table : Bool) (next : ℕ → ℕ) (table_size : ℕ)
    → Option ((elem key : ℕ) → ℕ)
    → ((elem key range : ℕ) → ℕ)
    → Option HashTable
unfolding empty_table
hash_table_init got_struct got_table next table_size compare_func hash_func =
    if not got_struct
    then none
    else if not got_table
    then none
    else some (empty_table next table_size false compare_func hash_func)

-- The size of the structure and of a node, on a machine of 32 bits.
abbrev pub struct_size : ℕ
struct_size = 32

abbrev pub node_size : ℕ
node_size = 4

pub hash_table_init_static :
    (area_size : ℕ) (next : ℕ → ℕ)
    → Option ((elem key : ℕ) → ℕ)
    → ((elem key range : ℕ) → ℕ)
    → Option HashTable
unfolding empty_table
hash_table_init_static area_size next compare_func hash_func =
    if ltb area_size (struct_size + node_size)
    then none
    else some (empty_table next ((area_size - struct_size) / node_size) true compare_func hash_func)

-- Whether the table is released; the result of the source is 0 where it is.
pub hash_table_uninit : HashTable → Bool
hash_table_uninit t = not t.is_static

-- A chain gets a new head.
pub prepend : HashTable → (hash elem : ℕ) → HashTable
prepend t hash elem = record t {
  next = link t.next elem (t.table hash);
  num_buckets = if t.table hash == null then inc32 t.num_buckets else t.num_buckets;
  table = link t.table hash elem;
  num_elems = inc32 t.num_elems;
}

pub hash_table_insert : HashTable → (elem : ℕ) → HashTable
unfolding prepend
hash_table_insert t elem = prepend t (hash_elem t elem) elem

-- The element of a chain, from `i` on, that passes a test.
pub search_chain : ℕ → (next : ℕ → ℕ) → (i : ℕ) → (ℕ → Bool) → Option (Option ℕ)
search_chain zero next i test = none
search_chain (suc n) next i test =
    let rest = search_chain n next (next i) test in
    if i == null then some none else if test i then some (some i) else rest

abbrev pub search : HashTable → (hash : ℕ) → (ℕ → Bool) → Option (Option ℕ)
search t hash = search_chain (t.num_elems + 1) t.next (t.table hash)

-- Whether the element was inserted; the result of the source is 0 where it was.
pub hash_table_insert_safe : HashTable → (elem : ℕ) → Option (Bool × HashTable)
unfolding prepend search_chain
hash_table_insert_safe t elem = elim (search t (hash_elem t elem) (λ i. i == elem)) [
  | none ↦ none
  | some (some i) ↦ some (false, t)
  | some none ↦ some (true, prepend t (hash_elem t elem) elem)
]

pub hash_table_find : HashTable → (elem : ℕ) → Option (Option ℕ)
unfolding search_chain
hash_table_find t elem = search t (hash_elem t elem) (λ i. i == elem)

pub hash_table_lookup : HashTable → (key : ℕ) → Option (Option ℕ)
unfolding search_chain
hash_table_lookup t key = elim t.compare_func [
  | none ↦ some none
  | some compare ↦ search t (t.hash_func null key t.table_size) (λ i. compare i key == 0)
]

-- The chain without the element `i` behind `last_i`, and the counts.
pub unlink_elem : HashTable → (hash last_i i : ℕ) → HashTable
unlink_elem t hash last_i i =
    let t1 : HashTable =
      if last_i == null
      then record t { table = link t.table hash (t.next i) }
      else record t { next = link t.next last_i (t.next i) } in
    record t1 {
      num_buckets = if t1.table hash == null then dec32 t1.num_buckets else t1.num_buckets;
      num_elems = dec32 t1.num_elems;
    }

-- Whether the element was removed; the result of the source is 0 where it was.
pub remove_from : ℕ → HashTable → (hash last_i i elem : ℕ) → Option (Bool × HashTable)
remove_from zero t hash last_i i elem = none
remove_from (suc n) t hash last_i i elem =
    let rest = remove_from n t hash i (t.next i) elem in
    if i == null
    then some (false, t)
    else if i == elem
    then some (true, unlink_elem t hash last_i i)
    else rest

pub hash_table_remove : HashTable → (elem : ℕ) → Option (Bool × HashTable)
unfolding remove_from
hash_table_remove t elem =
    let hash = hash_elem t elem in remove_from (t.num_elems + 1) t hash null (t.table hash) elem

pub hash_table_size : HashTable → ℕ
hash_table_size t = t.table_size

pub hash_table_count : HashTable → ℕ
hash_table_count t = t.num_elems

pub hash_table_buckets : HashTable → ℕ
hash_table_buckets t = t.num_buckets
